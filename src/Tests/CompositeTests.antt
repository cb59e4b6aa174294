-- ===== src/Tests/CompositeTests.antt =====
-- The theorem of Updates/Connector/Order for stores and a publisher that count what they are given.
use go_temporal_ai_sdk.Prelude.{ℕ, suc, ◌≤◌, ◌<◌, Option, none, some, arith}
use go_temporal_ai_sdk.Updates.Types.{
  PreviewBeginEvent, PreviewSnapshotEvent, PreviewEndEvent, RecordUpsertEvent, StreamEndEvent,
  UpdateEvent,
}
use go_temporal_ai_sdk.Updates.Connector.{
  PreviewStore, RecordStore, CompositeConnector, composite_begin_preview,
  composite_checkpoint_preview, composite_end_preview, composite_upsert_record,
  composite_end_stream,
}
use go_temporal_ai_sdk.Updates.Connector.Order.{Persists, composite-keeps}
use go_temporal_ai_sdk.Updates.Errors.{Err}

-- How many events were stored, and how many published.
abbrev Counts : Type 0
Counts = ℕ × ℕ

abbrev count_stored : Counts → Option Err × Counts
count_stored (stored, published) = (none, (suc stored, published))

abbrev count_published : Counts → Option Err × Counts
count_published (stored, published) = (none, (stored, suc published))

abbrev counting_previews : PreviewStore Counts
counting_previews = record {
  begin_preview = λ e w. count_stored w;
  checkpoint_preview = λ e w. count_stored w;
  end_preview = λ e w. count_stored w;
}

abbrev counting_records : RecordStore Counts
counting_records = record {
  upsert_record = λ e w. count_stored w;
  end_stream = λ e w. count_stored w;
}

abbrev NoneAhead : Counts → Type 0
NoneAhead (stored, published) = published ≤ stored

abbrev OneStored : UpdateEvent → Counts → Type 0
OneStored e (stored, published) = published < stored

counting-Persists : Persists NoneAhead OneStored counting_previews counting_records
counting-Persists = record {
  begins = λ e w j. ground arith;
  checkpoints = λ e w j. ground arith;
  ends = λ e w j. ground arith;
  upserts = λ e w j. ground arith;
  closes = λ e w j. ground arith;
}

published-NoneAhead :
    (e : UpdateEvent) (w : Counts) → NoneAhead w → OneStored e w → NoneAhead (count_published w).1
published-NoneAhead e (stored, published) j s = omega arith

abbrev counting : CompositeConnector Counts
counting = record {
  previews = some counting_previews;
  records = some counting_records;
  publisher = some (λ e w. count_published w);
}

composite-keeps_example :
    ((e : PreviewBeginEvent) → NoneAhead (composite_begin_preview counting e (0, 0)).1)
    × ((e : PreviewSnapshotEvent) → NoneAhead (composite_checkpoint_preview counting e (0, 0)).1)
    × ((e : PreviewEndEvent) → NoneAhead (composite_end_preview counting e (0, 0)).1)
    × ((e : RecordUpsertEvent) → NoneAhead (composite_upsert_record counting e (0, 0)).1)
    × ((e : StreamEndEvent) → NoneAhead (composite_end_stream counting e (0, 0)).1)
composite-keeps_example =
    composite-keeps NoneAhead OneStored counting_previews counting_records
      (λ e w. count_published w) counting-Persists published-NoneAhead (0, 0) (omega arith)
