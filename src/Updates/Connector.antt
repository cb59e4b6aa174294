-- ===== src/Updates/Connector.antt =====
-- updates/connector.go: the interfaces behind which previews and records are stored and published.
-- `W` is the world that the implementations act on; an action returns its error and the new world.
pub mod Order
use go_temporal_ai_sdk.Prelude.{Option, none, some}
use go_temporal_ai_sdk.Updates.Errors.{Err}
use go_temporal_ai_sdk.Updates.Types.{
  PreviewBeginEvent, PreviewSnapshotEvent, PreviewEndEvent, RecordUpsertEvent, StreamEndEvent,
  UpdateEvent, preview_begin, preview_snapshot, preview_end, record_upsert, stream_end,
}

abbrev pub Action : Type 0 → Type 0
Action W = W → Option Err × W

pub record PreviewStore (W : Type 0) : Type 0 where
  pub begin_preview : PreviewBeginEvent → Action W
  pub checkpoint_preview : PreviewSnapshotEvent → Action W
  pub end_preview : PreviewEndEvent → Action W

pub record RecordStore (W : Type 0) : Type 0 where
  pub upsert_record : RecordUpsertEvent → Action W
  pub end_stream : StreamEndEvent → Action W

abbrev pub LivePublisher : Type 0 → Type 0
LivePublisher W = UpdateEvent → Action W

pub record Connector (W : Type 0) : Type 0 where
  pub previews : PreviewStore W
  pub open previews use *
  pub records : RecordStore W
  pub open records use *
  pub publish_update : LivePublisher W

-- CompositeOptions and CompositeConnector have the same fields; `none` is a nil interface, and a nil
-- *CompositeConnector acts as one with three nil interfaces.
pub record CompositeConnector (W : Type 0) : Type 0 where
  pub previews : Option (PreviewStore W)
  pub records : Option (RecordStore W)
  pub publisher : Option (LivePublisher W)

abbrev pub ok {ℓ} : {W : Type ℓ} → W → Option Err × W
ok w = (none, w)

-- `if err := first; err != nil { return err }; return next`
abbrev pub then {ℓ} : {W : Type ℓ} → Option Err × W → (W → Option Err × W) → Option Err × W
then (none, w) next = next w
then (some e, w) next = (some e, w)

module _ {W : Type 0} (c : CompositeConnector W) where
  unfoldable pub composite_publish_update : UpdateEvent → Action W
  composite_publish_update event w = elim c.publisher [
    | none ↦ ok w
    | some publish ↦ publish event w
  ]

  unfoldable pub composite_begin_preview : PreviewBeginEvent → Action W
  unfolding composite_publish_update
  composite_begin_preview event w =
      then (elim c.previews [ none ↦ ok w | some store ↦ store.begin_preview event w ])
        (composite_publish_update (preview_begin event))

  unfoldable pub composite_checkpoint_preview : PreviewSnapshotEvent → Action W
  unfolding composite_publish_update
  composite_checkpoint_preview event w =
      then (elim c.previews [ none ↦ ok w | some store ↦ store.checkpoint_preview event w ])
        (composite_publish_update (preview_snapshot event))

  unfoldable pub composite_end_preview : PreviewEndEvent → Action W
  unfolding composite_publish_update
  composite_end_preview event w =
      then (elim c.previews [ none ↦ ok w | some store ↦ store.end_preview event w ])
        (composite_publish_update (preview_end event))

  unfoldable pub composite_upsert_record : RecordUpsertEvent → Action W
  unfolding composite_publish_update
  composite_upsert_record event w =
      then (elim c.records [ none ↦ ok w | some store ↦ store.upsert_record event w ])
        (composite_publish_update (record_upsert event))

  unfoldable pub composite_end_stream : StreamEndEvent → Action W
  unfolding composite_publish_update
  composite_end_stream event w =
      then (elim c.records [ none ↦ ok w | some store ↦ store.end_stream event w ])
        (composite_publish_update (stream_end event))

  -- The CompositeConnector as a Connector.
  abbrev pub composite : Connector W
  composite = record {
    previews = record {
      begin_preview = composite_begin_preview;
      checkpoint_preview = composite_checkpoint_preview;
      end_preview = composite_end_preview;
    };
    records = record { upsert_record = composite_upsert_record; end_stream = composite_end_stream };
    publish_update = composite_publish_update;
  }

abbrev pub noop_connector : {W : Type 0} → Connector W
noop_connector = record {
  previews = record {
    begin_preview = λ _ w. ok w;
    checkpoint_preview = λ _ w. ok w;
    end_preview = λ _ w. ok w;
  };
  records = record { upsert_record = λ _ w. ok w; end_stream = λ _ w. ok w };
  publish_update = λ _ w. ok w;
}
