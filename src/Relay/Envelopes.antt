-- ===== src/Relay/Envelopes.antt =====
-- The four preview events of updates/relay.go pass ValidateEvent when their reference is valid, the
-- stream has an identifier and the clock reads no time before 1970.
use go_temporal_ai_sdk.Prelude.{
  ℤ, is_negative, String, ◌≡◌, Bool, true, false, Option, none, ◌==◌, arith, ◌||◌,
}
use go_temporal_ai_sdk.Updates.Types.{
  PreviewRef, PreviewOutcome, Snapshot, preview_begin, preview_chunk, preview_snapshot, preview_end,
  event_type_preview_begin, event_type_preview_chunk, event_type_preview_snapshot,
  event_type_preview_end, preview_outcome_succeeded, preview_outcome_failed,
  preview_outcome_canceled,
}
use go_temporal_ai_sdk.Updates.Validation.{validate_event, validate_preview, validate_preview_end}
use go_temporal_ai_sdk.Relay.Part.{StreamPart, PartMeta}
use go_temporal_ai_sdk.Relay.Classify.{chunk_from_part}
use go_temporal_ai_sdk.Relay.State.{Relay, base_event, preview_event_id}
use go_temporal_ai_sdk.Relay.Validity.{preview_event_id-ne_empty, chunk-valid}

abbrev pub is_outcome : PreviewOutcome → Bool
is_outcome o =
    o == preview_outcome_succeeded || o == preview_outcome_failed || o == preview_outcome_canceled

module _ {W : Type 0} (r : Relay W) (streaming : (r.options.stream_id == "") ≡ false)
    (epoch : (w : W) → is_negative (r.now w).0 ≡ false) (attempt : String) (n : ℤ) (w : W)
    (ref : PreviewRef) (ref_ok : validate_preview ref ≡ none) where
  pub begin_event-valid :
      validate_event (
        preview_begin (record {
          base = (base_event r event_type_preview_begin (preview_event_id attempt n "begin") w).0;
          ref = ref;
        }))
      ≡ none
  unfolding validate_event base_event
  begin_event-valid = simp (streaming, epoch, preview_event_id-ne_empty, ref_ok)

  pub chunk_event-valid :
      (part : StreamPart) (meta : PartMeta)
      → (part.type == "") ≡ false
      → validate_event (
          preview_chunk (record {
            base = (base_event r event_type_preview_chunk (preview_event_id attempt n "chunk") w).0;
            ref = ref;
            chunk = chunk_from_part part meta;
          }))
        ≡ none
  unfolding validate_event base_event
  chunk_event-valid part meta typed =
      simp (streaming, epoch, preview_event_id-ne_empty, chunk-valid ref part meta ref_ok typed)

  pub snapshot_event-valid :
      (s : Snapshot)
      → validate_event (
          preview_snapshot (record {
            base =
                (base_event r event_type_preview_snapshot
                  (preview_event_id attempt n "snapshot")
                  w).0;
            ref = ref;
            snapshot = s;
          }))
        ≡ none
  unfolding validate_event base_event
  snapshot_event-valid s = simp (streaming, epoch, preview_event_id-ne_empty, ref_ok)

  pub end_event-valid :
      (outcome : PreviewOutcome) (reason : String) (s : Option Snapshot)
      → is_outcome outcome ≡ true
      → validate_event (
          preview_end (record {
            base = (base_event r event_type_preview_end (preview_event_id attempt n "end") w).0;
            ref = ref;
            outcome = outcome;
            reason = reason;
            snapshot = s;
          }))
        ≡ none
  unfolding validate_event base_event validate_preview_end
  end_event-valid outcome reason s o =
      simp (streaming, epoch, preview_event_id-ne_empty, ref_ok) (ground arith)
