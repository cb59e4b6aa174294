-- ===== src/Updates/Records/Valid.antt =====
-- The events of updates/records.go are valid when what they carry is.
use go_temporal_ai_sdk.Prelude.{
  ℤ, pos, is_negative, ltb_ℤ, String, ◌≡◌, refl, Bool, true, false, ◌||◌, none, some, List, [], ◌∷◌,
  ◌==◌, join, decimal, arith, append-ne_empty,
}
use go_temporal_ai_sdk.Updates.Types.{
  Value, WorkflowRecord, StreamOutcome, record_upsert, stream_end, stream_outcome_completed,
  stream_outcome_failed, stream_outcome_canceled,
}
use go_temporal_ai_sdk.Updates.Validation.{
  validate_event, validate_record, validate_scope, validate_stream_outcome, is_record_kind,
  negative_step,
}
use go_temporal_ai_sdk.Updates.Records.{
  record_event_id, new_record_upsert_event, stream_end_event_id, new_stream_end_event,
}

-- What makes a record valid once it has the time at which it is written.
pub record Recordable (r : WorkflowRecord) : Type 0 where
  pub contents_are : List (String × Value)
  pub named : (r.record_id == "") ≡ false
  pub versioned : ltb_ℤ r.record_version (pos 1) ≡ false
  pub of_kind : is_record_kind r.kind ≡ true
  pub kind_given : (r.kind == "") ≡ false
  pub with_status : (r.status == "") ≡ false
  pub filled : r.contents ≡ some contents_are
  pub step_ok : negative_step r.scope.step_number ≡ false
  pub not_before_epoch : is_negative r.updated_at ≡ false

-- NewRecordUpsertEvent makes a valid event of a complete record: with an identifier, a version of at
-- least 1, one of the kinds, a status and data, no negative step number and no time before 1970, for a
-- stream with an identifier, after 1970.
pub new_record_upsert_event-valid :
    (stream_id : String) (r : WorkflowRecord) (accepted : String) (now : ℤ)
    → (stream_id == "") ≡ false
    → is_negative now ≡ false
    → Recordable r
    → validate_event (record_upsert (new_record_upsert_event stream_id r accepted now)) ≡ none
unfolding validate_event new_record_upsert_event record_event_id validate_record validate_scope
new_record_upsert_event-valid stream_id r accepted now s t h = ground (
  arith,
  append-ne_empty r.record_id (join (":v" ∷ decimal r.record_version ∷ [])) h.named,
  h.filled,
)

abbrev pub is_stream_outcome : String → Bool
is_stream_outcome o =
    o == stream_outcome_completed || o == stream_outcome_failed || o == stream_outcome_canceled

-- NewStreamEndEvent makes a valid event of each of the three outcomes, for a stream with an identifier,
-- after 1970.
pub new_stream_end_event-valid :
    (stream_id : String) (outcome : StreamOutcome) (error_text : String) (now : ℤ)
    → (stream_id == "") ≡ false
    → is_negative now ≡ false
    → is_stream_outcome outcome ≡ true
    → validate_event (stream_end (new_stream_end_event stream_id outcome error_text now)) ≡ none
unfolding validate_event new_stream_end_event stream_end_event_id validate_stream_outcome
new_stream_end_event-valid stream_id outcome error_text now s t h =
    ground (arith, append-ne_empty "stream:" (join (stream_id ∷ ":end:" ∷ outcome ∷ [])) refl)
