-- ===== src/Updates/Records.antt =====
-- updates/records.go: the events that make a record or a stream's end canonical.
pub mod Valid
use go_temporal_ai_sdk.Prelude.{ℤ, String, [], ◌∷◌, join, decimal}
use go_temporal_ai_sdk.Updates.Types.{
  WorkflowRecord, RecordUpsertEvent, StreamEndEvent, StreamOutcome, protocol_version,
  event_type_record_upsert, event_type_stream_end,
}

-- `fmt.Sprintf("%s:v%d", record.RecordID, record.RecordVersion)`
unfoldable pub record_event_id : String → ℤ → String
record_event_id id version = join (id ∷ ":v" ∷ decimal version ∷ [])

unfoldable pub new_record_upsert_event : String → WorkflowRecord → String → ℤ → RecordUpsertEvent
new_record_upsert_event stream_id r accepted_attempt_id occurred_at = record {
  base = record {
    version = protocol_version;
    type = event_type_record_upsert;
    event_id = record_event_id r.record_id r.record_version;
    cursor = "";
    stream_id = stream_id;
    occurred_at = occurred_at;
  };
  accepted_attempt_id = accepted_attempt_id;
  upserted = r;
}

-- `fmt.Sprintf("stream:%s:end:%s", streamID, outcome)`
unfoldable pub stream_end_event_id : String → StreamOutcome → String
stream_end_event_id stream_id outcome = join ("stream:" ∷ stream_id ∷ ":end:" ∷ outcome ∷ [])

unfoldable pub new_stream_end_event : String → StreamOutcome → String → ℤ → StreamEndEvent
new_stream_end_event stream_id outcome error_text occurred_at = record {
  base = record {
    version = protocol_version;
    type = event_type_stream_end;
    event_id = stream_end_event_id stream_id outcome;
    cursor = "";
    stream_id = stream_id;
    occurred_at = occurred_at;
  };
  outcome = outcome;
  error = error_text;
}
