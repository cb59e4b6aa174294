-- ===== src/Tests/RedisTests.antt =====
-- connectors/redis-dynamodb at work, and the theorems of Redis at concrete inputs.
use go_temporal_ai_sdk.Prelude.{
  decimal, some, none, lookup, ℤ, pos, eqb, if◌then◌else◌, ℕ, ◌+◌, ◌%◌, ◌^◌, ◌≡◌, refl, none, List,
  [], ◌∷◌, length, arith,
}
use go_temporal_ai_sdk.Updates.Types.{
  PreviewSnapshotEvent, RecordUpsertEvent, StreamEndEvent, stream_end,
}
use go_temporal_ai_sdk.Updates.Records.{
  new_stream_end_event, stream_end_event_id, record_event_id, new_record_upsert_event,
}
use go_temporal_ai_sdk.Relay.Classify.{empty_scope}
use go_temporal_ai_sdk.Redis.Item.{Item, num, str, clean_map, int_field, string_field}
use go_temporal_ai_sdk.Redis.Prog.{Time, Key, StreamRef, ◌>>=◌, ◌>>◌}
use go_temporal_ai_sdk.Redis.Records.{
  record_key, record_item, put_current_record, put_record_over, write_record,
}
use go_temporal_ai_sdk.Redis.Events.{
  event_key, terminal_key, terminal_item, event_with_cursor, persist_durable_event,
  persist_event_over, adopt_event, stored_event_hash, put_terminal, put_terminal_item,
}
use go_temporal_ai_sdk.Redis.Table
use go_temporal_ai_sdk.Redis.Table.{Table, write}
use go_temporal_ai_sdk.Redis.Connector.{
  empty_snapshot, preview_write, checkpoint_preview, upsert_record, end_stream,
}
use go_temporal_ai_sdk.Updates.Validation.{validate_event}
use go_temporal_ai_sdk.Redis.Preview.{
  preview_key, preview_item, put_preview, put_preview_over, resolve,
  validate_accepted_preview_target,
}
use go_temporal_ai_sdk.Redis.Sequences.{Advanced, preview_sequences_advance}
use go_temporal_ai_sdk.Redis.Kinds.{first_code}
use go_temporal_ai_sdk.Redis.Growth.{NamesApart, Grown, record_versions_grow, durable_events_stay}
use go_temporal_ai_sdk.Tests.Dynamo.{dynamo, options, plain}
use go_temporal_ai_sdk.Redis.Ulid.{Generator, increment_entropy, advance, encode_ulid}
use go_temporal_ai_sdk.Redis.Ulid.Order.{value, Precedes, increment_entropy-value, advance-Precedes}

abbrev low_bytes : List ℕ
low_bytes = 1 ∷ 2 ∷ 3 ∷ 4 ∷ 5 ∷ 6 ∷ 7 ∷ 8 ∷ 255 ∷ 255 ∷ []

increment_entropy-value_example :
    (value (increment_entropy low_bytes) ≡ (value low_bytes + 1) % 256 ^ length low_bytes)
    × (length (increment_entropy low_bytes) ≡ length low_bytes)
increment_entropy-value_example = increment_entropy-value low_bytes (ground arith)

abbrev stalled : Generator
stalled = record { last_event_time = 1469918176385; last_entropy = low_bytes }

advance-Precedes_example : Precedes stalled (advance 7 none stalled)
advance-Precedes_example = advance-Precedes 7 none stalled (ground arith) (omega arith)

ulid_text : encode_ulid 1469918176385 low_bytes ≡ "01ARYZ6S41041061050R3GHZZZ"
unfolding encode_ulid
ulid_text = refl

-- The first version of a record is in the table, and a client writes the second.
abbrev note : ℤ → RecordUpsertEvent
note version =
    new_record_upsert_event "s"
      (record {
        record_id = "message-1";
        record_version = version;
        kind = "message";
        status = "done";
        contents = some [];
        scope = empty_scope;
        updated_at = pos 5;
      })
      "" (pos 5)

abbrev first_note : Item
first_note =
    ("recordVersion", num (pos 1))
    ∷ ("eventId", str "message-1:v1")
    ∷ ("payloadHash", str "done")
    ∷ []

abbrev before_write : Table
before_write k = if eqb (first_code k.id) 114 then some first_note else none

options-NamesApart : NamesApart options
options-NamesApart = record {
  stream_version = refl;
  stream_event = refl;
  stream_hash = refl;
  time_version = refl;
  time_event = refl;
  time_hash = refl;
}

abbrev note_key : Key
note_key = record_key options plain "s" "message-1"

abbrev here : StreamRef
here = record {
  channel = "temporal-ai:live:s";
  redis_stream = "temporal-ai:stream:s";
  replay_attributes = ("streamId", str "s") ∷ [];
}

abbrev after_write : Table
after_write =
    write note_key (clean_map (record_item options plain here note_key (note (pos 2)) "done"))
      before_write

-- The client reads the first version and replaces it.
record_versions_grow_example : Grown (before_write note_key) (pos 1) (after_write note_key)
unfolding new_record_upsert_event upsert_record validate_event validate_accepted_preview_target
    put_current_record resolve ◌>>=◌ ◌>>◌ dynamo put_record_over int_field lookup write_record
    first_code record_event_id decimal
record_versions_grow_example =
    record_versions_grow options plain (dynamo "id") options-NamesApart {t = before_write}
      {t' = after_write}
      (Table.step [] []
        (Table.step [] [] (Table.start (Table.upsert (note (pos 2))) Table.idle) Table.got)
        (Table.put refl))
      "s" "message-1" (pos 1) refl

-- A client ends a stream whose end has a durable event already, and writes only the terminal item.
abbrev finish : StreamEndEvent
finish = new_stream_end_event "s" "completed" "" (pos 5)

abbrev kept_event : Item
kept_event = ("cursor", str "c1") ∷ ("eventHash", str "event") ∷ []

abbrev before_end : Table
before_end k = if eqb (first_code k.id) 101 then some kept_event else none

abbrev after_end : Table
after_end =
    write (terminal_key options "s")
      (clean_map (
        terminal_item options here (terminal_key options "s")
          (event_with_cursor (stream_end finish) "c1")))
      before_end

durable_events_stay_example :
    after_end (event_key options "s" "stream:s:end:completed") ≡ some kept_event
unfolding new_stream_end_event stream_end_event_id end_stream validate_event resolve ◌>>=◌ ◌>>◌
    dynamo persist_durable_event persist_event_over adopt_event stored_event_hash string_field
    lookup put_terminal put_terminal_item first_code
durable_events_stay_example =
    durable_events_stay options plain (dynamo "id") {t = before_end} {t' = after_end}
      (Table.step [] []
        (Table.step [] [] (Table.start (Table.end_of_stream finish) Table.idle) Table.got)
        (Table.put refl))
      "s" "stream:s:end:completed" kept_event refl

-- A client checkpoints a preview that stands at sequence 1.
abbrev checkpoint_two : PreviewSnapshotEvent
checkpoint_two = record {
  base = record {
    version = pos 2;
    type = "preview-snapshot";
    event_id = "preview:a:2:snapshot";
    cursor = "";
    stream_id = "s";
    occurred_at = pos 5;
  };
  ref = record {
    attempt_id = "a";
    target_record_id = "message-1";
    lane = "text";
    sequence = pos 2;
    scope = empty_scope;
  };
  snapshot = empty_snapshot;
}

abbrev active_preview : Item
active_preview = ("sequence", num (pos 1)) ∷ ("status", str "active") ∷ []

abbrev before_checkpoint : Table
before_checkpoint k = if eqb (first_code k.id) 112 then some active_preview else none

abbrev early : Time
early = record { unix = pos 1; unix_milli = pos 1000 }

abbrev after_checkpoint : Table
after_checkpoint =
    write (preview_key options "s" "a")
      (clean_map (
        preview_item options here (preview_key options "s" "a")
          (preview_write checkpoint_two.base checkpoint_two.ref "active" empty_snapshot) early))
      before_checkpoint

preview_sequences_advance_example :
    Advanced (pos 1) (after_checkpoint (preview_key options "s" "a"))
unfolding checkpoint_preview validate_event resolve ◌>>=◌ ◌>>◌ dynamo put_preview put_preview_over
    string_field int_field lookup first_code
preview_sequences_advance_example =
    preview_sequences_advance options plain (dynamo "id")
      (record { stream_apart = refl; time_apart = refl }) {t = before_checkpoint}
      {t' = after_checkpoint}
      (Table.step [] []
        (Table.step [] []
          (Table.step [] [] (Table.start (Table.snapshot checkpoint_two) Table.idle) Table.got)
          (Table.told_time early))
        (Table.put refl))
      "s" "a" (pos 1) refl
