-- ===== src/Tests/Fixtures.antt =====
-- The inputs of the tests: a connector that records the events it is given, a clock that stands
-- still, and parts of a model's answer.
use go_temporal_ai_sdk.Prelude.{pos, String, ◌≡◌, refl, true, none, some, List, ◌∷◌, All}
use go_temporal_ai_sdk.Updates.Types.{
  null, UpdateEvent, preview_begin, preview_snapshot, preview_end, record_upsert, stream_end,
}
use go_temporal_ai_sdk.Updates.Validation.{validate_event}
use go_temporal_ai_sdk.Updates.Connector.{Connector}
use go_temporal_ai_sdk.Relay.Part.{Options, StreamPart}
use go_temporal_ai_sdk.Relay.Classify.{empty_scope}
use go_temporal_ai_sdk.Relay.State.{Relay, Clock, new_relay}
use go_temporal_ai_sdk.Relay.Delivery.{Respects, Ticks}

abbrev pub Log : Type 0
Log = List UpdateEvent

abbrev pub recording : Connector Log
recording = record {
  previews = record {
    begin_preview = λ e log. (none, preview_begin e ∷ log);
    checkpoint_preview = λ e log. (none, preview_snapshot e ∷ log);
    end_preview = λ e log. (none, preview_end e ∷ log);
  };
  records = record {
    upsert_record = λ e log. (none, record_upsert e ∷ log);
    end_stream = λ e log. (none, stream_end e ∷ log);
  };
  publish_update = λ e log. (none, e ∷ log);
}

abbrev pub noon : Clock Log
noon log = (pos 1200, log)

abbrev pub AllValid : Log → Type 0
AllValid log = All (λ e. validate_event e ≡ none) log

pub recording-Respects : Respects AllValid recording
recording-Respects = record {
  begins = λ e w v j. (v, j);
  checkpoints = λ e w v j. (v, j);
  ends = λ e w v j. (v, j);
  publishes = λ e w v j. (v, j);
}

pub noon-Ticks : Ticks AllValid noon
noon-Ticks = record { keeps = λ w j. j; after_epoch = λ w. refl }

abbrev pub chat : Options
chat = record {
  visible = true;
  stream_id = "conversation-1";
  target_record_id = "";
  lane = "text";
  attempt_id = "turn-7:1";
  snapshot_every_chunks = pos 2;
  snapshot_every_characters = pos 100;
  failure_policy = "best-effort";
  scope = empty_scope;
}

abbrev pub relay : Relay Log
relay = new_relay noon (some recording) chat none

-- A part of which nothing but the type is set.
abbrev pub bare : String → StreamPart
bare t = record {
  type = t;
  text_delta = "";
  reasoning_delta = "";
  tool_call_id = "";
  tool_name = "";
  tool_input = "";
  tool_input_delta = "";
  element = none;
  partial_output = none;
  finish_reason_unified = "";
  finish_reason = null;
  content = none;
  step_id = "";
  step_type = "";
  step_number = pos 0;
}

abbrev pub hello : StreamPart
hello = record (bare "text-delta") { text_delta = "hello" }
