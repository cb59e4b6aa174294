-- ===== src/Updates/Validation.antt =====
-- ValidateEvent and its helpers (updates/types.go): `none` is success. A pointer to an event and the
-- event itself are handled alike by the source, so one constructor stands for both; a nil event and
-- a type from outside the package cannot be written here.
use go_temporal_ai_sdk.Prelude.{
  ℤ, pos, String, Bool, true, false, not, ◌&&◌, ◌||◌, Option, none, some, List, ◌==◌, lookup, ltb_ℤ,
  is_negative, if◌then◌else◌,
}
use go_temporal_ai_sdk.Updates.Types.{
  Value, str, Scope, BaseEvent, PreviewRef, WorkflowRecord, UpdateEvent, EventType, PreviewOutcome,
  StreamOutcome, preview_begin, preview_chunk, preview_snapshot, preview_end, record_upsert,
  stream_end, event_base, protocol_version, lane_text, lane_reasoning, lane_object, lane_tool_input,
  event_type_preview_begin, event_type_preview_chunk, event_type_preview_snapshot,
  event_type_preview_end, event_type_record_upsert, event_type_stream_end, record_kind_message,
  record_kind_tool, record_kind_interaction, record_kind_task, record_kind_subagent,
  preview_outcome_succeeded, preview_outcome_failed, preview_outcome_canceled,
  stream_outcome_completed, stream_outcome_failed, stream_outcome_canceled,
}
use go_temporal_ai_sdk.Updates.Errors.{Err, InvalidReason, invalid_event}

-- `!=` on integers.
abbrev differs : ℤ → ℤ → Bool
differs a b = ltb_ℤ a b || ltb_ℤ b a

abbrev pub negative_step : Option ℤ → Bool
negative_step none = false
negative_step (some n) = is_negative n

unfoldable pub validate_scope : Scope → Option Err
validate_scope s =
    if negative_step s.step_number then some (invalid_event InvalidReason.step_number) else none

-- `switch ref.Lane`
abbrev pub is_lane : String → Bool
is_lane l = l == lane_text || l == lane_reasoning || l == lane_object || l == lane_tool_input

unfoldable pub validate_preview : PreviewRef → Option Err
unfolding validate_scope
validate_preview ref =
    if ref.attempt_id == "" || ref.target_record_id == "" || is_negative ref.sequence
    then some (invalid_event InvalidReason.preview_identity)
    else if is_lane ref.lane
    then validate_scope ref.scope
    else some (invalid_event (InvalidReason.preview_lane ref.lane))

-- `kind, _ := chunk["type"].(string)`
abbrev pub text_of : Option Value → String
text_of none = ""
text_of (some (str s)) = s
text_of (some _) = ""

-- `if err := e; err != nil { return err }`
infixl 5 ◌or_else◌
abbrev ◌or_else◌ : Option Err → Option Err → Option Err
none or_else next = next
some e or_else next = some e

unfoldable pub validate_preview_chunk : PreviewRef → List (String × Value) → Option Err
unfolding validate_preview
validate_preview_chunk ref chunk =
    validate_preview ref
    or_else (if text_of (lookup "type" chunk) == ""
        then some (invalid_event InvalidReason.chunk_type)
        else none)

unfoldable pub validate_preview_end : PreviewRef → PreviewOutcome → Option Err
unfolding validate_preview
validate_preview_end ref outcome =
    validate_preview ref
    or_else (if not (outcome == preview_outcome_succeeded)
          && not (outcome == preview_outcome_failed)
          && not (outcome == preview_outcome_canceled)
        then some (invalid_event InvalidReason.preview_outcome)
        else none)

abbrev is_nil {ℓ} : {A : Type ℓ} → Option A → Bool
is_nil none = true
is_nil (some _) = false

-- `switch record.Kind`
abbrev pub is_record_kind : String → Bool
is_record_kind k =
    k == record_kind_message
    || k == record_kind_tool
    || k == record_kind_interaction
    || k == record_kind_task
    || k == record_kind_subagent

unfoldable pub validate_record : WorkflowRecord → Option Err
unfolding validate_scope
validate_record r =
    if r.record_id == ""
      || ltb_ℤ r.record_version (pos 1)
      || r.kind == ""
      || r.status == ""
      || is_nil r.contents
      || is_negative r.updated_at
    then some (invalid_event InvalidReason.bad_record)
    else if is_record_kind r.kind
    then validate_scope r.scope
    else some (invalid_event (InvalidReason.record_kind r.kind))

unfoldable pub validate_stream_outcome : StreamOutcome → Option Err
validate_stream_outcome outcome =
    if not (outcome == stream_outcome_completed)
      && not (outcome == stream_outcome_failed)
      && not (outcome == stream_outcome_canceled)
    then some (invalid_event InvalidReason.stream_outcome)
    else none

-- The guard of each case: the type field names the concrete event.
abbrev expecting : EventType → EventType → Option Err → Option Err
expecting got want rest =
    if got == want then rest else some (invalid_event (InvalidReason.type_mismatch got want))

validate_concrete : UpdateEvent → Option Err
unfolding validate_preview validate_preview_chunk validate_preview_end validate_record
    validate_stream_outcome
validate_concrete (preview_begin e) =
    expecting e.base.type event_type_preview_begin (validate_preview e.ref)
validate_concrete (preview_chunk e) =
    expecting e.base.type event_type_preview_chunk (validate_preview_chunk e.ref e.chunk)
validate_concrete (preview_snapshot e) =
    expecting e.base.type event_type_preview_snapshot (validate_preview e.ref)
validate_concrete (preview_end e) =
    expecting e.base.type event_type_preview_end (validate_preview_end e.ref e.outcome)
validate_concrete (record_upsert e) =
    expecting e.base.type event_type_record_upsert (validate_record e.upserted)
validate_concrete (stream_end e) =
    expecting e.base.type event_type_stream_end (validate_stream_outcome e.outcome)

invalid_base : BaseEvent → Bool
invalid_base base =
    differs base.version protocol_version
    || base.event_id == ""
    || base.stream_id == ""
    || is_negative base.occurred_at

unfoldable pub validate_event : UpdateEvent → Option Err
unfolding invalid_base validate_concrete
validate_event event =
    if invalid_base (event_base event)
    then some (invalid_event InvalidReason.base_fields)
    else validate_concrete event
