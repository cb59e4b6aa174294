-- ===== src/Relay/Part.antt =====
-- What updates/relay.go reads of go-ai's StreamPart, and the relay's own Options and partMeta.
-- `finish_reason` is the part's FinishReason as `any`, with its Unified text beside it. `content` is
-- the part's Content after its way through JSON: `none` if it is nil or does not marshal.
use go_temporal_ai_sdk.Prelude.{ℤ, String, Bool, Option}
use go_temporal_ai_sdk.Updates.Types.{Value, Scope, Lane}

pub record StreamPart : Type 0 where
  pub type : String
  pub text_delta : String
  pub reasoning_delta : String
  pub tool_call_id : String
  pub tool_name : String
  pub tool_input : String
  pub tool_input_delta : String
  pub element : Option Value
  pub partial_output : Option Value
  pub finish_reason_unified : String
  pub finish_reason : Value
  pub content : Option Value
  pub step_id : String
  pub step_type : String
  pub step_number : ℤ

abbrev pub FailurePolicy : Type 0
FailurePolicy = String

abbrev pub failure_policy_strict : FailurePolicy
failure_policy_strict = "strict"

abbrev pub failure_policy_best_effort : FailurePolicy
failure_policy_best_effort = "best-effort"

pub record Options : Type 0 where
  pub visible : Bool
  pub stream_id : String
  pub target_record_id : String
  pub lane : Lane
  pub attempt_id : String
  pub snapshot_every_chunks : ℤ
  pub snapshot_every_characters : ℤ
  pub failure_policy : FailurePolicy
  pub scope : Scope

pub record PartMeta : Type 0 where
  pub tool_call_id : String
  pub delta : String
  pub input : Option Value
  pub element : Option Value
  pub object : Option Value
  pub has_object : Bool
  pub scope : Scope
  pub emit : Bool
