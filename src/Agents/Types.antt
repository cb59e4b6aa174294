-- ===== src/Agents/Types.antt =====
-- The data of temporalai (agent.go, approval.go, subagent.go) and of the activities that it calls
-- (activities/types.go, activities/wire.go): of each struct the fields that the workflows read or set.
-- `any` is a JSON value with `none` for nil, a map a list of pairs, and the opaque types of go-ai
-- (Usage, Warning, ResponseMetadata) are their JSON.
use go_temporal_ai_sdk.Prelude.{ℤ, String, Bool, Option, List}
use go_temporal_ai_sdk.Updates.Types.{Value, Scope, PreviewReceipt}
use go_temporal_ai_sdk.Relay.Part as RelayPart
use go_temporal_ai_sdk.Relay.Part.{StreamPart}

abbrev pub Metadata : Type 0
Metadata = List (String × Value)

pub record ToolResultOutput : Type 0 where
  pub type : String
  pub value : Option Value
  pub reason : String

pub record Part : Type 0 where
  pub type : String
  pub text : String
  pub tool_call_id : String
  pub tool_name : String
  pub input : Option Value
  pub input_raw : String
  pub output : Option ToolResultOutput
  pub result : Option Value
  pub is_error : Bool
  pub provider_executed : Bool
  pub dynamic : Bool
  pub invalid : Bool
  pub error_text : String
  pub preliminary : Bool
  pub tool_metadata : Metadata
  pub provider_metadata : Metadata

pub record Message : Type 0 where
  pub role : String
  pub content : List Part
  pub text : String

pub record FinishReason : Type 0 where
  pub unified : String
  pub raw : String

pub record ToolChoice : Type 0 where
  pub type : String
  pub tool_name : String

abbrev pub ToolExecutionBoundary : Type 0
ToolExecutionBoundary = String

pub record ToolDefinition : Type 0 where
  pub name : String
  pub description : String
  pub input_schema : Option Value
  pub type : String
  pub id : String
  pub args : Option Value
  pub requires_approval : Bool
  pub execution_boundary : ToolExecutionBoundary
  pub tool_metadata : Metadata

pub record ModelTool : Type 0 where
  pub type : String
  pub name : String
  pub description : String
  pub input_schema : Option Value
  pub id : String
  pub args : Option Value
  pub tool_metadata : Metadata

-- LanguageModelCallOptions; `settings` are the options that the agent passes on as they are, and
-- `stream` is what stands under activities.ProviderOptionsKey.
pub record CallOptions : Type 0 where
  pub prompt : List Message
  pub tools : List ModelTool
  pub tool_choice : ToolChoice
  pub settings : Metadata
  pub stream : Option RelayPart.Options

pub record GenerateResult : Type 0 where
  pub content : List Part
  pub finish_reason : FinishReason
  pub usage : Value
  pub warnings : List Value
  pub provider_metadata : Metadata
  pub request : Option Value
  pub response : Option Value
  pub preview_receipts : List PreviewReceipt

-- A part of a stream, with what the relay does not read of it; `carried` is its content as a Part.
pub record StreamedPart : Type 0 where
  pub part : StreamPart
  pub finish_reason : FinishReason
  pub usage : Value
  pub warnings : List Value
  pub tool_metadata : Metadata
  pub provider_metadata : Metadata
  pub carried : Option Part

pub record StreamResult : Type 0 where
  pub result : Option GenerateResult
  pub stream_parts : List StreamedPart
  pub request : Option Value
  pub response : Option Value
  pub preview_receipts : List PreviewReceipt

pub record ToolApprovalState : Type 0 where
  pub approval_id : String
  pub approved : Option Bool
  pub reason : String

pub record ToolArtifactPolicy : Type 0 where
  pub enabled : Bool
  pub max_inline_bytes : ℤ
  pub max_preview_bytes : ℤ
  pub workflow_id : String
  pub run_id : String
  pub store_inputs : Option Bool
  pub store_outputs : Option Bool
  pub store_errors : Option Bool

pub record InvokeToolArgs : Type 0 where
  pub tool_call_id : String
  pub tool_name : String
  pub input : Option Value
  pub messages : List Message
  pub context : Option Value
  pub tool_metadata : Metadata
  pub scope : Scope
  pub artifacts : Option ToolArtifactPolicy
  pub approval : Option ToolApprovalState

pub record InvokeToolResult : Type 0 where
  pub tool_call_id : String
  pub tool_name : String
  pub input : Option Value
  pub output : ToolResultOutput
  pub result : Option Value
  pub is_error : Bool
  pub dynamic : Bool
  pub provider_executed : Bool
  pub preliminary : Bool
  pub tool_metadata : Metadata
  pub provider_metadata : Metadata

pub record AgentToolCall : Type 0 where
  pub tool_call_id : String
  pub tool_name : String
  pub step_id : String
  pub step_number : ℤ
  pub step_type : String
  pub input : Option Value
  pub input_raw : String
  pub provider_executed : Bool
  pub dynamic : Bool
  pub invalid : Bool
  pub error_text : String
  pub tool_metadata : Metadata
  pub provider_metadata : Metadata
  pub accepted_attempt_id : String

pub record AgentStep : Type 0 where
  pub step_id : String
  pub step_number : ℤ
  pub step_type : String
  pub model_result : GenerateResult
  pub text : String
  pub tool_calls : List AgentToolCall
  pub tool_results : List InvokeToolResult

pub record AgentResult : Type 0 where
  pub agent_id : String
  pub model_id : String
  pub text : String
  pub finish_reason : String
  pub raw_finish_reason : String
  pub usage : Value
  pub warnings : List Value
  pub provider_metadata : Metadata
  pub messages : List Message
  pub steps : List AgentStep

pub record AgentToolApprovalOptions : Type 0 where
  pub signal_name : String
  pub timeout : ℤ
  pub metadata : Metadata

pub record SubagentExecutionContext : Type 0 where
  pub subagent_id : String
  pub tool_call_id : String
  pub tool_name : String
  pub parent_workflow_id : String
  pub parent_run_id : String

-- Of the subagents an agent's own loop reads the tools.
pub record AgentInput : Type 0 where
  pub agent_id : String
  pub model_id : String
  pub instructions : String
  pub prompt : String
  pub messages : List Message
  pub tools : List ToolDefinition
  pub tool_choice : ToolChoice
  pub first_tool_choice : ToolChoice
  pub max_steps : ℤ
  pub model_options : CallOptions
  pub stream : RelayPart.Options
  pub use_streaming_model : Bool
  pub tool_context : Option Value
  pub tool_execution : String
  pub tool_approval : AgentToolApprovalOptions
  pub default_tool_boundary : ToolExecutionBoundary
  pub local_tool_timeout_fallback : String
  pub tool_artifacts : ToolArtifactPolicy
  pub subagents : List ToolDefinition
  pub subagent_execution : Option SubagentExecutionContext

pub record SubagentToolCallSnapshot : Type 0 where
  pub tool_call_id : String
  pub tool_name : String

-- A time is in milliseconds, with `none` for the zero time.
pub record SubagentSnapshot : Type 0 where
  pub subagent_id : String
  pub tool_call_id : String
  pub tool_name : String
  pub workflow_id : String
  pub run_id : String
  pub status : String
  pub sequence : ℤ
  pub step_number : ℤ
  pub step_type : String
  pub text : String
  pub tool_calls : List SubagentToolCallSnapshot
  pub finish_reason : String
  pub error : String
  pub updated_at : Option ℤ

pub record ToolApprovalRequest : Type 0 where
  pub stream_id : String
  pub approval_id : String
  pub tool_call_id : String
  pub tool_name : String
  pub input : Option Value
  pub tool_metadata : Metadata
  pub metadata : Metadata
  pub timeout : ℤ
  pub signal_name : String
  pub scope : Scope

pub record ToolApprovalResponse : Type 0 where
  pub approval_id : String
  pub tool_call_id : String
  pub approved : Bool
  pub reason : String
  pub timed_out : Bool
  pub canceled : Bool
