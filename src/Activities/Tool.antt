-- ===== src/Activities/Tool.antt =====
-- InvokeTool of activities/tool.go: a tool is looked up, approved and executed, and its result compacted.
pub mod Result
use go_temporal_ai_sdk.Prelude.{
  ℤ, pos, String, Bool, true, false, not, ◌&&◌, ◌||◌, Option, none, some, List, [], ◌∷◌, ◌++◌, ◌==◌,
  join, lookup, insert, if◌then◌else◌,
}
use go_temporal_ai_sdk.Updates.Types.{Value, Fields, str, num, obj, Scope}
use go_temporal_ai_sdk.Agents.Types.{
  InvokeToolArgs, InvokeToolResult, ToolApprovalState, ToolResultOutput, Metadata,
}
use go_temporal_ai_sdk.Agents.Flow.{Failure, error, Answer, ok, err}
use go_temporal_ai_sdk.Agents.Values.{object}
use go_temporal_ai_sdk.Agents.Records.{insert_entries}
use go_temporal_ai_sdk.Activities.Act as Act
use go_temporal_ai_sdk.Activities.Act.{Act, ToolCall, Decision, Output, done, fail, call}
use go_temporal_ai_sdk.Activities.Artifacts.{Encoding, compact_tool_artifacts}

-- Of an ai.Tool what InvokeTool reads: whether it has a rule for approval, and a function.
pub record Tool : Type 0 where
  pub type : String
  pub tool_metadata : Metadata
  pub provider_metadata : Metadata
  pub requires_approval : Bool
  pub needs_approval : Bool
  pub executable : Bool

-- The registered tools, and ValidateToolInput, ValidateToolOutput and CreateToolModelOutput of go-ai.
pub record Toolbox : Type 0 where
  pub find : String → Option Tool
  pub validate_input : Tool → Option Value → Option Failure
  pub validate_output : Tool → Option Value → Option Failure
  pub model_output : Tool → String → Option Value → Option Value → Bool → Answer ToolResultOutput
  pub quote : String → String

-- mergeProviderMetadata; a nil map is an empty one.
abbrev pub merge_provider_metadata : Metadata → Metadata → Metadata
merge_provider_metadata base override = insert_entries override base

abbrev pub entries : Fields → Metadata
entries Fields.end = []
entries (Fields.field k v rest) = (k, v) ∷ entries rest

abbrev text_entry : String → String → Metadata
text_entry key s = if s == "" then [] else (key, str s) ∷ []

abbrev number_entry : Option ℤ → Metadata
number_entry none = []
number_entry (some n) = ("stepNumber", num n) ∷ []

abbrev pub scope_entries : Scope → Metadata
scope_entries s =
    text_entry "displayMode" s.display_mode
    ++ text_entry "agentId" s.agent_id
    ++ text_entry "taskId" s.task_id
    ++ text_entry "taskTitle" s.task_title
    ++ text_entry "skillName" s.skill_name
    ++ text_entry "stepId" s.step_id
    ++ number_entry s.step_number
    ++ text_entry "stepType" s.step_type

abbrev context_entries : Option Value → Metadata
context_entries (some (obj fields)) = entries fields
context_entries context = []

abbrev merged_context : Option Value → Metadata → Option Value
merged_context context [] = context
merged_context context (e ∷ rest) =
    some (object (insert_entries (e ∷ rest) (context_entries context)))

-- contextWithScope: a context that is no object is replaced by the scope's fields.
unfoldable pub context_with_scope : Option Value → Scope → Option Value
context_with_scope context scope = merged_context context (scope_entries scope)

abbrev pub is_dynamic : Tool → Bool
is_dynamic t = t.type == "dynamic"

abbrev pub call_for : InvokeToolArgs → Tool → ToolCall
call_for args t = record {
  tool_call_id = args.tool_call_id;
  tool_name = args.tool_name;
  input = args.input;
  dynamic = is_dynamic t;
  tool_metadata = merge_provider_metadata t.tool_metadata args.tool_metadata;
  provider_metadata = t.provider_metadata;
}

abbrev pub denied_tool_result : InvokeToolArgs → ToolCall → String → InvokeToolResult
denied_tool_result args c reason = record {
  tool_call_id = args.tool_call_id;
  tool_name = args.tool_name;
  input = args.input;
  output = record { type = "execution-denied"; value = none; reason = reason };
  result = none;
  is_error = false;
  dynamic = c.dynamic;
  provider_executed = false;
  preliminary = false;
  tool_metadata = c.tool_metadata;
  provider_metadata = c.provider_metadata;
}

abbrev pub tool_error_result : InvokeToolArgs → Failure → Metadata → Metadata → InvokeToolResult
tool_error_result args e metadata tool_metadata = record {
  tool_call_id = args.tool_call_id;
  tool_name = args.tool_name;
  input = args.input;
  output = record { type = "error-text"; value = some (str e.message); reason = "" };
  result = none;
  is_error = true;
  dynamic = false;
  provider_executed = false;
  preliminary = false;
  tool_metadata = tool_metadata;
  provider_metadata = metadata;
}

abbrev pub is_approved : Option Bool → Bool
is_approved none = false
is_approved (some b) = b

module _ (toolbox : Toolbox) (encoding : Encoding) (has_store : Bool) (args : InvokeToolArgs) where
  -- finishToolResult
  unfoldable pub finish : InvokeToolResult → Act InvokeToolResult
  unfolding compact_tool_artifacts
  finish r = compact_tool_artifacts encoding has_store args r

  abbrev pub finish_error : ToolCall → Failure → Act InvokeToolResult
  finish_error c e = finish (tool_error_result args e c.provider_metadata c.tool_metadata)

  abbrev pub finish_denied : ToolCall → String → Act InvokeToolResult
  finish_denied c reason = finish (denied_tool_result args c reason)

  abbrev error_output : Failure → ToolResultOutput
  error_output e = record { type = "error-text"; value = some (str e.message); reason = "" }

  abbrev pub result_with : ToolCall → Option Value → Bool → ToolResultOutput → InvokeToolResult
  result_with c output is_error model_output = record {
    tool_call_id = args.tool_call_id;
    tool_name = args.tool_name;
    input = args.input;
    output = model_output;
    result = output;
    is_error = is_error;
    dynamic = c.dynamic;
    provider_executed = false;
    preliminary = false;
    tool_metadata = c.tool_metadata;
    provider_metadata = c.provider_metadata;
  }

  abbrev pub modelled : ToolCall → Option Value → Bool → Answer ToolResultOutput → InvokeToolResult
  modelled c output is_error (ok o) = result_with c output is_error o
  modelled c output is_error (err e) = result_with c output true (error_output e)

  abbrev pub executed_with : Tool → ToolCall → Option Value → Option Failure → InvokeToolResult
  executed_with t c output none =
      modelled c output false (toolbox.model_output t args.tool_call_id args.input output false)
  executed_with t c output (some e) =
      modelled c output true
        (toolbox.model_output t args.tool_call_id args.input (some (str e.message)) true)

  abbrev pub output_error : Tool → Output → Option Failure
  output_error t o = elim o.error [ none ↦ toolbox.validate_output t o.output | some e ↦ some e ]

  unfoldable pub executed : Tool → ToolCall → Output → Act InvokeToolResult
  unfolding finish
  executed t c o = finish (executed_with t c o.output (output_error t o))

  unfoldable pub execute_tool : Tool → ToolCall → Act InvokeToolResult
  unfolding executed finish context_with_scope
  execute_tool t c =
      if t.executable
      then call (Act.execute c (context_with_scope args.context args.scope)) (executed t c)
      else finish_error c
          (error (join ("tool " ∷ toolbox.quote args.tool_name ∷ " has no execute function" ∷ [])))

  -- The decision of a rule beside a person's approval.
  unfoldable pub decided_beside : Tool → ToolCall → Answer Decision → Act InvokeToolResult
  unfolding execute_tool finish
  decided_beside t c (err e) = finish_error c e
  decided_beside t c (ok d) = if d.denied then finish_denied c d.reason else execute_tool t c

  unfoldable pub decided_alone : Tool → ToolCall → Answer Decision → Act InvokeToolResult
  unfolding execute_tool finish
  decided_alone t c (err e) = finish_error c e
  decided_alone t c (ok d) = if d.blocks then finish_denied c d.reason else execute_tool t c

  unfoldable pub approve_tool : Tool → ToolCall → Option ToolApprovalState → Act InvokeToolResult
  unfolding decided_beside decided_alone execute_tool finish
  approve_tool t c (some a) =
      if not (is_approved a.approved)
      then finish_denied c a.reason
      else if t.needs_approval
      then call (Act.resolve_approval c) (decided_beside t c)
      else execute_tool t c
  approve_tool t c none =
      if t.requires_approval || t.needs_approval
      then call (Act.resolve_approval c) (decided_alone t c)
      else execute_tool t c

  abbrev pub validated : Tool → ToolCall → Option Failure → Act InvokeToolResult
  validated t c (some e) = finish_error c e
  validated t c none = approve_tool t c args.approval

  abbrev pub found : Option Tool → Act InvokeToolResult
  found none = finish (
      tool_error_result args
        (error (join ("tool " ∷ toolbox.quote args.tool_name ∷ " is not registered" ∷ []))) []
        args.tool_metadata)
  found (some t) = validated t (call_for args t) (toolbox.validate_input t args.input)

  unfoldable pub invoke_tool : Act InvokeToolResult
  unfolding approve_tool finish
  invoke_tool =
      if args.tool_call_id == ""
      then fail (error "toolCallId is required")
      else if args.tool_name == ""
      then fail (error "toolName is required")
      else found (toolbox.find args.tool_name)
