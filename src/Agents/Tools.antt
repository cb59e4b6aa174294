-- ===== src/Agents/Tools.antt =====
-- The tools of an agent (temporalai/agent.go): one tool call from its record to its result.
use go_temporal_ai_sdk.Prelude.{
  ℕ, ℤ, pos, String, Bool, true, false, ◌&&◌, Option, none, some, List, [], ◌∷◌, ◌++◌, ◌==◌, join,
  if◌then◌else◌,
}
use go_temporal_ai_sdk.Updates.Types.{str, bool, WorkflowRecord, record_kind_tool}
use go_temporal_ai_sdk.Agents.Types.{
  AgentInput, AgentToolCall, InvokeToolArgs, InvokeToolResult, ToolApprovalState,
  ToolApprovalRequest, ToolApprovalResponse, ToolArtifactPolicy, ToolDefinition,
  ToolExecutionBoundary, Message, Metadata,
}
use go_temporal_ai_sdk.Agents.Flow
use go_temporal_ai_sdk.Agents.Flow.{
  Flow, done, fail, call, ask, give, attempt, Failure, Answer, ok, err, ◌>>=◌, ◌>>◌,
}
use go_temporal_ai_sdk.Agents.Values.{Library, any_value, unless_empty}
use go_temporal_ai_sdk.Agents.Records.{
  write_record, update_stream_id, agent_tool_scope, tool_record_metadata, merge_approval_metadata,
}
use go_temporal_ai_sdk.Agents.Approval.{request_tool_approval, tool_approval_state}
use go_temporal_ai_sdk.Agents.Definitions.{
  agent_tool_definition, tool_execution_boundary, boundary_activity, boundary_local_activity,
}

abbrev pub fallback_activity : String
fallback_activity = "activity"

unfoldable pub result_status : InvokeToolResult → String
result_status r =
    if r.output.type == "execution-denied"
    then "denied"
    else if r.is_error
    then "failed"
    else "succeeded"

abbrev pub tool_status : Option InvokeToolResult → String
tool_status none = "running"
tool_status (some r) = result_status r

abbrev pub denied_agent_tool_result : AgentToolCall → String → InvokeToolResult
denied_agent_tool_result c reason = record {
  tool_call_id = c.tool_call_id;
  tool_name = c.tool_name;
  input = c.input;
  output = record { type = "execution-denied"; value = none; reason = reason };
  result = none;
  is_error = false;
  dynamic = c.dynamic;
  provider_executed = false;
  preliminary = false;
  tool_metadata = c.tool_metadata;
  provider_metadata = c.provider_metadata;
}

-- The result that is recorded for an activity's error.
abbrev pub failed_result : AgentToolCall → Failure → InvokeToolResult
failed_result c e = record {
  tool_call_id = c.tool_call_id;
  tool_name = c.tool_name;
  input = c.input;
  output = record { type = "error-text"; value = some (str e.message); reason = "" };
  result = none;
  is_error = true;
  dynamic = false;
  provider_executed = false;
  preliminary = false;
  tool_metadata = [];
  provider_metadata = [];
}

abbrev pub policy_for_activity : ToolArtifactPolicy → Option ToolArtifactPolicy
policy_for_activity policy = if policy.enabled then some policy else none

-- What a tool runs with: no approval asked for, or one that was given; or the result of a denial.
pub data Approved : Type 0 where
  go_ahead : Option ToolApprovalState → Approved
  denied : InvokeToolResult → Approved

module _ (lib : Library) where
  abbrev result_data : Option InvokeToolResult → Metadata
  result_data none = []
  result_data (some r) =
      ("output", lib.output_json r.output)
      ∷ ("result", any_value r.result)
      ∷ ("preliminary", bool r.preliminary)
      ∷ []

  unfoldable pub agent_tool_record :
      AgentInput → AgentToolCall → Option InvokeToolResult → ℤ → WorkflowRecord
  unfolding result_status
  agent_tool_record input c result version = record {
    record_id = join ("tool:" ∷ c.tool_call_id ∷ []);
    record_version = version;
    kind = record_kind_tool;
    status = tool_status result;
    contents = some (
        ("toolCallId", str c.tool_call_id)
          ∷ ("toolName", str c.tool_name)
          ∷ ("input", any_value c.input)
          ∷ ("dynamic", bool c.dynamic)
          ∷ ("providerExecuted", bool c.provider_executed)
          ∷ unless_empty "toolMetadata" c.tool_metadata
        ++ unless_empty "providerMetadata" c.provider_metadata
        ++ result_data result);
    scope = agent_tool_scope input c;
    updated_at = pos 0;
  }

  unfoldable pub write_agent_tool_record :
      AgentInput → AgentToolCall → Option InvokeToolResult → ℤ → String → Flow (Unit {0})
  unfolding update_stream_id write_record agent_tool_record ◌>>=◌
  write_agent_tool_record input c result version accepted_attempt_id =
      update_stream_id input >>= λ stream_id.
      write_record stream_id (agent_tool_record input c result version) accepted_attempt_id

  -- `if writeRecords { ... }`
  abbrev pub when_recording : Bool → Flow (Unit {0}) → Flow (Unit {0})
  when_recording write_records m = if write_records then m else done tt

  module _ (input : AgentInput) (c : AgentToolCall) where
    abbrev pub approval_request : String → ToolApprovalRequest
    approval_request stream_id = record {
      stream_id = stream_id;
      approval_id = join (c.tool_call_id ∷ ":approval" ∷ []);
      tool_call_id = c.tool_call_id;
      tool_name = c.tool_name;
      input = c.input;
      tool_metadata = c.tool_metadata;
      metadata = merge_approval_metadata (tool_record_metadata input) input.tool_approval.metadata;
      timeout = input.tool_approval.timeout;
      signal_name = input.tool_approval.signal_name;
      scope = agent_tool_scope input c;
    }

    abbrev pub decided : ToolApprovalResponse → Approved
    decided r =
        if r.approved
        then go_ahead (some (tool_approval_state r))
        else denied (denied_agent_tool_result c r.reason)

    abbrev pub needs_approval : Option ToolDefinition → Bool
    needs_approval none = false
    needs_approval (some d) = d.requires_approval

    -- approveAgentToolIfRequired for a tool that requires approval.
    unfoldable pub approve_agent_tool : ℕ → Bool → Flow Approved
    unfolding update_stream_id request_tool_approval ◌>>=◌
    approve_agent_tool rounds write_records = do
      stream_id ← update_stream_id input
      r ← request_tool_approval rounds (approval_request stream_id) write_records
      done (decided r)

    unfoldable pub approve_agent_tool_if_required : ℕ → Bool → Flow Approved
    unfolding approve_agent_tool
    approve_agent_tool_if_required rounds write_records =
        if needs_approval (agent_tool_definition input c.tool_name)
        then approve_agent_tool rounds write_records
        else done (go_ahead none)

    abbrev pub tool_args : List Message → Option ToolApprovalState → InvokeToolArgs
    tool_args messages approval = record {
      tool_call_id = c.tool_call_id;
      tool_name = c.tool_name;
      input = c.input;
      messages = messages;
      context = input.tool_context;
      tool_metadata = c.tool_metadata;
      scope = agent_tool_scope input c;
      artifacts = policy_for_activity input.tool_artifacts;
      approval = approval;
    }

    abbrev pub local_tool_timeout_fallback : String
    local_tool_timeout_fallback =
        if input.local_tool_timeout_fallback == ""
        then fallback_activity
        else input.local_tool_timeout_fallback

    abbrev pub should_fallback : ToolExecutionBoundary → Failure → Bool
    should_fallback boundary e =
        boundary == boundary_local_activity
        && local_tool_timeout_fallback == fallback_activity
        && e.is_timeout

    -- agentToolResultFromFuture, for what the future gives.
    unfoldable pub tool_answered :
        ToolExecutionBoundary → InvokeToolArgs → Answer InvokeToolResult → Flow InvokeToolResult
    tool_answered boundary args (ok r) = done r
    tool_answered boundary args (err e) =
        if should_fallback boundary e
        then call (Flow.invoke_tool boundary_activity args) give
        else fail e

    -- executeAgentToolFuture and agentToolResultFromFuture.
    unfoldable pub run_agent_tool : List Message → Option ToolApprovalState → Flow InvokeToolResult
    unfolding tool_answered tool_execution_boundary
    run_agent_tool messages approval =
        let args = tool_args messages approval in
        let boundary = tool_execution_boundary input c.tool_name in
        call
          (Flow.invoke_tool
            (if boundary == boundary_local_activity
              then boundary_local_activity
              else boundary_activity)
            args)
          (tool_answered boundary args)

    -- The end of executeOneAgentTool, for what the tool gave.
    unfoldable pub record_outcome : Bool → Answer InvokeToolResult → Flow InvokeToolResult
    unfolding write_agent_tool_record attempt ◌>>=◌ ◌>>◌
    record_outcome write_records (ok r) =
        when_recording write_records (write_agent_tool_record input c (some r) (pos 2) "") >> done r
    record_outcome write_records (err e) =
        attempt (
          when_recording write_records
            (write_agent_tool_record input c (some (failed_result c e)) (pos 2) ""))
        >> fail e

    unfoldable pub after_approval : Bool → List Message → Approved → Flow InvokeToolResult
    unfolding write_agent_tool_record run_agent_tool record_outcome attempt ◌>>=◌ ◌>>◌
    after_approval write_records messages (denied r) =
        when_recording write_records (write_agent_tool_record input c (some r) (pos 2) "") >> done r
    after_approval write_records messages (go_ahead approval) =
        attempt (run_agent_tool messages approval) >>= record_outcome write_records

    -- executeOneAgentTool for a call that the subagents leave to it.
    unfoldable pub execute_own_tool : ℕ → Bool → List Message → Flow InvokeToolResult
    unfolding write_agent_tool_record approve_agent_tool_if_required after_approval ◌>>=◌ ◌>>◌
    execute_own_tool rounds write_records messages =
        when_recording write_records
          (write_agent_tool_record input c none (pos 1) c.accepted_attempt_id)
        >> (approve_agent_tool_if_required rounds write_records
            >>= after_approval write_records messages)

    unfoldable pub subagents_answered :
        ℕ → Bool → List Message → Option (Answer InvokeToolResult) → Flow InvokeToolResult
    unfolding execute_own_tool
    subagents_answered rounds write_records messages (some answer) = give answer
    subagents_answered rounds write_records messages none =
        execute_own_tool rounds write_records messages

    -- A nil manager, for an agent without subagents, handles nothing.
    abbrev pub consult_subagents : List ToolDefinition → Flow (Option (Answer InvokeToolResult))
    consult_subagents [] = done none
    consult_subagents (s ∷ rest) = ask (Flow.ask_subagents c)

    unfoldable pub execute_one_agent_tool : ℕ → Bool → List Message → Flow InvokeToolResult
    unfolding subagents_answered ◌>>=◌
    execute_one_agent_tool rounds write_records messages =
        consult_subagents input.subagents >>= subagents_answered rounds write_records messages
