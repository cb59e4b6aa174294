-- ===== src/Agents/Progress.antt =====
-- What an agent tells its parent and its stream (temporalai/subagent.go and agent.go): progress,
-- messages from the parent, and the records of messages.
use go_temporal_ai_sdk.Prelude.{
  Option, ℕ, zero, suc, ℤ, pos, String, Bool, true, false, not, ◌&&◌, ◌||◌, none, some, List, [],
  ◌∷◌, ◌++◌, ◌==◌, join, map, if◌then◌else◌,
}
use go_temporal_ai_sdk.Updates.Types.{
  Value, str, num, Scope, WorkflowRecord, PreviewReceipt, record_kind_message, record_kind_subagent,
  preview_outcome_succeeded, lane_text, lane_reasoning, lane_object,
}
use go_temporal_ai_sdk.Agents.Types.{
  AgentInput, AgentStep, AgentToolCall, Message, Metadata, SubagentExecutionContext,
  SubagentSnapshot, SubagentToolCallSnapshot,
}
use go_temporal_ai_sdk.Agents.Flow
use go_temporal_ai_sdk.Agents.Flow.{Flow, done, waiting, call, ◌>>=◌, ◌>>◌}
use go_temporal_ai_sdk.Agents.Values.{Library, object, array, any_value}
use go_temporal_ai_sdk.Agents.Records.{write_record, update_stream_id, agent_step_scope, or_text}
use go_temporal_ai_sdk.Agents.Stream.{text_part}

abbrev pub status_running : String
status_running = "running"

abbrev pub status_completed : String
status_completed = "completed"

abbrev pub status_failed : String
status_failed = "failed"

abbrev tool_call_value : SubagentToolCallSnapshot → Value
tool_call_value c = object (("toolCallId", str c.tool_call_id) ∷ ("toolName", str c.tool_name) ∷ [])

-- A snapshot with only its status and its sequence.
abbrev pub snapshot_of : String → ℤ → SubagentSnapshot
snapshot_of status sequence = record {
  subagent_id = "";
  tool_call_id = "";
  tool_name = "";
  workflow_id = "";
  run_id = "";
  status = status;
  sequence = sequence;
  step_number = pos 0;
  step_type = "";
  text = "";
  tool_calls = [];
  finish_reason = "";
  error = "";
  updated_at = none;
}

abbrev pub named_by : SubagentExecutionContext → ℤ → SubagentSnapshot → SubagentSnapshot
named_by execution now s = record s {
  subagent_id = execution.subagent_id;
  tool_call_id = execution.tool_call_id;
  tool_name = execution.tool_name;
  updated_at = some now;
}

abbrev pub own_scope : AgentInput → Scope
own_scope input = record input.stream.scope {
  agent_id = or_text input.stream.scope.agent_id input.agent_id;
}

unfoldable pub subagent_record : AgentInput → SubagentSnapshot → WorkflowRecord
subagent_record input s = record {
  record_id = join ("subagent:" ∷ s.subagent_id ∷ []);
  record_version = s.sequence;
  kind = record_kind_subagent;
  status = s.status;
  contents = some (
      ("subagentId", str s.subagent_id)
      ∷ ("toolCallId", str s.tool_call_id)
      ∷ ("toolName", str s.tool_name)
      ∷ ("workflowId", str s.workflow_id)
      ∷ ("runId", str s.run_id)
      ∷ ("sequence", num s.sequence)
      ∷ ("stepNumber", num s.step_number)
      ∷ ("stepType", str s.step_type)
      ∷ ("text", str s.text)
      ∷ ("toolCalls", array (map tool_call_value s.tool_calls))
      ∷ ("finishReason", str s.finish_reason)
      ∷ ("error", str s.error)
      ∷ []);
  scope = own_scope input;
  updated_at = pos 0;
}

-- publishSubagentProgress for an agent that has a parent; an error of the signal is dropped.
unfoldable pub publish_progress_to :
    AgentInput → SubagentExecutionContext → SubagentSnapshot → Bool → ℤ → Flow (Unit {0})
unfolding update_stream_id write_record subagent_record ◌>>=◌
publish_progress_to input execution s write_records now = do
  let named = named_by execution now s
  stream_id ← update_stream_id input
  _ ←
      if write_records && not (stream_id == "")
      then write_record stream_id (subagent_record input named) ""
      else done tt
  call (Flow.signal_parent execution named) done

unfoldable pub publish_subagent_progress : AgentInput → SubagentSnapshot → Bool → Flow (Unit {0})
unfolding publish_progress_to
publish_subagent_progress input s write_records = elim input.subagent_execution [
  | none ↦ done tt
  | some execution ↦
      if execution.parent_workflow_id == ""
      then done tt
      else call Flow.now (publish_progress_to input execution s write_records)
]

abbrev call_snapshot : AgentToolCall → SubagentToolCallSnapshot
call_snapshot c = record { tool_call_id = c.tool_call_id; tool_name = c.tool_name }

abbrev pub step_snapshot : AgentStep → ℤ → SubagentSnapshot
step_snapshot step sequence = record (snapshot_of status_running sequence) {
  step_number = step.step_number;
  step_type = step.step_type;
  text = step.text;
  tool_calls = map call_snapshot step.tool_calls;
  finish_reason = step.model_result.finish_reason.unified;
}

unfoldable pub publish_subagent_step : AgentInput → AgentStep → ℤ → Bool → Flow (Unit {0})
unfolding publish_subagent_progress
publish_subagent_step input step sequence write_records =
    publish_subagent_progress input (step_snapshot step sequence) write_records

module _ (lib : Library) where
  abbrev pub kept : List Message → String → List Message
  kept messages content =
      if lib.trim_space content == ""
      then messages
      else messages ++ record { role = "user"; content = text_part content ∷ []; text = "" } ∷ []

  -- One receive of the loop; `again` goes on.
  abbrev pub taken :
      (List Message → Flow (List Message)) → List Message → Option String → Flow (List Message)
  taken again messages none = done messages
  taken again messages (some content) = again (kept messages content)

  -- The loop of drainSubagentMessages, for at most as many messages as there are rounds.
  unfoldable pub drain_loop : ℕ → List Message → Flow (List Message)
  drain_loop zero messages = waiting
  drain_loop (suc rounds) messages = call Flow.receive_message (taken (drain_loop rounds) messages)

  unfoldable pub drain_subagent_messages : ℕ → AgentInput → Flow (List Message)
  unfolding drain_loop
  drain_subagent_messages rounds input = elim input.subagent_execution [
    | none ↦ done []
    | some _ ↦ drain_loop rounds []
  ]

abbrev elements_data : List Value → Metadata
elements_data [] = []
elements_data (v ∷ rest) = ("elements", array (v ∷ rest)) ∷ []

abbrev receipt_data : PreviewReceipt → Metadata
receipt_data r =
    if r.lane == lane_reasoning
    then ("reasoning", str r.snapshot.text) ∷ []
    else if r.lane == lane_object
    then ("object", any_value r.snapshot.object) ∷ elements_data r.snapshot.elements
    else ("text", str r.snapshot.text) ∷ []

unfoldable pub receipt_record : PreviewReceipt → WorkflowRecord
receipt_record r = record {
  record_id = r.target_record_id;
  record_version = pos 1;
  kind = record_kind_message;
  status = "completed";
  contents =
      some (("messageId", str r.target_record_id) ∷ ("role", str "assistant") ∷ receipt_data r);
  scope = r.scope;
  updated_at = pos 0;
}

abbrev pub is_message_receipt : PreviewReceipt → Bool
is_message_receipt r =
    r.outcome == preview_outcome_succeeded
    && (r.lane == lane_text || r.lane == lane_reasoning || r.lane == lane_object)

-- The loop of writeAgentMessageRecords, which says whether it wrote a record.
unfoldable pub write_receipts : String → List PreviewReceipt → Bool → Flow Bool
unfolding write_record receipt_record ◌>>◌
write_receipts stream_id [] wrote = done wrote
write_receipts stream_id (r ∷ rest) wrote =
    if is_message_receipt r
    then write_record stream_id (receipt_record r) r.attempt_id
      >> write_receipts stream_id rest true
    else write_receipts stream_id rest wrote

abbrev pub fallback_record_id : AgentInput → AgentStep → String → String
fallback_record_id input step stream_id = join (
    (if input.stream.target_record_id == ""
      then join ("message:" ∷ stream_id ∷ [])
      else input.stream.target_record_id)
    ∷ ":"
    ∷ step.step_id
    ∷ [])

unfoldable pub step_record : AgentInput → AgentStep → String → WorkflowRecord
unfolding agent_step_scope
step_record input step stream_id =
    let id = fallback_record_id input step stream_id in
    record {
      record_id = id;
      record_version = pos 1;
      kind = record_kind_message;
      status = "completed";
      contents =
          some (("messageId", str id) ∷ ("role", str "assistant") ∷ ("text", str step.text) ∷ []);
      scope = agent_step_scope input step.step_id step.step_number step.step_type;
      updated_at = pos 0;
    }

-- `if wrote { return nil }` and the rest.
abbrev pub unless_wrote : AgentInput → AgentStep → String → Bool → Flow (Unit {0})
unless_wrote input step stream_id wrote =
    if wrote then done tt else write_record stream_id (step_record input step stream_id) ""

unfoldable pub write_messages_to :
    AgentInput → AgentStep → List PreviewReceipt → String → Flow (Unit {0})
unfolding write_receipts write_record step_record ◌>>=◌
write_messages_to input step receipts stream_id =
    if stream_id == ""
    then done tt
    else write_receipts stream_id receipts false >>= unless_wrote input step stream_id

unfoldable pub write_agent_message_records :
    AgentInput → AgentStep → List PreviewReceipt → Flow (Unit {0})
unfolding update_stream_id write_messages_to ◌>>=◌
write_agent_message_records input step receipts =
    update_stream_id input >>= write_messages_to input step receipts
