-- ===== src/Agents/Records.antt =====
-- WriteRecord and EndStream of temporalai/workflow.go, and what agent.go knows of a stream and of the
-- scope of a step.
use go_temporal_ai_sdk.Prelude.{
  ℤ, pos, eqb_ℤ, String, not, ◌&&◌, some, [], ◌∷◌, ◌==◌, join, decimal, lookup, insert,
  if◌then◌else◌,
}
use go_temporal_ai_sdk.Updates.Types.{str, Scope, WorkflowRecord, StreamOutcome}
use go_temporal_ai_sdk.Updates.Records.{new_record_upsert_event, new_stream_end_event}
use go_temporal_ai_sdk.Updates.Validation.{text_of}
use go_temporal_ai_sdk.Agents.Types.{AgentInput, AgentToolCall, Metadata}
use go_temporal_ai_sdk.Agents.Flow
use go_temporal_ai_sdk.Agents.Flow.{Flow, done, fail, call, succeed, Execution, ◌>>=◌}
use go_temporal_ai_sdk.Agents.Values.{tool_lifecycle_metadata}

-- `if record.UpdatedAt == 0 { record.UpdatedAt = now }`
abbrev pub stamped : ℤ → WorkflowRecord → WorkflowRecord
stamped now r = record r { updated_at = if eqb_ℤ r.updated_at (pos 0) then now else r.updated_at }

unfoldable pub write_record : String → WorkflowRecord → String → Flow (Unit {0})
write_record stream_id r accepted_attempt_id =
    if stream_id == ""
    then done tt
    else call Flow.now λ now.
      call
        (Flow.write_record
          (new_record_upsert_event stream_id (stamped now r) accepted_attempt_id now))
        succeed

unfoldable pub end_stream : String → StreamOutcome → String → Flow (Unit {0})
end_stream stream_id outcome error_text =
    if stream_id == ""
    then done tt
    else call Flow.now λ now.
      call (Flow.end_stream (new_stream_end_event stream_id outcome error_text now)) succeed

unfoldable pub stream_id_for : String → Flow String
stream_id_for configured =
    if not (configured == "")
    then done configured
    else call Flow.get_info λ (e : Execution). done e.id

unfoldable pub update_stream_id : AgentInput → Flow String
unfolding stream_id_for
update_stream_id input =
    if not input.stream.visible && input.stream.stream_id == "" && not input.use_streaming_model
    then done ""
    else stream_id_for input.stream.stream_id

abbrev pub agent_step_id : ℤ → String
agent_step_id n = join ("step-" ∷ decimal n ∷ [])

abbrev pub agent_step_type : ℤ → String
agent_step_type n = if eqb_ℤ n (pos 0) then "initial" else "tool-result"

abbrev pub or_text : String → String → String
or_text value default = if value == "" then default else value

-- The scope of a step, with streamScopeFromContext for what the stream's scope leaves open.
unfoldable pub agent_step_scope : AgentInput → String → ℤ → String → Scope
unfolding tool_lifecycle_metadata lookup
agent_step_scope input step_id step_number step_type =
    let scope = input.stream.scope in
    let metadata = tool_lifecycle_metadata input.tool_context in
    record scope {
      agent_id = or_text scope.agent_id input.agent_id;
      task_id = or_text scope.task_id (text_of (lookup "taskId" metadata));
      task_title = or_text scope.task_title (text_of (lookup "taskTitle" metadata));
      skill_name = or_text scope.skill_name (text_of (lookup "skillName" metadata));
      step_id = step_id;
      step_number = some step_number;
      step_type = step_type;
    }

abbrev pub agent_tool_scope : AgentInput → AgentToolCall → Scope
agent_tool_scope input c = agent_step_scope input c.step_id c.step_number c.step_type

abbrev pub insert_entries : Metadata → Metadata → Metadata
insert_entries [] base = base
insert_entries ((k, v) ∷ rest) base = insert_entries rest (insert k v base)

unfoldable pub tool_record_metadata : AgentInput → Metadata
unfolding tool_lifecycle_metadata
tool_record_metadata input =
    insert_entries (tool_lifecycle_metadata input.tool_context)
      (("agentId", str input.agent_id) ∷ [])

-- mergeApprovalMetadata; a nil map is an empty one.
abbrev pub merge_approval_metadata : Metadata → Metadata → Metadata
merge_approval_metadata base extra = insert_entries extra base
