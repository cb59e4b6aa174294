-- ===== src/Agents/Agent.antt =====
-- The loop of an agent: RunAgent and runAgentLoop of temporalai/agent.go. The loop's fuel is the number of
-- steps that are left. workflow.SetQueryHandler is taken to succeed.
use go_temporal_ai_sdk.Prelude.{
  ℕ, zero, suc, ℤ, pos, pos_part, ◌+ℤ◌, ltb_ℤ, eqb_ℤ, String, Bool, true, false, not, ◌&&◌, ◌||◌,
  Option, none, some, List, [], ◌∷◌, ◌++◌, ◌==◌, join, if◌then◌else◌,
}
use go_temporal_ai_sdk.Relay.Part as RelayPart
use go_temporal_ai_sdk.Agents.Types.{
  AgentInput, AgentResult, AgentStep, AgentToolCall, CallOptions, GenerateResult, InvokeToolResult,
  Message, SubagentSnapshot, ToolArtifactPolicy, ToolChoice, ToolDefinition,
}
use go_temporal_ai_sdk.Agents.Flow
use go_temporal_ai_sdk.Agents.Flow.{
  Flow, done, fail, call, ask, give, attempt, error, Failure, Answer, ok, err, Execution, ◌>>=◌,
  ◌>>◌,
}
use go_temporal_ai_sdk.Agents.Values.{Library}
use go_temporal_ai_sdk.Agents.Records.{
  stream_id_for, agent_step_id, agent_step_type, agent_step_scope, or_text,
}
use go_temporal_ai_sdk.Agents.Definitions.{
  is_reserved, find_tool, model_tools_from_definitions, agent_tool_definitions,
}
use go_temporal_ai_sdk.Agents.Execution.{execute_agent_tools}
use go_temporal_ai_sdk.Agents.Stream.{
  text_part, extract_tool_calls, attach_tool_preview_receipts, text_from_wire_parts,
  tool_result_parts, generate_result_from_stream,
}
use go_temporal_ai_sdk.Agents.Progress.{
  snapshot_of, status_running, status_completed, status_failed, publish_subagent_progress,
  publish_subagent_step, drain_subagent_messages, write_agent_message_records,
}

abbrev pub default_agent_max_steps : ℤ
default_agent_max_steps = pos 20

abbrev pub max_steps_of : AgentInput → ℤ
max_steps_of input =
    if ltb_ℤ (pos 0) input.max_steps then input.max_steps else default_agent_max_steps

-- `workflow.GetVersion(...) != workflow.DefaultVersion`
abbrev pub durable_records_enabled : Flow Bool
durable_records_enabled = ask (Flow.get_version "go-temporal-ai-sdk.durable-records-v2")

abbrev stamped_policy : ToolArtifactPolicy → Execution → ToolArtifactPolicy
stamped_policy policy e = record policy {
  workflow_id = or_text policy.workflow_id e.id;
  run_id = or_text policy.run_id e.run_id;
}

abbrev versioned_policy : ToolArtifactPolicy → Bool → Flow ToolArtifactPolicy
versioned_policy policy versioned =
    if versioned
    then call Flow.get_info (λ e. done (stamped_policy policy e))
    else done (record policy { enabled = false })

unfoldable pub workflow_tool_artifact_policy : ToolArtifactPolicy → Flow ToolArtifactPolicy
workflow_tool_artifact_policy policy =
    if policy.enabled
    then call (Flow.get_version "go-temporal-ai-sdk.tool-artifact-compaction")
        (versioned_policy policy)
    else done policy

abbrev pub is_some {ℓ} : {A : Type ℓ} → Option A → Bool
is_some none = false
is_some (some _) = true

module _ (lib : Library) where
  -- The checks of newSubagentManager on the subagents, beside those that it has seen.
  unfoldable pub check_subagents : List ToolDefinition → List ToolDefinition → Option Failure
  unfolding find_tool
  check_subagents seen [] = none
  check_subagents seen (d ∷ rest) =
      let others = check_subagents (d ∷ seen) rest in
      if d.name == ""
      then some (error "subagent tool name is required")
      else if d.requires_approval
      then some
          (error (join ("subagent tool " ∷ lib.quote d.name ∷ " cannot require approval" ∷ [])))
      else if is_reserved d.name
      then some (error (join ("subagent tool name " ∷ lib.quote d.name ∷ " is reserved" ∷ [])))
      else if is_some (find_tool d.name seen)
      then some (error (join ("duplicate subagent tool name " ∷ lib.quote d.name ∷ [])))
      else others

  unfoldable pub check_tools : List ToolDefinition → List ToolDefinition → Option Failure
  unfolding find_tool
  check_tools subagents [] = none
  check_tools subagents (t ∷ rest) =
      let others = check_tools subagents rest in
      if is_some (find_tool t.name subagents)
      then some (
          error
            (join ("tool " ∷ lib.quote t.name ∷ " is defined as both a tool and subagent" ∷ [])))
      else if is_reserved t.name
      then some (
          error (
            join
              ("tool name " ∷ lib.quote t.name ∷ " is reserved for subagent orchestration" ∷ [])))
      else others

  abbrev pub first_failure : Option Failure → Option Failure → Option Failure
  first_failure none next = next
  first_failure (some e) next = some e

  abbrev pub manager_for : List ToolDefinition → List ToolDefinition → Option Failure
  manager_for [] tools = none
  manager_for (s ∷ rest) tools =
      first_failure (check_subagents [] (s ∷ rest)) (check_tools (s ∷ rest) tools)

  -- newSubagentManager as far as it may fail.
  unfoldable pub new_subagent_manager : AgentInput → Option Failure
  unfolding check_subagents check_tools
  new_subagent_manager input = manager_for input.subagents input.tools

abbrev instruction_messages : String → List Message
instruction_messages text =
    if text == "" then [] else record { role = "system"; content = []; text = text } ∷ []

abbrev prompt_messages : String → List Message
prompt_messages text =
    if text == ""
    then []
    else record { role = "user"; content = text_part text ∷ []; text = "" } ∷ []

unfoldable pub initial_agent_messages : AgentInput → List Message
initial_agent_messages input =
    instruction_messages input.instructions ++ input.messages ++ prompt_messages input.prompt

-- withAgentStreamOptions, for the identifier of the stream.
unfoldable pub stream_options : AgentInput → String → ℤ → String → String → RelayPart.Options
unfolding agent_step_scope
stream_options input step_id step_number step_type stream_id = record input.stream {
  scope = agent_step_scope input step_id step_number step_type;
  stream_id = stream_id;
  target_record_id = join (
      or_text input.stream.target_record_id (join ("message:" ∷ stream_id ∷ []))
      ∷ ":"
      ∷ step_id
      ∷ []);
  attempt_id =
      join (or_text input.stream.attempt_id (or_text input.agent_id "agent") ∷ ":" ∷ step_id ∷ []);
  visible = input.stream.visible || input.use_streaming_model;
}

unfoldable pub with_agent_stream_options :
    AgentInput → String → ℤ → String → CallOptions → Flow CallOptions
unfolding stream_options stream_id_for ◌>>=◌
with_agent_stream_options input step_id step_number step_type options = do
  id ← stream_id_for input.stream.stream_id
  done (record options { stream = some (stream_options input step_id step_number step_type id) })

abbrev pub tool_choice_for : AgentInput → ℤ → ToolChoice
tool_choice_for input step_number =
    if eqb_ℤ step_number (pos 0) && not (input.first_tool_choice.type == "")
    then input.first_tool_choice
    else input.tool_choice

abbrev pub wants_stream : AgentInput → Bool
wants_stream input = input.stream.visible || input.use_streaming_model

abbrev pub last_step : List AgentStep → SubagentSnapshot → SubagentSnapshot
last_step [] s = s
last_step (step ∷ []) s = record s { step_number = step.step_number; step_type = step.step_type }
last_step (step ∷ next ∷ rest) s = last_step (next ∷ rest) s

abbrev pub count_steps : List AgentStep → ℕ
count_steps [] = 0
count_steps (s ∷ rest) = suc (count_steps rest)

abbrev pub completed_snapshot : AgentResult → SubagentSnapshot
completed_snapshot r =
    record (snapshot_of status_completed (pos (suc (suc (count_steps r.steps))))) {
      text = r.text;
      finish_reason = r.finish_reason;
    }

-- The snapshot with which RunAgent ends.
unfoldable pub final_snapshot : Answer AgentResult → SubagentSnapshot
final_snapshot (ok r) = last_step r.steps (completed_snapshot r)
final_snapshot (err e) = record (snapshot_of status_failed (pos 2)) { error = e.message }

module _ (lib : Library) (rounds : ℕ) where
  abbrev pub call_options : AgentInput → ℤ → List Message → CallOptions
  call_options input step_number messages =
      let choice = tool_choice_for input step_number in
      record input.model_options {
        prompt = messages;
        tools = model_tools_from_definitions (agent_tool_definitions input) choice;
        tool_choice = if choice.type == "" then lib.auto_tool_choice else choice;
      }

  unfoldable pub invoke_agent_model : AgentInput → CallOptions → Flow GenerateResult
  unfolding generate_result_from_stream ◌>>=◌
  invoke_agent_model input options =
      if wants_stream input
      then call (Flow.invoke_model_stream input.model_id options) give
        >>= (λ s. done (generate_result_from_stream lib s))
      else call (Flow.invoke_model input.model_id options) give

  abbrev pub new_step : AgentInput → ℤ → GenerateResult → AgentStep
  new_step input step_number r =
      let step_id = agent_step_id step_number in
      let step_type = agent_step_type step_number in
      record {
        step_id = step_id;
        step_number = step_number;
        step_type = step_type;
        model_result = r;
        text = text_from_wire_parts r.content;
        tool_calls =
            attach_tool_preview_receipts
              (extract_tool_calls lib r.content step_id step_number step_type) r.preview_receipts;
        tool_results = [];
      }

  -- What a model's answer leaves in the result.
  abbrev pub answered : AgentResult → AgentStep → List Message → AgentResult
  answered result step messages = record result {
    text = step.text;
    finish_reason = step.model_result.finish_reason.unified;
    raw_finish_reason = step.model_result.finish_reason.raw;
    usage = lib.add_usage result.usage step.model_result.usage;
    warnings = result.warnings ++ step.model_result.warnings;
    provider_metadata = step.model_result.provider_metadata;
    messages = messages;
  }

  abbrev pub with_step : AgentResult → AgentStep → AgentResult
  with_step result step = record result { steps = result.steps ++ step ∷ [] }

  abbrev pub assistant_message : GenerateResult → Message
  assistant_message r = record { role = "assistant"; content = r.content; text = "" }

  abbrev pub tool_message : List InvokeToolResult → Message
  tool_message results = record { role = "tool"; content = tool_result_parts results; text = "" }

  -- The model's part of a step: the messages it is asked with, and the step it makes.
  unfoldable pub ask_model : AgentInput → ℤ → List Message → Flow AgentStep
  unfolding with_agent_stream_options invoke_agent_model ◌>>=◌
  ask_model input step_number messages = do
    let options = call_options input step_number messages
    streamed ←
        if wants_stream input
        then with_agent_stream_options input (agent_step_id step_number) step_number
            (agent_step_type step_number) options
        else done options
    r ← invoke_agent_model input streamed
    done (new_step input step_number r)

  abbrev pub Next : Type 0
  Next = List Message → AgentResult → Flow AgentResult

  -- The end of a step, for the results of its tools; `next` is the next round of the loop.
  unfoldable pub tools_answered :
      Next → AgentStep → List Message → AgentResult → List InvokeToolResult → Flow AgentResult
  tools_answered next step messages result [] = done (with_step result step)
  tools_answered next step messages result (r ∷ rest) =
      let stepped = with_step result (record step { tool_results = r ∷ rest }) in
      let all = messages ++ tool_message (r ∷ rest) ∷ [] in
      next all (record stepped { messages = all })

  -- A step after its message is recorded and published.
  unfoldable pub use_tools :
      Next
      → AgentInput
      → Bool
      → AgentStep
      → List Message
      → AgentResult
      → List AgentToolCall
      → Flow AgentResult
  unfolding execute_agent_tools tools_answered ◌>>=◌
  use_tools next input write_records step messages result [] = done (with_step result step)
  use_tools next input write_records step messages result (c ∷ rest) =
      execute_agent_tools lib rounds input write_records messages (c ∷ rest)
      >>= tools_answered next step messages result

  -- A round of the loop after the model's answer.
  unfoldable pub after_model :
      Next → AgentInput → Bool → ℤ → List Message → AgentResult → AgentStep → Flow AgentResult
  unfolding write_agent_message_records publish_subagent_step use_tools ◌>>=◌
  after_model next input write_records step_number asked result step = do
    _ ←
        if write_records
        then write_agent_message_records input step step.model_result.preview_receipts
        else done tt
    let heard = asked ++ assistant_message step.model_result ∷ []
    _ ← publish_subagent_step input step (step_number +ℤ pos 2) write_records
    use_tools next input write_records step heard (answered result step heard) step.tool_calls

  -- One round of the loop.
  unfoldable pub agent_step : Next → AgentInput → Bool → ℤ → Next
  unfolding drain_subagent_messages ask_model after_model ◌>>=◌
  agent_step next input write_records step_number messages result = do
    drained ← drain_subagent_messages lib rounds input
    step ← ask_model input step_number (messages ++ drained)
    after_model next input write_records step_number (messages ++ drained) result step

  unfoldable pub agent_loop : ℕ → AgentInput → Bool → ℤ → Next
  unfolding agent_step
  agent_loop zero input write_records step_number messages result = done result
  agent_loop (suc left) input write_records step_number messages result =
      agent_step (agent_loop left input write_records (step_number +ℤ pos 1)) input write_records
        step_number messages result

  abbrev pub first_result : AgentInput → List Message → AgentResult
  first_result input messages = record {
    agent_id = input.agent_id;
    model_id = input.model_id;
    text = "";
    finish_reason = "";
    raw_finish_reason = "";
    usage = lib.zero_usage;
    warnings = [];
    provider_metadata = [];
    messages = messages;
    steps = [];
  }

  abbrev pub start_loop : AgentInput → Bool → ToolArtifactPolicy → Flow AgentResult
  start_loop input write_records policy =
      let messages = initial_agent_messages input in
      agent_loop (pos_part (max_steps_of input)) (record input { tool_artifacts = policy })
        write_records (pos 0) messages (first_result input messages)

  abbrev pub managed : AgentInput → Bool → Option Failure → Flow AgentResult
  managed input write_records (some e) = fail e
  managed input write_records none =
      workflow_tool_artifact_policy input.tool_artifacts >>= start_loop input write_records

  unfoldable pub run_agent_loop : AgentInput → Bool → Flow AgentResult
  unfolding new_subagent_manager workflow_tool_artifact_policy initial_agent_messages agent_loop
      ◌>>=◌
  run_agent_loop input write_records =
      if input.model_id == ""
      then fail (error "modelId is required")
      else managed input write_records (new_subagent_manager lib input)

  -- RunAgent after its loop: an error of the loop hides one of the last report.
  unfoldable pub report : AgentInput → Bool → Answer AgentResult → Flow AgentResult
  unfolding publish_subagent_progress final_snapshot attempt ◌>>=◌ ◌>>◌
  report input write_records (ok r) =
      publish_subagent_progress input (final_snapshot (ok r)) write_records >> done r
  report input write_records (err e) =
      attempt (publish_subagent_progress input (final_snapshot (err e)) write_records) >> fail e

  unfoldable pub run_agent : AgentInput → Flow AgentResult
  unfolding publish_subagent_progress run_agent_loop report attempt ◌>>=◌
  run_agent input = do
    write_records ← durable_records_enabled
    _ ← publish_subagent_progress input (snapshot_of status_running (pos 1)) write_records
    answer ← attempt (run_agent_loop input write_records)
    report input write_records answer
