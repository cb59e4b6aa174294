-- ===== src/Agents/Subagents/Calls.antt =====
-- Which call of the manager a tool call is (subagentManager.execute of temporalai/subagent.go), and the
-- input that a child workflow is started with.
use go_temporal_ai_sdk.Prelude.{
  ℤ, pos, String, ◌||◌, ◌⊎◌, inl, inr, Option, none, some, List, [], ◌∷◌, ◌==◌, join, if◌then◌else◌,
}
use go_temporal_ai_sdk.Updates.Types.{Value, str}
use go_temporal_ai_sdk.Agents.Types.{
  AgentInput, AgentToolCall, InvokeToolResult, SubagentExecutionContext, ToolDefinition,
}
use go_temporal_ai_sdk.Agents.Flow.{Execution, Failure, error}
use go_temporal_ai_sdk.Agents.Values.{Library}
use go_temporal_ai_sdk.Agents.Records.{or_text}
use go_temporal_ai_sdk.Agents.Definitions.{
  list_subagents, inspect_subagent, wait_subagent, message_subagent, cancel_subagent, find_tool,
}
use go_temporal_ai_sdk.Agents.Execution.{zero_result}
use go_temporal_ai_sdk.Agents.Subagents.{WaitInput, subagent_id_for_call}

pub record SubagentToolInput : Type 0 where
  pub subagent_id : String
  pub task : String
  pub message : String
  pub reason : String
  pub since_sequence : ℤ
  pub timeout_seconds : ℤ

abbrev pub no_tool_input : SubagentToolInput
no_tool_input = record {
  subagent_id = "";
  task = "";
  message = "";
  reason = "";
  since_sequence = pos 0;
  timeout_seconds = pos 0;
}

pub data Route : Type 0 where
  spawns : ToolDefinition → Route
  undecoded : Failure → Route
  lists : Route
  inspects : String → Route
  waits : WaitInput → Route
  messages : String → String → Route
  cancels : String → String → Route
  unhandled : Route

abbrev pub wait_input : SubagentToolInput → WaitInput
wait_input i = record {
  subagent_id = i.subagent_id;
  since_sequence = i.since_sequence;
  timeout_seconds = i.timeout_seconds;
}

-- `switch call.ToolName`
unfoldable pub control_route : String → SubagentToolInput → Route
control_route name i =
    if name == list_subagents
    then lists
    else if name == inspect_subagent
    then inspects i.subagent_id
    else if name == wait_subagent
    then waits (wait_input i)
    else if name == message_subagent
    then messages i.subagent_id i.message
    else if name == cancel_subagent
    then cancels i.subagent_id i.reason
    else unhandled

-- `decode` is json.Marshal and json.Unmarshal of an input that is not nil, and `sprint` is fmt.Sprint.
module _ (decode : Value → SubagentToolInput ⊎ String) (sprint : Value → String) where
  abbrev pub decode_tool_input : Option Value → SubagentToolInput ⊎ String
  decode_tool_input none = inl no_tool_input
  decode_tool_input (some v) = decode v

  abbrev pub decoded_route : AgentToolCall → SubagentToolInput ⊎ String → Route
  decoded_route c (inl i) = control_route c.tool_name i
  decoded_route c (inr e) = undecoded (error (join (c.tool_name ∷ ": " ∷ e ∷ [])))

  abbrev pub routed : AgentToolCall → Option ToolDefinition → Route
  routed c (some d) = spawns d
  routed c none = decoded_route c (decode_tool_input c.input)

  unfoldable pub route : List ToolDefinition → AgentToolCall → Route
  unfolding find_tool control_route
  route subagents c = routed c (find_tool c.tool_name subagents)

  abbrev text_of_input : Library → Option Value → String
  text_of_input lib (some (str s)) = s
  text_of_input lib none = "null"
  text_of_input lib (some v) = elim (lib.marshal v) [ none ↦ sprint v | some s ↦ s ]

  abbrev task_or : Library → Option Value → SubagentToolInput ⊎ String → String
  task_or lib value (inr e) = text_of_input lib value
  task_or lib value (inl i) = if i.task == "" then text_of_input lib value else i.task

  unfoldable pub subagent_task : Library → Option Value → String
  subagent_task lib value = task_or lib value (decode_tool_input value)

  -- subagentInputForCall; `agent` is the definition's, or the zero value for one without.
  unfoldable pub subagent_input_for_call :
      Library → AgentInput → AgentInput → AgentToolCall → String → AgentInput
  unfolding subagent_task
  subagent_input_for_call lib parent agent c id =
      let own_id = or_text agent.agent_id id in
      let scope = agent.stream.scope in
      record agent {
        agent_id = own_id;
        prompt = subagent_task lib c.input;
        stream = record agent.stream {
          stream_id = or_text agent.stream.stream_id parent.stream.stream_id;
          visible = agent.stream.visible || parent.stream.visible;
          scope = record scope {
            display_mode = or_text scope.display_mode parent.stream.scope.display_mode;
            agent_id = own_id;
            task_id = or_text scope.task_id c.tool_call_id;
            task_title = or_text scope.task_title c.tool_name;
          };
        };
      }

abbrev pub execution_context : AgentToolCall → Execution → SubagentExecutionContext
execution_context c parent = record {
  subagent_id = subagent_id_for_call c;
  tool_call_id = c.tool_call_id;
  tool_name = c.tool_name;
  parent_workflow_id = parent.id;
  parent_run_id = parent.run_id;
}

abbrev pub subagent_tool_result : AgentToolCall → Value → InvokeToolResult
subagent_tool_result c v = record zero_result {
  tool_call_id = c.tool_call_id;
  tool_name = c.tool_name;
  input = c.input;
  output = record { type = "json"; value = some v; reason = "" };
  result = some v;
}
