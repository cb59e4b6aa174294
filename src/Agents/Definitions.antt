-- ===== src/Agents/Definitions.antt =====
-- Which tools a model is given, and where a tool runs: temporalai/agent.go, the definitions of
-- temporalai/subagent.go, and ModelToolsFromDefinitions of activities/tool.go.
use go_temporal_ai_sdk.Prelude.{
  String, Bool, false, not, ◌&&◌, ◌||◌, Option, none, some, List, [], ◌∷◌, ◌++◌, ◌==◌, join, map,
  if◌then◌else◌,
}
use go_temporal_ai_sdk.Updates.Types.{Value, str, bool}
use go_temporal_ai_sdk.Agents.Types.{
  AgentInput, ToolDefinition, ModelTool, ToolChoice, ToolExecutionBoundary, Metadata,
}
use go_temporal_ai_sdk.Agents.Values.{object, array}

abbrev pub boundary_auto : ToolExecutionBoundary
boundary_auto = "auto"

abbrev pub boundary_activity : ToolExecutionBoundary
boundary_activity = "activity"

abbrev pub boundary_local_activity : ToolExecutionBoundary
boundary_local_activity = "local-activity"

-- normalizeSchema; raw JSON is a value already.
abbrev pub normalize_schema : Option Value → Option Value
normalize_schema none = some (object (("type", str "object") ∷ ("properties", object []) ∷ []))
normalize_schema (some v) = some v

unfoldable pub to_model_tool : ToolDefinition → ModelTool
to_model_tool d =
    if d.type == "" || d.type == "function" || d.type == "dynamic"
    then record {
      type = "function";
      name = d.name;
      description = d.description;
      input_schema = normalize_schema d.input_schema;
      id = "";
      args = none;
      tool_metadata = d.tool_metadata;
    }
    else record {
      type = "provider";
      name = d.name;
      description = "";
      input_schema = none;
      id = d.id;
      args = d.args;
      tool_metadata = d.tool_metadata;
    }

-- The loop of ModelToolsFromDefinitions.
unfoldable pub chosen_tools : List ToolDefinition → ToolChoice → List ModelTool
unfolding to_model_tool
chosen_tools [] choice = []
chosen_tools (d ∷ rest) choice =
    let others = chosen_tools rest choice in
    if d.name == ""
    then others
    else if choice.type == "tool"
        && not (choice.tool_name == "")
        && not (choice.tool_name == d.name)
    then others
    else to_model_tool d ∷ others

unfoldable pub model_tools_from_definitions : List ToolDefinition → ToolChoice → List ModelTool
unfolding chosen_tools
model_tools_from_definitions definitions choice =
    if choice.type == "none" then [] else chosen_tools definitions choice

abbrev pub list_subagents : String
list_subagents = "list_subagents"

abbrev pub inspect_subagent : String
inspect_subagent = "inspect_subagent"

abbrev pub wait_subagent : String
wait_subagent = "wait_subagent"

abbrev pub message_subagent : String
message_subagent = "message_subagent"

abbrev pub cancel_subagent : String
cancel_subagent = "cancel_subagent"

abbrev pub is_reserved : String → Bool
is_reserved name =
    name == list_subagents
    || name == inspect_subagent
    || name == wait_subagent
    || name == message_subagent
    || name == cancel_subagent

-- `if len(required) > 0 { schema["required"] = required }`
abbrev required_field : List Value → Metadata
required_field [] = []
required_field (v ∷ rest) = ("required", array (v ∷ rest)) ∷ []

abbrev pub object_schema : Metadata → List Value → Value
object_schema properties required = object (
    ("type", str "object")
    ∷ ("properties", object properties)
    ∷ ("additionalProperties", bool false)
    ∷ required_field required)

-- A tool definition of which only these fields are set.
abbrev pub defined : String → String → Value → ToolDefinition
defined name description schema = record {
  name = name;
  description = description;
  input_schema = some schema;
  type = "";
  id = "";
  args = none;
  requires_approval = false;
  execution_boundary = "";
  tool_metadata = [];
}

abbrev typed : String → Value
typed type = object (("type", str type) ∷ [])

abbrev id_schema : Value
id_schema = object (
    ("type", str "string")
    ∷ ("description", str "Subagent handle returned by a subagent tool.")
    ∷ [])

abbrev pub subagent_control_tool_definitions : List ToolDefinition
subagent_control_tool_definitions =
    defined list_subagents "List background subagents and their latest durable status."
      (object_schema [] [])
    ∷ defined inspect_subagent "Inspect the latest durable snapshot of a background subagent."
        (object_schema (("subagentId", id_schema) ∷ []) (str "subagentId" ∷ []))
    ∷ defined wait_subagent "Wait for a background subagent to make progress or finish." (
        object_schema
          (("subagentId", id_schema)
            ∷ ("sinceSequence", typed "integer")
            ∷ ("timeoutSeconds", typed "integer")
            ∷ [])
          (str "subagentId" ∷ []))
    ∷ defined message_subagent "Send additional instructions to a running subagent." (
        object_schema (("subagentId", id_schema) ∷ ("message", typed "string") ∷ [])
          (str "subagentId" ∷ str "message" ∷ []))
    ∷ defined cancel_subagent "Cancel a running subagent." (
        object_schema (("subagentId", id_schema) ∷ ("reason", typed "string") ∷ [])
          (str "subagentId" ∷ []))
    ∷ []

abbrev schema_or_task : Option Value → Option Value
schema_or_task (some v) = some v
schema_or_task none = some (
    object_schema
      ((
        "task",
        object (("type", str "string") ∷ ("description", str "Task for the subagent.") ∷ []),
      )
        ∷ [])
      (str "task" ∷ []))

abbrev pub subagent_tool : ToolDefinition → ToolDefinition
subagent_tool tool = record tool {
  description =
      if tool.description == ""
      then join
          ("Start the " ∷ tool.name ∷ " subagent in the background and return its handle." ∷ [])
      else tool.description;
  input_schema = schema_or_task tool.input_schema;
}

-- The subagents' tools and the control tools, if there are subagents.
abbrev pub orchestration_tools : List ToolDefinition → List ToolDefinition
orchestration_tools [] = []
orchestration_tools (s ∷ rest) = map subagent_tool (s ∷ rest) ++ subagent_control_tool_definitions

unfoldable pub agent_tool_definitions : AgentInput → List ToolDefinition
agent_tool_definitions input = input.tools ++ orchestration_tools input.subagents

-- The first tool of the name.
unfoldable pub find_tool : String → List ToolDefinition → Option ToolDefinition
find_tool name [] = none
find_tool name (t ∷ rest) =
    let others = find_tool name rest in if t.name == name then some t else others

abbrev pub agent_tool_definition : AgentInput → String → Option ToolDefinition
agent_tool_definition input name = find_tool name input.tools

abbrev pub is_set : ToolExecutionBoundary → Bool
is_set b = not (b == "") && not (b == boundary_auto)

abbrev default_boundary : AgentInput → ToolExecutionBoundary
default_boundary input =
    if is_set input.default_tool_boundary then input.default_tool_boundary else boundary_activity

abbrev boundary_of : AgentInput → Option ToolDefinition → ToolExecutionBoundary
boundary_of input none = default_boundary input
boundary_of input (some t) =
    if is_set t.execution_boundary then t.execution_boundary else default_boundary input

unfoldable pub tool_execution_boundary : AgentInput → String → ToolExecutionBoundary
unfolding find_tool
tool_execution_boundary input name = boundary_of input (find_tool name input.tools)
