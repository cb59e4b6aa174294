-- ===== src/Tests/AgentTests.antt =====
-- Runs of an agent, and its theorems in a world where a model calls a tool that a person approves.
use go_temporal_ai_sdk.Prelude.{
  pos, String, ◌≡◌, refl, true, false, none, some, List, [], ◌∷◌, inr, All, ◌≤◌,
}
use go_temporal_ai_sdk.Updates.Types.{null, PreviewReceipt, lane_text, preview_outcome_succeeded}
use go_temporal_ai_sdk.Relay.Classify.{empty_scope}
use go_temporal_ai_sdk.Agents.Types.{
  AgentInput, AgentToolCall, CallOptions, GenerateResult, InvokeToolArgs, InvokeToolResult,
  ToolApprovalResponse, ToolArtifactPolicy, ToolDefinition,
}
use go_temporal_ai_sdk.Agents.Flow
use go_temporal_ai_sdk.Agents.Flow.{Call, Reply, Answer, ok, received}
use go_temporal_ai_sdk.Agents.Values.{Library}
use go_temporal_ai_sdk.Agents.Approval.{no_response}
use go_temporal_ai_sdk.Agents.Definitions.{find_tool}
use go_temporal_ai_sdk.Agents.Execution.{execute_agent_tools, own_calls, zero_result}
use go_temporal_ai_sdk.Agents.Stream.{part_of, attach_tool_preview_receipts, extract_tool_calls}
use go_temporal_ai_sdk.Agents.Tools.{execute_own_tool}
use go_temporal_ai_sdk.Agents.Agent.{run_agent}
use go_temporal_ai_sdk.Agents.Runs.{after, World, Exchange, At, AllowedAlong, Ended, run, end_of}
use go_temporal_ai_sdk.Agents.Recording.{GoodReply, WritesValid}
use go_temporal_ai_sdk.Agents.Validity.Steering.{model_calls}
use go_temporal_ai_sdk.Agents.Validity.Run.{Made, run_agent-WritesValid, run_agent-steps}
use go_temporal_ai_sdk.Agents.Consent.{Consented, heard, own_request, execute_own_tool-Consented}
use go_temporal_ai_sdk.Agents.Pairing.{Named, call_ids, result_ids, execute_agent_tools-call_ids}
use go_temporal_ai_sdk.Tests.Fixtures.{chat}

abbrev pub library : Library
library = record {
  unmarshal = λ s. inr "no JSON here";
  marshal = λ v. none;
  trim_space = λ s. s;
  quote = λ s. s;
  zero_usage = null;
  add_usage = λ a b. b;
  auto_tool_choice = record { type = "auto"; tool_name = "" };
  output_json = λ o. null;
}

abbrev pub search_tool : ToolDefinition
search_tool = record {
  name = "search";
  description = "Search the documents.";
  input_schema = none;
  type = "";
  id = "";
  args = none;
  requires_approval = true;
  execution_boundary = "";
  tool_metadata = [];
}

abbrev pub no_options : CallOptions
no_options = record {
  prompt = [];
  tools = [];
  tool_choice = record { type = ""; tool_name = "" };
  settings = [];
  stream = none;
}

abbrev pub no_artifacts : ToolArtifactPolicy
no_artifacts = record {
  enabled = false;
  max_inline_bytes = pos 0;
  max_preview_bytes = pos 0;
  workflow_id = "";
  run_id = "";
  store_inputs = none;
  store_outputs = none;
  store_errors = none;
}

abbrev pub researcher : AgentInput
researcher = record {
  agent_id = "researcher";
  model_id = "model-1";
  instructions = "Answer from the documents.";
  prompt = "What changed?";
  messages = [];
  tools = search_tool ∷ [];
  tool_choice = record { type = ""; tool_name = "" };
  first_tool_choice = record { type = ""; tool_name = "" };
  max_steps = pos 2;
  model_options = no_options;
  stream = record chat { visible = false };
  use_streaming_model = false;
  tool_context = none;
  tool_execution = "";
  tool_approval = record { signal_name = ""; timeout = pos 60; metadata = [] };
  default_tool_boundary = "";
  local_tool_timeout_fallback = "";
  tool_artifacts = no_artifacts;
  subagents = [];
  subagent_execution = none;
}

abbrev pub receipt : PreviewReceipt
receipt = record {
  attempt_id = "turn-7:1";
  target_record_id = "message:conversation-1";
  lane = lane_text;
  sequence = pos 1;
  outcome = preview_outcome_succeeded;
  snapshot = record { text = "Let me look."; object = none; elements = [] };
  scope = empty_scope;
}

abbrev pub looks_up : GenerateResult
looks_up = record {
  content = record (part_of "tool-call") { tool_call_id = "call-1"; tool_name = "search" } ∷ [];
  finish_reason = record { unified = "tool-calls"; raw = "tool_use" };
  usage = null;
  warnings = [];
  provider_metadata = [];
  request = none;
  response = none;
  preview_receipts = receipt ∷ [];
}

abbrev pub answer_to : InvokeToolArgs → InvokeToolResult
answer_to args = record zero_result { tool_call_id = args.tool_call_id; tool_name = args.tool_name }

abbrev approval : ToolApprovalResponse → ToolApprovalResponse
approval r = record r { approval_id = "call-1:approval"; approved = true }

-- The model always calls the tool, and a person always approves.
abbrev pub world : World
world past (Flow.write_record e) = none
world past (Flow.end_stream e) = none
world past Flow.now = pos 1200
world past (Flow.get_version change) = true
world past Flow.get_info = record { id = "workflow-1"; run_id = "run-1" }
world past (Flow.invoke_model id options) = ok looks_up
world past (Flow.invoke_model_stream id options) = ok (record {
  result = some looks_up;
  stream_parts = [];
  request = none;
  response = none;
  preview_receipts = receipt ∷ [];
})
world past (Flow.invoke_tool boundary args) = ok (answer_to args)
world past (Flow.select name timeout) = received approval
world past Flow.receive_message = none
world past (Flow.signal_parent parent snapshot) = tt
world past (Flow.ask_subagents c) = none
world past Flow.schedule = false

world-GoodReply : (past : List Exchange) (c : Call) → GoodReply c (world past c)
world-GoodReply past Flow.now = refl
world-GoodReply past (Flow.invoke_model id options) = ((λ _. (refl, refl)), tt)
world-GoodReply past (Flow.invoke_model_stream id options) = ((λ _. (refl, refl)), tt)
world-GoodReply past c = tt

world-Named : (past : List Exchange) (c : Call) → Named c (world past c)
world-Named past (Flow.invoke_tool boundary args) = refl
world-Named past (Flow.ask_subagents c) = tt
world-Named past c = tt

abbrev pub call_of : String → AgentToolCall
call_of id = record {
  tool_call_id = id;
  tool_name = "search";
  step_id = "step-0";
  step_number = pos 0;
  step_type = "initial";
  input = none;
  input_raw = "";
  provider_executed = false;
  dynamic = false;
  invalid = false;
  error_text = "";
  tool_metadata = [];
  provider_metadata = [];
  accepted_attempt_id = "";
}

calls_two_models : model_calls (run world [] (run_agent library 3 researcher)) ≡ 2
unfolding run_agent run after attach_tool_preview_receipts extract_tool_calls
calls_two_models = refl

run_agent-WritesValid_example : All (At WritesValid) (run world [] (run_agent library 3 researcher))
run_agent-WritesValid_example =
    run_agent-WritesValid library 3 researcher refl world world-GoodReply

run_agent-steps_example :
    (model_calls (run world [] (run_agent library 3 researcher)) ≤ 2)
    × Ended Made
        (λ _ _. Unit {0})
        (model_calls (run world [] (run_agent library 3 researcher)))
        (end_of world [] (run_agent library 3 researcher))
run_agent-steps_example = run_agent-steps library 3 researcher refl world world-GoodReply

execute_own_tool-Consented_example :
    AllowedAlong
      (Consented (own_request library researcher (call_of "call-1")))
      heard
      no_response
      (run world [] (execute_own_tool library researcher (call_of "call-1") 3 true []))
unfolding find_tool
execute_own_tool-Consented_example =
    execute_own_tool-Consented library researcher (call_of "call-1") 3 true [] refl world

abbrev unguarded : AgentInput
unguarded = record researcher { tools = [] }

abbrev two_calls : List AgentToolCall
two_calls = call_of "call-1" ∷ call_of "call-2" ∷ []

abbrev two_results : List InvokeToolResult
two_results =
    record zero_result { tool_call_id = "call-1"; tool_name = "search" }
    ∷ record zero_result { tool_call_id = "call-2"; tool_name = "search" }
    ∷ []

execute_agent_tools-call_ids_example : result_ids two_results ≡ call_ids (own_calls two_calls)
unfolding execute_agent_tools run end_of
execute_agent_tools-call_ids_example =
    execute_agent_tools-call_ids library 3 unguarded true [] two_calls world two_results world-Named
      refl
