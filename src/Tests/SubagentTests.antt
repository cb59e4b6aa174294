-- ===== src/Tests/SubagentTests.antt =====
-- The theorems of subagents, of waiting and of ending at concrete inputs.
use go_temporal_ai_sdk.Prelude.{
  ◌==◌, pos, String, ◌≡◌, refl, true, false, ◌⊎◌, inl, none, some, [], ◌∷◌, lookup, insert, All,
}
use go_temporal_ai_sdk.Updates.Types.{Value}
use go_temporal_ai_sdk.Agents.Types.{AgentInput, AgentResult, ToolApprovalRequest}
use go_temporal_ai_sdk.Agents.Flow.{Answer, err, error}
use go_temporal_ai_sdk.Agents.Agent.{run_agent, new_subagent_manager, check_subagents, check_tools}
use go_temporal_ai_sdk.Agents.Definitions.{find_tool}
use go_temporal_ai_sdk.Agents.Runs.{At, run, end_of}
use go_temporal_ai_sdk.Agents.Subagents.{
  Runtime, Runtimes, started, sanitize_subagent_id, end_child, update, canceled, Steps, WaitInput,
  start_wait, wakes, child_ended, was_canceled, here, further, cancel, ended, trim_left, trim_right,
  dashed,
}
use go_temporal_ai_sdk.Agents.Subagents.Calls.{SubagentToolInput, no_tool_input, route, unhandled}
use go_temporal_ai_sdk.Agents.Subagents.Names.{OnlyKept, sanitize_subagent_id-OnlyKept}
use go_temporal_ai_sdk.Agents.Subagents.Routes.{route-unhandled}
use go_temporal_ai_sdk.Agents.Subagents.Sequence.{Grown, steps-Grown, start_wait-wakes}
use go_temporal_ai_sdk.Agents.Waiting.Returns.{Unawaited}
use go_temporal_ai_sdk.Agents.Waiting.Run.{run_agent-Returns}
use go_temporal_ai_sdk.Agents.Waiting.Timeout.{Arrival}
use go_temporal_ai_sdk.Tests.AgentTests.{call_of, library, researcher, search_tool, world}

abbrev child : Runtime
child = started (call_of "call-1") "workflow-1:subagent:search-call-1" (pos 1)

abbrev table : Runtimes
table = ("search-call-1", child) ∷ []

abbrev stopped : Runtimes
stopped =
    end_child "search-call-1" (pos 9) (err (error "canceled"))
      (cancel "search-call-1" "enough" (pos 8) table)

abbrev stopping : Steps "search-call-1" table stopped
stopping =
    further (was_canceled "search-call-1" "enough" (pos 8))
      (further (child_ended "search-call-1" (pos 9) (err (error "canceled"))) here)

-- A child that fails after it was told to stop is a canceled one.
is_canceled :
    lookup "search-call-1" stopped
    ≡ some (ended (pos 9) (err (error "canceled")) (canceled "enough" (pos 8) child))
unfolding lookup update insert
is_canceled = refl

steps-Grown_example : Grown "search-call-1" child stopped
unfolding lookup
steps-Grown_example = steps-Grown "search-call-1" table stopped child stopping refl

abbrev wait_for_it : WaitInput
wait_for_it = record {
  subagent_id = "search-call-1";
  since_sequence = pos 0;
  timeout_seconds = pos 0;
}

abbrev stopped_child : Runtime
stopped_child = ended (pos 9) (err (error "canceled")) (canceled "enough" (pos 8) child)

start_wait-wakes_example : (stopped_child ≡ child) ⊎ (wakes (pos 1) stopped_child ≡ true)
unfolding lookup update insert start_wait
start_wait-wakes_example =
    start_wait-wakes library wait_for_it table stopped child stopped_child (pos 1) (pos 30) stopping
      refl refl refl refl

sanitizes : sanitize_subagent_id "-web.search/call 1-" ≡ "web-search-call-1"
unfolding sanitize_subagent_id trim_left trim_right dashed
sanitizes = refl

abbrev decode : Value → SubagentToolInput ⊎ String
decode v = inl no_tool_input

abbrev leading : AgentInput
leading = record researcher {
  subagents = record search_tool { name = "helper"; requires_approval = false } ∷ [];
}

route-unhandled_example : route decode (λ v. "") leading.subagents (call_of "call-1") ≡ unhandled
unfolding new_subagent_manager check_subagents check_tools find_tool
route-unhandled_example =
    route-unhandled decode (λ v. "") library leading (call_of "call-1")
      (record search_tool { name = "helper"; requires_approval = false }) search_tool []
      no_tool_input refl refl refl refl

abbrev request : ToolApprovalRequest
request = record {
  stream_id = "";
  approval_id = "call-1:approval";
  tool_call_id = "call-1";
  tool_name = "search";
  input = none;
  tool_metadata = [];
  metadata = [];
  timeout = pos 10;
  signal_name = "";
  scope = researcher.stream.scope;
}

-- A response for another approval after 8 time units, and one for this approval 8 units later: more than
-- the timeout of 10 has passed when it arrives.
abbrev for_another : Arrival
for_another = record {
  gap = pos 8;
  decode = λ r. record r { approval_id = "call-2:approval"; reason = "fine" };
}

abbrev for_this : Arrival
for_this = record {
  gap = pos 8;
  decode = λ r. record r { approval_id = "call-1:approval"; approved = true };
}

abbrev free_agent : AgentInput
free_agent = record researcher { tools = record search_tool { requires_approval = false } ∷ [] }

run_agent-Returns_example :
    ((a : Answer AgentResult) × (end_of world [] (run_agent library 0 free_agent) ≡ some a))
    × All (At Unawaited) (run world [] (run_agent library 0 free_agent))
run_agent-Returns_example = run_agent-Returns library 0 free_agent refl (refl, tt) refl world

sanitize_subagent_id-OnlyKept_example :
    OnlyKept (sanitize_subagent_id "...") × ((sanitize_subagent_id "..." == "") ≡ false)
sanitize_subagent_id-OnlyKept_example = sanitize_subagent_id-OnlyKept "..."
