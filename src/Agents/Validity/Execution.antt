-- ===== src/Agents/Validity/Execution.antt =====
-- The tool calls of a step write valid records (executeAgentTools of temporalai/agent.go).
use go_temporal_ai_sdk.Prelude.{ℕ, zero, suc, Bool, List, [], ◌∷◌, ◌==◌, All, if_cases}
use go_temporal_ai_sdk.Agents.Types.{AgentInput, AgentToolCall, InvokeToolResult, Message}
use go_temporal_ai_sdk.Agents.Flow.{Flow}
use go_temporal_ai_sdk.Agents.Values.{Library}
use go_temporal_ai_sdk.Agents.Tools.{execute_one_agent_tool}
use go_temporal_ai_sdk.Agents.Execution.{
  ToolOutcome, store_at, receive_all, own_calls, tool_execution_sequential, execute_sequential,
  send_outcome, start_all, execute_parallel, execute_agent_tools,
}
use go_temporal_ai_sdk.Agents.Monitor.{Anyway, bind-Calls, together-Calls}
use go_temporal_ai_sdk.Agents.Recording.{GoodReply, SideCall, Valid}
use go_temporal_ai_sdk.Agents.Validity.{CallOk, bind-Valid, execute_one_agent_tool-Valid}

module _ (execute : AgentToolCall → Flow InvokeToolResult)
    (each : (c : AgentToolCall) → CallOk c → Valid Anyway (execute c)) where
  sequential-Valid :
      (calls : List AgentToolCall)
      → All CallOk calls
      → Valid Anyway (execute_sequential execute calls)
  unfolding execute_sequential
  sequential-Valid [] h = tt
  sequential-Valid (c ∷ rest) h = bind-Valid (execute c) _ (each c h.0) (λ result.
      bind-Valid (execute_sequential execute rest) _ (sequential-Valid rest h.1) (λ results. tt))

  send_outcome-Valid :
      (i : ℕ) (c : AgentToolCall) → CallOk c → Valid Anyway (send_outcome execute i c)
  unfolding send_outcome
  send_outcome-Valid i c h = bind-Valid (execute c) _ (each c h) (λ result. tt)

  start_all-Valid :
      (i : ℕ) (calls : List AgentToolCall)
      → All CallOk calls
      → Valid Anyway (start_all execute i calls)
  unfolding start_all
  start_all-Valid i [] h = tt
  start_all-Valid i (c ∷ rest) h =
      together-Calls GoodReply SideCall Anyway tt Anyway Anyway Anyway (λ _ _ _ _ _ _. tt)
        (send_outcome execute i c) (start_all execute (suc i) rest) (send_outcome-Valid i c h.0)
        (start_all-Valid (suc i) rest h.1)

  receive_all-Valid :
      (n : ℕ) (arrived : List ToolOutcome) (results : List InvokeToolResult)
      → Valid Anyway (receive_all n arrived results)
  unfolding receive_all
  receive_all-Valid zero arrived results = tt
  receive_all-Valid (suc n) [] results = tt
  receive_all-Valid (suc n) (o ∷ rest) results =
      receive_all-Valid n rest (store_at (o.0) (o.1) results)

  parallel-Valid :
      (calls : List AgentToolCall)
      → All CallOk calls
      → Valid Anyway (execute_parallel execute calls)
  unfolding execute_parallel
  parallel-Valid calls h =
      bind-Calls GoodReply SideCall Anyway Anyway Anyway (start_all execute 0 calls) _
        (start_all-Valid 0 calls h) (λ arrived _. receive_all-Valid _ arrived _)

own_calls-CallOk : (calls : List AgentToolCall) → All CallOk calls → All CallOk (own_calls calls)
unfolding own_calls
own_calls-CallOk [] h = tt
own_calls-CallOk (c ∷ rest) h =
    if_cases (All CallOk) c.provider_executed (λ _. own_calls-CallOk rest h.1)
      (λ _. (h.0, own_calls-CallOk rest h.1))

pub execute_agent_tools-Valid :
    (lib : Library) (rounds : ℕ) (input : AgentInput) (write_records : Bool)
    (messages : List Message) (calls : List AgentToolCall)
    → All CallOk calls
    → Valid Anyway (execute_agent_tools lib rounds input write_records messages calls)
unfolding execute_agent_tools
execute_agent_tools-Valid lib rounds input write_records messages calls h =
    if_cases (Valid Anyway) (input.tool_execution == tool_execution_sequential)
      (λ _. sequential-Valid execute each (own_calls calls) (own_calls-CallOk calls h))
      (λ _. parallel-Valid execute each (own_calls calls) (own_calls-CallOk calls h))
  where
    execute : AgentToolCall → Flow InvokeToolResult
    execute c = execute_one_agent_tool lib input c rounds write_records messages

    each : (c : AgentToolCall) → CallOk c → Valid Anyway (execute c)
    each c k = execute_one_agent_tool-Valid lib input c k rounds write_records messages
