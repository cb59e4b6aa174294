-- ===== src/Agents/Execution.antt =====
-- The tool calls of one step (temporalai/agent.go): one after the other, or each in a coroutine of its
-- own that sends its result, with the call's index, to a channel. After the first error in the channel
-- the workflow goes on at once, and what the other coroutines still do is left out.
use go_temporal_ai_sdk.Prelude.{
  ℕ, zero, suc, String, Bool, none, List, [], ◌∷◌, ◌==◌, if◌then◌else◌,
}
use go_temporal_ai_sdk.Agents.Types.{AgentInput, AgentToolCall, InvokeToolResult, Message}
use go_temporal_ai_sdk.Agents.Flow.{Flow, done, waiting, together, ◌>>=◌}
use go_temporal_ai_sdk.Agents.Values.{Library}
use go_temporal_ai_sdk.Agents.Tools.{execute_one_agent_tool}

abbrev pub tool_execution_sequential : String
tool_execution_sequential = "sequential"

-- The calls that the provider has not executed.
unfoldable pub own_calls : List AgentToolCall → List AgentToolCall
own_calls [] = []
own_calls (c ∷ rest) =
    let others = own_calls rest in if c.provider_executed then others else c ∷ others

abbrev pub ToolOutcome : Type 0
ToolOutcome = ℕ × InvokeToolResult

-- `results[outcome.index] = *outcome.result`
unfoldable pub store_at : {A : Type 0} → ℕ → A → List A → List A
store_at i a [] = []
store_at zero a (b ∷ rest) = a ∷ rest
store_at (suc i) a (b ∷ rest) = b ∷ store_at i a rest

-- The loop that receives as many outcomes as coroutines were started: a Receive from a channel that
-- nothing more is sent to waits for ever.
unfoldable pub receive_all : {A : Type 0} → ℕ → List (ℕ × A) → List A → Flow (List A)
unfolding store_at
receive_all zero arrived results = done results
receive_all (suc n) [] results = waiting
receive_all (suc n) ((i, a) ∷ rest) results = receive_all n rest (store_at i a results)

-- `make([]activities.InvokeToolResult, count)`
unfoldable pub zeroes : {A : Type 0} → A → ℕ → List A
zeroes zero_value zero = []
zeroes zero_value (suc n) = zero_value ∷ zeroes zero_value n

abbrev pub zero_result : InvokeToolResult
zero_result = record {
  tool_call_id = "";
  tool_name = "";
  input = none;
  output = record { type = ""; value = none; reason = "" };
  result = none;
  is_error = Bool.false;
  dynamic = Bool.false;
  provider_executed = Bool.false;
  preliminary = Bool.false;
  tool_metadata = [];
  provider_metadata = [];
}

abbrev pub count : List AgentToolCall → ℕ
count [] = 0
count (c ∷ rest) = suc (count rest)

-- One execution of a tool call, whatever it is.
module _ (execute : AgentToolCall → Flow InvokeToolResult) where
  unfoldable pub execute_sequential : List AgentToolCall → Flow (List InvokeToolResult)
  unfolding ◌>>=◌
  execute_sequential [] = done []
  execute_sequential (c ∷ rest) = do
    result ← execute c
    results ← execute_sequential rest
    done (result ∷ results)

  unfoldable pub send_outcome : ℕ → AgentToolCall → Flow (List ToolOutcome)
  unfolding ◌>>=◌
  send_outcome i c = execute c >>= λ result. done ((i, result) ∷ [])

  -- The coroutines, and what arrives at the channel.
  unfoldable pub start_all : ℕ → List AgentToolCall → Flow (List ToolOutcome)
  unfolding together send_outcome
  start_all i [] = done []
  start_all i (c ∷ rest) = together (send_outcome i c) (start_all (suc i) rest)

  unfoldable pub execute_parallel : List AgentToolCall → Flow (List InvokeToolResult)
  unfolding start_all receive_all zeroes ◌>>=◌
  execute_parallel calls = start_all 0 calls >>= λ arrived.
      receive_all (count calls) arrived (zeroes zero_result (count calls))

unfoldable pub execute_agent_tools :
    Library
    → ℕ
    → AgentInput
    → Bool
    → List Message
    → List AgentToolCall
    → Flow (List InvokeToolResult)
unfolding execute_sequential execute_parallel execute_one_agent_tool own_calls
execute_agent_tools lib rounds input write_records messages calls =
    let execute : AgentToolCall → Flow InvokeToolResult =
      λ c. execute_one_agent_tool lib input c rounds write_records messages in
    let calls_here = own_calls calls in
    if input.tool_execution == tool_execution_sequential
    then execute_sequential execute calls_here
    else execute_parallel execute calls_here
