-- ===== src/Agents/Pairing.antt =====
-- Each result of a step's tools carries the identifier of its call (executeAgentTools of
-- temporalai/agent.go).
use go_temporal_ai_sdk.Prelude.{
  ℕ, String, ◌≡◌, refl, Bool, Option, none, some, List, [], ◌∷◌, ◌==◌, if_cases,
}
use go_temporal_ai_sdk.Agents.Types.{
  AgentInput, AgentToolCall, InvokeToolResult, Message, ToolApprovalState, ToolDefinition,
}
use go_temporal_ai_sdk.Agents.Flow
use go_temporal_ai_sdk.Agents.Flow.{
  Call, Reply, Flow, Failure, Answer, ok, err, done, fail, waiting, call, give, attempt, ◌>>=◌,
  ◌>>◌,
}
use go_temporal_ai_sdk.Agents.Values.{Library}
use go_temporal_ai_sdk.Agents.Records.{update_stream_id}
use go_temporal_ai_sdk.Agents.Approval.{request_tool_approval}
use go_temporal_ai_sdk.Agents.Definitions.{agent_tool_definition, tool_execution_boundary}
use go_temporal_ai_sdk.Agents.Tools.{
  Approved, go_ahead, denied, when_recording, write_agent_tool_record, approval_request,
  needs_approval, approve_agent_tool, approve_agent_tool_if_required, should_fallback, tool_args,
  tool_answered, run_agent_tool, record_outcome, after_approval, execute_own_tool,
  subagents_answered, consult_subagents, execute_one_agent_tool, failed_result,
}
use go_temporal_ai_sdk.Agents.Execution.{own_calls, tool_execution_sequential, execute_agent_tools}
use go_temporal_ai_sdk.Agents.Monitor.{Anyway, Answered, Calls, bind-Calls, attempt-Calls}
use go_temporal_ai_sdk.Agents.Runs.{World, Exchange, end_of, end-Calls}
use go_temporal_ai_sdk.Agents.Order.{
  Freely, InOrder, execute_sequential-InOrder, execute_parallel-InOrder,
}

abbrev SameId : String → Answer InvokeToolResult → Type 0
SameId id (ok r) = r.tool_call_id ≡ id
SameId id (err e) = Unit {0}

abbrev HandledSameId : String → Option (Answer InvokeToolResult) → Type 0
HandledSameId id none = Unit {0}
HandledSameId id (some a) = SameId id a

-- The tool activity and the subagents answer with the identifier that they were asked with.
abbrev pub Named : (c : Call) → Reply c → Type 0
Named (Flow.invoke_tool boundary args) a = SameId args.tool_call_id a
Named (Flow.ask_subagents c) a = HandledSameId c.tool_call_id a
Named c r = Unit {0}

abbrev Runs : {A : Type 0} → (A → Type 0) → Flow A → Type 0
Runs Q m = Calls Named Freely Q Anyway m

anything : {A : Type 0} (m : Flow A) → Runs Anyway m
anything (done a) = tt
anything (fail e) = tt
anything waiting = tt
anything (call c next) = (tt, λ r _. anything (next r))

bind-Runs :
    {A B : Type 0} (Q : B → Type 0) (m : Flow A) (f : A → Flow B)
    → ((a : A) → Runs Q (f a))
    → Runs Q (m >>= f)
bind-Runs Q m f h = bind-Calls Named Freely Anyway Q Anyway m f (anything m) (λ a _. h a)

module _ (lib : Library) (input : AgentInput) (c : AgentToolCall) where
  abbrev Own : InvokeToolResult → Type 0
  Own r = r.tool_call_id ≡ c.tool_call_id

  abbrev DeniedOwn : Approved → Type 0
  DeniedOwn (go_ahead approval) = Unit {0}
  DeniedOwn (denied r) = Own r

  approval-Own :
      (rounds : ℕ) (write_records : Bool)
      → Runs DeniedOwn (approve_agent_tool_if_required lib input c rounds write_records)
  unfolding approve_agent_tool_if_required approve_agent_tool
  approval-Own rounds write_records =
      if_cases (Runs DeniedOwn)
        (needs_approval lib input c (agent_tool_definition input c.tool_name))
        (λ _. bind-Runs DeniedOwn (update_stream_id input) _ (λ id.
          bind-Runs DeniedOwn
            (request_tool_approval rounds (approval_request lib input c id) write_records) _
            (λ r. if_cases DeniedOwn r.approved (λ _. tt) (λ _. refl))))
        (λ _. tt)

  give-Own : (a : Answer InvokeToolResult) → SameId c.tool_call_id a → Runs Own (give a)
  give-Own (ok r) h = h
  give-Own (err e) h = tt

  tool_answered-Own :
      (messages : List Message) (approval : Option ToolApprovalState) (a : Answer InvokeToolResult)
      → SameId c.tool_call_id a
      → Runs Own (
          tool_answered lib input c
            (tool_execution_boundary input c.tool_name)
            (tool_args lib input c messages approval)
            a)
  unfolding tool_answered
  tool_answered-Own messages approval (ok r) h = h
  tool_answered-Own messages approval (err e) h =
      if_cases (Runs Own)
        (should_fallback lib input c (tool_execution_boundary input c.tool_name) e)
        (λ _. (tt, give-Own)) (λ _. tt)

  run_agent_tool-Own :
      (messages : List Message) (approval : Option ToolApprovalState)
      → Runs Own (run_agent_tool lib input c messages approval)
  unfolding run_agent_tool
  run_agent_tool-Own messages approval = (tt, tool_answered-Own messages approval)

  record_outcome-Own :
      (write_records : Bool) (a : Answer InvokeToolResult)
      → Answered Own Anyway a
      → Runs Own (record_outcome lib input c write_records a)
  unfolding record_outcome ◌>>◌
  record_outcome-Own write_records (ok r) h =
      bind-Runs Own
        (when_recording lib write_records (write_agent_tool_record lib input c (some r) _ ""))
        (λ _. done r) (λ _. h)
  record_outcome-Own write_records (err e) h =
      bind-Runs Own
        (attempt (
          when_recording lib write_records
            (write_agent_tool_record lib input c (some (failed_result c e)) _ "")))
        (λ _. fail e) (λ _. tt)

  after_approval-Own :
      (write_records : Bool) (messages : List Message) (a : Approved)
      → DeniedOwn a
      → Runs Own (after_approval lib input c write_records messages a)
  unfolding after_approval ◌>>◌
  after_approval-Own write_records messages (denied r) h =
      bind-Runs Own
        (when_recording lib write_records (write_agent_tool_record lib input c (some r) _ ""))
        (λ _. done r) (λ _. h)
  after_approval-Own write_records messages (go_ahead approval) h =
      bind-Calls Named Freely (Answered Own Anyway) Own Anyway
        (attempt (run_agent_tool lib input c messages approval))
        (record_outcome lib input c write_records)
        (attempt-Calls Named Freely Own Anyway Anyway (run_agent_tool lib input c messages approval)
          (run_agent_tool-Own messages approval))
        (record_outcome-Own write_records)

  execute_own_tool-Own :
      (rounds : ℕ) (write_records : Bool) (messages : List Message)
      → Runs Own (execute_own_tool lib input c rounds write_records messages)
  unfolding execute_own_tool ◌>>◌
  execute_own_tool-Own rounds write_records messages =
      bind-Runs Own
        (when_recording lib write_records
          (write_agent_tool_record lib input c none _ c.accepted_attempt_id))
        _
        (λ _.
          bind-Calls Named Freely DeniedOwn Own Anyway
            (approve_agent_tool_if_required lib input c rounds write_records)
            (after_approval lib input c write_records messages) (approval-Own rounds write_records)
            (after_approval-Own write_records messages))

  consult-Own :
      (subagents : List ToolDefinition)
      → Runs (HandledSameId c.tool_call_id) (consult_subagents lib input c subagents)
  consult-Own [] = tt
  consult-Own (s ∷ rest) = (tt, λ a h. h)

  answered-Own :
      (rounds : ℕ) (write_records : Bool) (messages : List Message)
      (a : Option (Answer InvokeToolResult))
      → HandledSameId c.tool_call_id a
      → Runs Own (subagents_answered lib input c rounds write_records messages a)
  unfolding subagents_answered
  answered-Own rounds write_records messages (some a) h = give-Own a h
  answered-Own rounds write_records messages none h =
      execute_own_tool-Own rounds write_records messages

  execute_one-Own :
      (rounds : ℕ) (write_records : Bool) (messages : List Message)
      → Runs Own (execute_one_agent_tool lib input c rounds write_records messages)
  unfolding execute_one_agent_tool
  execute_one-Own rounds write_records messages =
      bind-Calls Named Freely (HandledSameId c.tool_call_id) Own Anyway
        (consult_subagents lib input c input.subagents)
        (subagents_answered lib input c rounds write_records messages) (consult-Own input.subagents)
        (answered-Own rounds write_records messages)

abbrev pub call_ids : List AgentToolCall → List String
call_ids [] = []
call_ids (c ∷ rest) = c.tool_call_id ∷ call_ids rest

abbrev pub result_ids : List InvokeToolResult → List String
result_ids [] = []
result_ids (r ∷ rest) = r.tool_call_id ∷ result_ids rest

abbrev HasId : AgentToolCall → InvokeToolResult → Type 0
HasId c r = r.tool_call_id ≡ c.tool_call_id

ids-InOrder :
    (calls : List AgentToolCall) (results : List InvokeToolResult)
    → InOrder HasId calls results
    → result_ids results ≡ call_ids calls
ids-InOrder [] [] h = refl
ids-InOrder (c ∷ calls) (r ∷ results) h = cc (h.0, ids-InOrder calls results h.1)
ids-InOrder [] (r ∷ results) h = absurd h
ids-InOrder (c ∷ calls) [] h = absurd h

module _ (lib : Library) (rounds : ℕ) (input : AgentInput) (write_records : Bool)
    (messages : List Message) (calls : List AgentToolCall) where
  execute_agent_tools-InOrder :
      Runs
        (InOrder HasId (own_calls calls))
        (execute_agent_tools lib rounds input write_records messages calls)
  unfolding execute_agent_tools
  execute_agent_tools-InOrder =
      if_cases (Runs (InOrder HasId (own_calls calls)))
        (input.tool_execution == tool_execution_sequential)
        (λ _. execute_sequential-InOrder HasId Named execute each (own_calls calls))
        (λ _. execute_parallel-InOrder HasId Named execute each (own_calls calls))
    where
      execute : AgentToolCall → Flow InvokeToolResult
      execute c = execute_one_agent_tool lib input c rounds write_records messages

      each : (c : AgentToolCall) → Runs (HasId c) (execute c)
      each c = execute_one-Own lib input c rounds write_records messages

  -- When executeAgentTools returns results, they are one for each call that the provider has not executed
  -- itself, in the order of the calls, in whatever order the coroutines of parallel calls ran and ended,
  -- if the tool activity and the subagents answer with the identifier of the call.
  pub execute_agent_tools-call_ids :
      (world : World) (results : List InvokeToolResult)
      → ((past : List Exchange) (c : Call) → Named c (world past c))
      → end_of world [] (execute_agent_tools lib rounds input write_records messages calls)
        ≡ some (ok results)
      → result_ids results ≡ call_ids (own_calls calls)
  execute_agent_tools-call_ids world results good e = ids-InOrder (own_calls calls) results (
      end-Calls Named world good Freely (InOrder HasId (own_calls calls)) Anyway
        (execute_agent_tools lib rounds input write_records messages calls) [] results
        execute_agent_tools-InOrder e)
