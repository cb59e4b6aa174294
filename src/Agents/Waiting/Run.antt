-- ===== src/Agents/Waiting/Run.antt =====
-- RunAgent of temporalai/agent.go returns, for an agent that waits for nobody: one that is no subagent and
-- whose tools require no approval.
use mathlib.Core.Path.{subst}
use go_temporal_ai_sdk.Prelude.{
  sym, ℕ, zero, suc, ℤ, pos, pos_part, ◌+ℤ◌, String, ◌≡◌, refl, Bool, true, false, not, ◌&&◌,
  Option, none, some, List, [], ◌∷◌, ◌++◌, ◌==◌, All, length, arith, if_cases, if◌then◌else◌,
}
use go_temporal_ai_sdk.Updates.Types.{PreviewReceipt}
use go_temporal_ai_sdk.Agents.Types.{
  AgentInput, AgentResult, AgentStep, AgentToolCall, CallOptions, StreamResult, InvokeToolResult,
  Message, SubagentExecutionContext, SubagentSnapshot, ToolArtifactPolicy, ToolDefinition,
}
use go_temporal_ai_sdk.Agents.Flow
use go_temporal_ai_sdk.Agents.Flow.{
  Flow, Reply, Answer, Failure, ok, err, done, fail, waiting, call, give, succeed, attempt, shuffle,
  together, ◌>>=◌, ◌>>◌,
}
use go_temporal_ai_sdk.Agents.Values.{Library}
use go_temporal_ai_sdk.Agents.Records.{stream_id_for, update_stream_id}
use go_temporal_ai_sdk.Agents.Definitions.{find_tool}
use go_temporal_ai_sdk.Agents.Tools.{needs_approval, execute_one_agent_tool}
use go_temporal_ai_sdk.Agents.Execution.{
  ToolOutcome, store_at, receive_all, count, own_calls, tool_execution_sequential,
  execute_sequential, send_outcome, start_all, execute_parallel, execute_agent_tools,
}
use go_temporal_ai_sdk.Agents.Monitor.{Anyway}
use go_temporal_ai_sdk.Agents.Order.{Freely, Arrived, start_all-Arrived}
use go_temporal_ai_sdk.Agents.Stream.{generate_result_from_stream}
use go_temporal_ai_sdk.Agents.Progress.{
  step_snapshot, named_by, subagent_record, drain_loop, status_running, snapshot_of,
  publish_progress_to, publish_subagent_progress, publish_subagent_step, drain_subagent_messages,
  receipt_record, is_message_receipt, write_receipts, unless_wrote, write_messages_to,
  write_agent_message_records, step_record,
}
use go_temporal_ai_sdk.Agents.Agent.{
  assistant_message, answered, Next, wants_stream, with_agent_stream_options, invoke_agent_model,
  ask_model, tools_answered, use_tools, after_model, agent_step, agent_loop, max_steps_of,
  workflow_tool_artifact_policy, start_loop, managed, new_subagent_manager, run_agent_loop,
  final_snapshot, report, run_agent,
}
use go_temporal_ai_sdk.Agents.Runs.{World, Exchange, At, exchange, run, end_of}
use go_temporal_ai_sdk.Agents.Waiting.Returns.{
  Unawaited, AnyReply, Returns, bind-Returns_with, anything-Calls, bind-Returns, seq-Returns,
  attempt-Returns, together-Returns, give-Returns, write_record-Returns, stream_id_for-Returns,
  update_stream_id-Returns, execute_one-Returns,
}

module _ (execute : AgentToolCall → Flow InvokeToolResult)
    (each : (c : AgentToolCall) → Returns (execute c)) where
  sequential-Returns : (calls : List AgentToolCall) → Returns (execute_sequential execute calls)
  unfolding execute_sequential
  sequential-Returns [] = tt
  sequential-Returns (c ∷ rest) = bind-Returns (execute c) _ (each c) (λ result.
      bind-Returns (execute_sequential execute rest) _ (sequential-Returns rest) (λ _. tt))

  start_all-Returns : (i : ℕ) (calls : List AgentToolCall) → Returns (start_all execute i calls)
  unfolding start_all send_outcome
  start_all-Returns i [] = tt
  start_all-Returns i (c ∷ rest) =
      together-Returns (send_outcome execute i c) (start_all execute (suc i) rest)
        (bind-Returns (execute c) _ (each c) (λ _. tt)) (start_all-Returns (suc i) rest)

  receive_all-Returns :
      (n : ℕ) (arrived : List ToolOutcome) (results : List InvokeToolResult)
      → length arrived ≡ n
      → Returns (receive_all n arrived results)
  unfolding receive_all
  receive_all-Returns zero arrived results e = tt
  receive_all-Returns (suc n) [] results e = ground (arith, e)
  receive_all-Returns (suc n) (o ∷ rest) results e =
      receive_all-Returns n rest (store_at (o.0) (o.1) results) (ground (arith, e))

  -- As many outcomes are sent as the loop receives.
  parallel-Returns : (calls : List AgentToolCall) → Returns (execute_parallel execute calls)
  unfolding execute_parallel
  parallel-Returns calls =
      bind-Returns_with Freely (Arrived (λ _ _. Unit {0}) 0 calls) Anyway
        (start_all execute 0 calls) _
        (start_all-Arrived (λ _ _. Unit {0}) AnyReply execute
          (λ c. anything-Calls Freely (λ _. tt) (execute c)) 0 calls)
        (start_all-Returns 0 calls) (λ arrived h. receive_all-Returns (count calls) arrived _ h.2)

-- No tool requires approval.
abbrev pub Free : ToolDefinition → Type 0
Free d = d.requires_approval ≡ false

find_tool-Free :
    (lib : Library) (input : AgentInput) (c : AgentToolCall) (tools : List ToolDefinition)
    → All Free tools
    → needs_approval lib input c (find_tool c.tool_name tools) ≡ false
unfolding find_tool
find_tool-Free lib input c [] h = refl
find_tool-Free lib input c (t ∷ rest) h =
    if_cases (λ o. needs_approval lib input c o ≡ false) (t.name == c.tool_name) (λ _. h.0)
      (λ _. find_tool-Free lib input c rest h.1)

tools-Returns :
    (lib : Library) (rounds : ℕ) (input : AgentInput) (write_records : Bool)
    (messages : List Message) (calls : List AgentToolCall)
    → All Free input.tools
    → input.subagents ≡ []
    → Returns (execute_agent_tools lib rounds input write_records messages calls)
unfolding execute_agent_tools
tools-Returns lib rounds input write_records messages calls free nobody =
    if_cases Returns (input.tool_execution == tool_execution_sequential)
      (λ _. sequential-Returns execute each (own_calls calls))
      (λ _. parallel-Returns execute each (own_calls calls))
  where
    execute : AgentToolCall → Flow InvokeToolResult
    execute c = execute_one_agent_tool lib input c rounds write_records messages

    each : (c : AgentToolCall) → Returns (execute c)
    each c =
        execute_one-Returns lib rounds input c (find_tool-Free lib input c input.tools free)
          write_records messages nobody

write_receipts-Returns :
    (stream_id : String) (receipts : List PreviewReceipt) (wrote : Bool)
    → Returns (write_receipts stream_id receipts wrote)
unfolding write_receipts
write_receipts-Returns stream_id [] wrote = tt
write_receipts-Returns stream_id (r ∷ rest) wrote =
    if_cases Returns (is_message_receipt r)
      (λ _.
        seq-Returns _ (write_receipts stream_id rest true)
          (write_record-Returns stream_id (receipt_record r) r.attempt_id)
          (write_receipts-Returns stream_id rest true))
      (λ _. write_receipts-Returns stream_id rest wrote)

messages-Returns :
    (input : AgentInput) (step : AgentStep) (receipts : List PreviewReceipt)
    → Returns (write_agent_message_records input step receipts)
unfolding write_agent_message_records write_messages_to
messages-Returns input step receipts =
    bind-Returns (update_stream_id input) _ (update_stream_id-Returns input) (λ id.
      if_cases Returns (id == "") (λ _. tt)
        (λ _.
          bind-Returns (write_receipts id receipts false) (unless_wrote input step id)
            (write_receipts-Returns id receipts false)
            (λ wrote.
              if_cases Returns wrote (λ _. tt)
                (λ _. write_record-Returns id (step_record input step id) ""))))

module _ (lib : Library) (rounds : ℕ) (input : AgentInput) where
  streamed-Returns :
      (a : Answer StreamResult)
      → Returns (give a >>= (λ s. done (generate_result_from_stream lib s)))
  unfolding ◌>>=◌
  streamed-Returns (ok s) = tt
  streamed-Returns (err e) = tt

  invoked-Returns : (options : CallOptions) → Returns (invoke_agent_model lib rounds input options)
  unfolding invoke_agent_model ◌>>=◌
  invoked-Returns options =
      if_cases Returns (wants_stream input) (λ _. (tt, streamed-Returns)) (λ _. (tt, give-Returns))

  ask_model-Returns :
      (n : ℤ) (messages : List Message) → Returns (ask_model lib rounds input n messages)
  unfolding ask_model with_agent_stream_options
  ask_model-Returns n messages =
      bind-Returns _ _
        (if_cases Returns (wants_stream input)
          (λ _.
            bind-Returns (stream_id_for input.stream.stream_id) _
              (stream_id_for-Returns input.stream.stream_id) (λ _. tt))
          (λ _. tt))
        (λ options.
          bind-Returns (invoke_agent_model lib rounds input options) _ (invoked-Returns options)
            (λ _. tt))

  publish_to-Returns :
      (execution : SubagentExecutionContext) (s : SubagentSnapshot) (write_records : Bool) (now : ℤ)
      → Returns (publish_progress_to input execution s write_records now)
  unfolding publish_progress_to
  publish_to-Returns execution s write_records now =
      bind-Returns (update_stream_id input) _ (update_stream_id-Returns input) (λ id.
        bind-Returns _ _
          (if_cases Returns (write_records && not (id == ""))
            (λ _. write_record-Returns id (subagent_record input (named_by execution now s)) "")
            (λ _. tt))
          (λ _. (tt, λ r. tt)))

  publish-Returns :
      (s : SubagentSnapshot) (write_records : Bool)
      → Returns (publish_subagent_progress input s write_records)
  unfolding publish_subagent_progress
  publish-Returns s write_records =
      elim input.subagent_execution
        as (λ e. Returns (elim e [
          | none ↦ done tt
          | some execution ↦
              if execution.parent_workflow_id == ""
              then done tt
              else call Flow.now (publish_progress_to input execution s write_records)
        ])) [
          | none ↦ tt
          | some execution ↦
              if_cases Returns (execution.parent_workflow_id == "") (λ _. tt)
                (λ _. (tt, publish_to-Returns execution s write_records))
        ]

  drain-Returns :
      input.subagent_execution ≡ none → Returns (drain_subagent_messages lib rounds input)
  unfolding drain_subagent_messages
  drain-Returns alone =
      subst (λ e. Returns (elim e [ none ↦ done [] | some _ ↦ drain_loop lib rounds [] ]))
        (sym alone) tt

  module _ (alone : input.subagent_execution ≡ none) (free : All Free input.tools)
      (nobody : input.subagents ≡ []) where
    abbrev NextReturns : Next lib rounds → Type 0
    NextReturns next = (m : List Message) (r : AgentResult) → Returns (next m r)

    tools_answered-Returns :
        (next : Next lib rounds) (step : AgentStep) (messages : List Message) (result : AgentResult)
        (results : List InvokeToolResult)
        → NextReturns next
        → Returns (tools_answered lib rounds next step messages result results)
    unfolding tools_answered
    tools_answered-Returns next step messages result [] h = tt
    tools_answered-Returns next step messages result (r ∷ rest) h = h _ _

    use_tools-Returns :
        (next : Next lib rounds) (write_records : Bool) (step : AgentStep) (messages : List Message)
        (result : AgentResult) (calls : List AgentToolCall)
        → NextReturns next
        → Returns (use_tools lib rounds next input write_records step messages result calls)
    unfolding use_tools
    use_tools-Returns next write_records step messages result [] h = tt
    use_tools-Returns next write_records step messages result (c ∷ rest) h =
        bind-Returns (execute_agent_tools lib rounds input write_records messages (c ∷ rest))
          (tools_answered lib rounds next step messages result)
          (tools-Returns lib rounds input write_records messages (c ∷ rest) free nobody)
          (λ results. tools_answered-Returns next step messages result results h)

    after_model-Returns :
        (next : Next lib rounds) (write_records : Bool) (n : ℤ) (asked : List Message)
        (result : AgentResult) (step : AgentStep)
        → NextReturns next
        → Returns (after_model lib rounds next input write_records n asked result step)
    unfolding after_model publish_subagent_step
    after_model-Returns next write_records n asked result step h =
        bind-Returns
          (if write_records
            then write_agent_message_records input step step.model_result.preview_receipts
            else done tt)
          _
          (if_cases Returns write_records
            (λ _. messages-Returns input step step.model_result.preview_receipts) (λ _. tt))
          (λ _.
            bind-Returns (publish_subagent_step input step (n +ℤ pos 2) write_records) _
              (publish-Returns (step_snapshot step (n +ℤ pos 2)) write_records)
              (λ _.
                use_tools-Returns next write_records step
                  (asked ++ assistant_message lib rounds step.model_result ∷ [])
                  (answered lib rounds result step
                    (asked ++ assistant_message lib rounds step.model_result ∷ []))
                  step.tool_calls h))

    agent_loop-Returns :
        (left : ℕ) (write_records : Bool) (n : ℤ) (messages : List Message) (result : AgentResult)
        → Returns (agent_loop lib rounds left input write_records n messages result)
    unfolding agent_loop agent_step
    agent_loop-Returns zero write_records n messages result = tt
    agent_loop-Returns (suc left) write_records n messages result =
        bind-Returns (drain_subagent_messages lib rounds input) _ (drain-Returns alone) (λ drained.
          bind-Returns (ask_model lib rounds input n (messages ++ drained))
            (after_model lib rounds (agent_loop lib rounds left input write_records (n +ℤ pos 1))
              input write_records n (messages ++ drained) result)
            (ask_model-Returns n (messages ++ drained))
            (λ step.
              after_model-Returns (agent_loop lib rounds left input write_records (n +ℤ pos 1))
                write_records n (messages ++ drained) result step
                (agent_loop-Returns left write_records (n +ℤ pos 1))))

policy-Returns : (policy : ToolArtifactPolicy) → Returns (workflow_tool_artifact_policy policy)
unfolding workflow_tool_artifact_policy
policy-Returns policy =
    if_cases Returns policy.enabled
      (λ _. (tt, λ versioned. if_cases Returns versioned (λ _. (tt, λ e. tt)) (λ _. tt))) (λ _. tt)

end_of-Returns :
    {A : Type 0} (world : World) (past : List Exchange) (m : Flow A)
    → Returns m
    → (a : Answer A) × (end_of world past m ≡ some a)
unfolding end_of
end_of-Returns world past (done a) h = (ok a, refl)
end_of-Returns world past (fail e) h = (err e, refl)
end_of-Returns world past waiting h = absurd h
end_of-Returns world past (call c next) h =
    end_of-Returns world (exchange world past c ∷ past) (next (world past c)) (h.1 (world past c))

run-Returns :
    {A : Type 0} (world : World) (past : List Exchange) (m : Flow A)
    → Returns m
    → All (At Unawaited) (run world past m)
unfolding run
run-Returns world past (done a) h = tt
run-Returns world past (fail e) h = tt
run-Returns world past waiting h = tt
run-Returns world past (call c next) h = (
  h.0,
  run-Returns world (exchange world past c ∷ past) (next (world past c)) (h.1 (world past c)),
)

module _ (lib : Library) (rounds : ℕ) (input : AgentInput) (alone : input.subagent_execution ≡ none)
    (free : All Free input.tools) (nobody : input.subagents ≡ []) where
  managed-Returns :
      (write_records : Bool) (e : Option Failure)
      → Returns (managed lib rounds input write_records e)
  managed-Returns write_records (some e) = tt
  managed-Returns write_records none =
      bind-Returns (workflow_tool_artifact_policy input.tool_artifacts)
        (start_loop lib rounds input write_records) (policy-Returns input.tool_artifacts)
        (λ policy.
          agent_loop-Returns lib rounds (record input { tool_artifacts = policy }) alone free nobody
            (pos_part (max_steps_of input)) write_records (pos 0) _ _)

  run_agent_loop-Returns :
      (write_records : Bool) → Returns (run_agent_loop lib rounds input write_records)
  unfolding run_agent_loop
  run_agent_loop-Returns write_records =
      if_cases Returns (input.model_id == "") (λ _. tt)
        (λ _. managed-Returns write_records (new_subagent_manager lib input))

  report-Returns :
      (write_records : Bool) (a : Answer AgentResult)
      → Returns (report lib rounds input write_records a)
  unfolding report
  report-Returns write_records (ok r) =
      seq-Returns _ (done r)
        (publish-Returns lib rounds input (final_snapshot (ok r)) write_records) tt
  report-Returns write_records (err e) =
      seq-Returns _ (fail e)
        (attempt-Returns _
          (publish-Returns lib rounds input (final_snapshot (err e)) write_records))
        tt

  run_agent-all : Returns (run_agent lib rounds input)
  unfolding run_agent
  run_agent-all = (
    tt,
    λ write_records.
        bind-Returns
          (publish_subagent_progress input (snapshot_of status_running (pos 1)) write_records) _
          (publish-Returns lib rounds input (snapshot_of status_running (pos 1)) write_records)
          (λ _.
            bind-Returns (attempt (run_agent_loop lib rounds input write_records)) _
              (attempt-Returns (run_agent_loop lib rounds input write_records)
                (run_agent_loop-Returns write_records))
              (report-Returns write_records)),
  )

  -- For an agent that is no subagent and has none, and whose tools require no approval, RunAgent waits
  -- for no signal and no subagent, and when each of its calls is answered, whatever the answer is, it
  -- ends with a result or an error. Tool calls in parallel do not block it: the loop that receives their
  -- outcomes receives as many as the coroutines send, in whatever order they run.
  pub run_agent-Returns :
      (world : World)
      → ((a : Answer AgentResult) × (end_of world [] (run_agent lib rounds input) ≡ some a))
        × All (At Unawaited) (run world [] (run_agent lib rounds input))
  run_agent-Returns world = (
    end_of-Returns world [] (run_agent lib rounds input) run_agent-all,
    run-Returns world [] (run_agent lib rounds input) run_agent-all,
  )
