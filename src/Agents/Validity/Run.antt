-- ===== src/Agents/Validity/Run.antt =====
-- The events that a run of an agent writes, from its first to its last, are valid (RunAgent of
-- temporalai/agent.go).
use go_temporal_ai_sdk.Prelude.{
  +ℤ-pos, sym, is_negative, zero, suc, ◌+◌, ◌≤◌, ◌<◌, ap, ◌∙◌, ℕ, zero, suc, ℤ, pos, ◌+ℤ◌, ltb_ℤ,
  pos_part, ◌≡◌, refl, Bool, false, Option, none, some, List, [], ◌∷◌, ◌++◌, ◌==◌, All, arith,
  if_cases, if◌then◌else◌,
}
use go_temporal_ai_sdk.Updates.Validation.{negative_step}
use go_temporal_ai_sdk.Agents.Types.{
  AgentInput, AgentResult, AgentStep, AgentToolCall, InvokeToolResult, Message, SubagentSnapshot,
  ToolArtifactPolicy,
}
use go_temporal_ai_sdk.Agents.Flow.{Answer, Failure, ok, err, done, fail, attempt}
use go_temporal_ai_sdk.Agents.Values.{Library}
use go_temporal_ai_sdk.Agents.Execution.{execute_agent_tools}
use go_temporal_ai_sdk.Agents.Progress.{
  status_running, snapshot_of, publish_subagent_progress, publish_subagent_step,
  drain_subagent_messages, write_agent_message_records,
}
use go_temporal_ai_sdk.Agents.Agent.{
  Next, ask_model, assistant_message, answered, after_model, tools_answered, use_tools, agent_step,
  agent_loop, max_steps_of, workflow_tool_artifact_policy, start_loop, managed,
  new_subagent_manager, run_agent_loop, completed_snapshot, last_step, final_snapshot, report,
  run_agent,
}
use go_temporal_ai_sdk.Agents.Monitor.{Anyway}
use go_temporal_ai_sdk.Agents.Recording.{GoodReply, Valid}
use go_temporal_ai_sdk.Agents.Validity.Execution.{execute_agent_tools-Valid}
use go_temporal_ai_sdk.Agents.Validity.Progress.{
  publish-Valid, publish_subagent_step-Valid, drain-Valid, message_records-Valid,
}
use mathlib.Core.Path.{subst}
use go_temporal_ai_sdk.Agents.Flow.{Call, ◌>>◌}
use go_temporal_ai_sdk.Agents.Monitor.{Answered, attempt-Obeys}
use go_temporal_ai_sdk.Agents.Recording.{WritesValid}
use go_temporal_ai_sdk.Agents.Runs.{
  Exchange, At, AllowedAlong, World, Ended, run, end_of, run-Obeys,
}
use go_temporal_ai_sdk.Agents.Validity.Steering.{
  counted, model_calls, Within, Steered, bind-Steered, side_then-Steered, along-WritesValid,
  along-bounded,
}
use go_temporal_ai_sdk.Agents.Validity.Steps.{StepKept, sequence-versioned, ask_model-Steered}
use go_temporal_ai_sdk.Agents.Validity.{CallOk, attempt-Valid}

last_step-kept :
    (steps : List AgentStep) (s : SubagentSnapshot)
    → ((last_step steps s).sequence ≡ s.sequence) × ((last_step steps s).status ≡ s.status)
last_step-kept [] s = (refl, refl)
last_step-kept (step ∷ []) s = (refl, refl)
last_step-kept (step ∷ next ∷ rest) s = last_step-kept (next ∷ rest) s

final-given :
    (a : Answer AgentResult)
    → (ltb_ℤ (final_snapshot a).sequence (pos 1) ≡ false)
      × (((final_snapshot a).status == "") ≡ false)
unfolding final_snapshot
final-given (ok r) =
    let kept = last_step-kept r.steps (completed_snapshot r) in
    (ap (λ n. ltb_ℤ n (pos 1)) kept.0 ∙ ground arith, ap (λ s. s == "") kept.1 ∙ refl)
final-given (err e) = (refl, refl)

-- The steps have the numbers from the first one on, and the last number is the one after them.
abbrev pub Numbered : ℕ → ℕ → List AgentStep → Type 0
Numbered first last [] = first ≡ last
Numbered first last (step ∷ rest) = (step.step_number ≡ pos first) × Numbered (suc first) last rest

Numbered-append :
    (first last : ℕ) (steps : List AgentStep) (step : AgentStep)
    → Numbered first last steps
    → step.step_number ≡ pos last
    → Numbered first (suc last) (steps ++ step ∷ [])
Numbered-append first last [] step h n = (n ∙ ap pos (sym h), ap suc h)
Numbered-append first last (s ∷ rest) step h n =
    (h.0, Numbered-append (suc first) last rest step h.1 n)

-- A result whose steps are as many as there were calls of models.
abbrev pub Made : ℕ → AgentResult → Type 0
Made s r = Numbered 0 s r.steps

module _ (most : ℕ) (lib : Library) (rounds : ℕ) where
  module _ (input : AgentInput)
      (scoped : negative_step input.stream.scope.step_number ≡ false) where
    tools_answered-Steered :
        (s : ℕ) (next : Next lib rounds) (step : AgentStep) (messages : List Message)
        (result : AgentResult) (results : List InvokeToolResult)
        → Made s result
        → step.step_number ≡ pos s
        → ((m : List Message) (r : AgentResult)
            → Made (suc s) r
            → Steered most Made (suc s) (next m r))
        → Steered most Made (suc s) (tools_answered lib rounds next step messages result results)
    unfolding tools_answered
    tools_answered-Steered s next step messages result [] made n h =
        Numbered-append 0 s result.steps step made n
    tools_answered-Steered s next step messages result (r ∷ rest) made n h =
        h _ _ (Numbered-append 0 s result.steps (record step { tool_results = r ∷ rest }) made n)

    use_tools-Steered :
        (s : ℕ) (next : Next lib rounds) (write_records : Bool) (step : AgentStep)
        (messages : List Message) (result : AgentResult) (calls : List AgentToolCall)
        → Made s result
        → step.step_number ≡ pos s
        → ((m : List Message) (r : AgentResult)
            → Made (suc s) r
            → Steered most Made (suc s) (next m r))
        → All CallOk calls
        → Steered most Made
            (suc s)
            (use_tools lib rounds next input write_records step messages result calls)
    unfolding use_tools
    use_tools-Steered s next write_records step messages result [] made n h k =
        Numbered-append 0 s result.steps step made n
    use_tools-Steered s next write_records step messages result (c ∷ rest) made n h k =
        side_then-Steered most Made (suc s)
          (execute_agent_tools lib rounds input write_records messages (c ∷ rest))
          (tools_answered lib rounds next step messages result)
          (execute_agent_tools-Valid lib rounds input write_records messages (c ∷ rest) k)
          (λ results. tools_answered-Steered s next step messages result results made n h)

    recorded-Valid :
        (write_records : Bool) (n : ℤ) (step : AgentStep)
        → StepKept n step
        → Valid Anyway (
            if write_records
            then write_agent_message_records input step step.model_result.preview_receipts
            else done tt)
    recorded-Valid write_records n step k =
        if_cases (Valid Anyway) write_records
          (λ _.
            message_records-Valid input step k.counted step.model_result.preview_receipts
              k.receipts_ok)
          (λ _. tt)

    after_model-Steered :
        (s : ℕ) (next : Next lib rounds) (write_records : Bool) (n : ℤ) (asked : List Message)
        (result : AgentResult) (step : AgentStep)
        → n ≡ pos s
        → Made s result
        → ((m : List Message) (r : AgentResult)
            → Made (suc s) r
            → Steered most Made (suc s) (next m r))
        → StepKept n step
        → Steered most Made
            (suc s)
            (after_model lib rounds next input write_records n asked result step)
    unfolding after_model
    after_model-Steered s next write_records n asked result step at made h k =
        let heard : List Message = asked ++ assistant_message lib rounds step.model_result ∷ [] in
        side_then-Steered most Made (suc s)
          (if write_records
            then write_agent_message_records input step step.model_result.preview_receipts
            else done tt)
          _ (recorded-Valid write_records n step k)
          (λ _.
            side_then-Steered most Made (suc s)
              (publish_subagent_step input step (n +ℤ pos 2) write_records) _
              (publish_subagent_step-Valid input scoped step (n +ℤ pos 2) write_records
                (sequence-versioned n (ap is_negative at)))
              (λ _.
                use_tools-Steered s next write_records step heard
                  (answered lib rounds result step heard) step.tool_calls made (k.numbered ∙ at) h
                  k.calls_ok))

    agent_step-Steered :
        (s : ℕ) (next : Next lib rounds) (write_records : Bool) (n : ℤ) (messages : List Message)
        (result : AgentResult)
        → s < most
        → n ≡ pos s
        → Made s result
        → ((m : List Message) (r : AgentResult)
            → Made (suc s) r
            → Steered most Made (suc s) (next m r))
        → Steered most Made s (agent_step lib rounds next input write_records n messages result)
    unfolding agent_step
    agent_step-Steered s next write_records n messages result room at made h =
        side_then-Steered most Made s (drain_subagent_messages lib rounds input) _
          (drain-Valid lib rounds input)
          (λ drained.
            bind-Steered most (λ t step. (t ≡ suc s) × StepKept n step) Made s
              (ask_model lib rounds input n (messages ++ drained))
              (after_model lib rounds next input write_records n (messages ++ drained) result)
              (ask_model-Steered most lib rounds input s room n (messages ++ drained)
                (ap is_negative at))
              (λ t step k.
                subst
                  (λ u. Steered most Made u (
                    after_model lib rounds next input write_records n (messages ++ drained) result
                      step))
                  (sym k.0)
                  (after_model-Steered s next write_records n (messages ++ drained) result step at
                    made h k.1)))

    agent_loop-Steered :
        (left s : ℕ) (write_records : Bool) (n : ℤ) (messages : List Message) (result : AgentResult)
        → s + left ≤ most
        → n ≡ pos s
        → Made s result
        → Steered most Made s (agent_loop lib rounds left input write_records n messages result)
    unfolding agent_loop
    agent_loop-Steered zero s write_records n messages result p at made = made
    agent_loop-Steered (suc left) s write_records n messages result p at made =
        agent_step-Steered s (agent_loop lib rounds left input write_records (n +ℤ pos 1))
          write_records n messages result (ground arith) at made
          (λ m r k.
            agent_loop-Steered left (suc s) write_records (n +ℤ pos 1) m r (ground arith)
              (ap (λ i. i +ℤ pos 1) at ∙ +ℤ-pos s 1 ∙ ap pos (ground arith)) k)

  workflow_policy-Valid :
      (policy : ToolArtifactPolicy) → Valid Anyway (workflow_tool_artifact_policy policy)
  unfolding workflow_tool_artifact_policy
  workflow_policy-Valid policy =
      if_cases (Valid Anyway) policy.enabled
        (λ _.
          (tt, λ versioned _. if_cases (Valid Anyway) versioned (λ _. (tt, λ e _. tt)) (λ _. tt)))
        (λ _. tt)

module _ (lib : Library) (rounds : ℕ) (input : AgentInput)
    (scoped : negative_step input.stream.scope.step_number ≡ false) where
  abbrev steps_allowed : ℕ
  steps_allowed = pos_part (max_steps_of input)

  managed-Steered :
      (write_records : Bool) (e : Option Failure)
      → Steered steps_allowed Made 0 (managed lib rounds input write_records e)
  managed-Steered write_records (some e) = tt
  managed-Steered write_records none =
      side_then-Steered steps_allowed Made 0 (workflow_tool_artifact_policy input.tool_artifacts)
        (start_loop lib rounds input write_records)
        (workflow_policy-Valid steps_allowed lib rounds input.tool_artifacts)
        (λ policy.
          agent_loop-Steered steps_allowed lib rounds (record input { tool_artifacts = policy })
            scoped steps_allowed 0 write_records (pos 0) _ _ (ground arith) refl refl)

  run_agent_loop-Steered :
      (write_records : Bool)
      → Steered steps_allowed Made 0 (run_agent_loop lib rounds input write_records)
  unfolding run_agent_loop
  run_agent_loop-Steered write_records =
      if_cases (Steered steps_allowed Made 0) (input.model_id == "") (λ _. tt)
        (λ _. managed-Steered write_records (new_subagent_manager lib input))

  report-Steered :
      (write_records : Bool) (s : ℕ) (a : Answer AgentResult)
      → Answered (Made s) Anyway a
      → Steered steps_allowed Made s (report lib rounds input write_records a)
  unfolding report ◌>>◌
  report-Steered write_records s (ok r) made =
      side_then-Steered steps_allowed Made s _ (λ _. done r)
        (publish-Valid input scoped (final_snapshot (ok r)) write_records (final-given (ok r)).0
          (final-given (ok r)).1)
        (λ _. made)
  report-Steered write_records s (err e) made =
      side_then-Steered steps_allowed Made s _ (λ _. fail e)
        (attempt-Valid (publish_subagent_progress input (final_snapshot (err e)) write_records) (
          publish-Valid input scoped (final_snapshot (err e)) write_records (final-given (err e)).0
            (final-given (err e)).1))
        (λ _. tt)

  run_agent-Steered : Steered steps_allowed Made 0 (run_agent lib rounds input)
  unfolding run_agent
  run_agent-Steered = (
    tt,
    λ write_records _.
        side_then-Steered steps_allowed Made 0
          (publish_subagent_progress input (snapshot_of status_running (pos 1)) write_records) _
          (publish-Valid input scoped (snapshot_of status_running (pos 1)) write_records refl refl)
          (λ _.
            bind-Steered steps_allowed (λ t a. Answered (Made t) Anyway a) Made 0
              (attempt (run_agent_loop lib rounds input write_records)) _
              (attempt-Obeys GoodReply (Within steps_allowed) counted Made (λ _ _. Unit {0})
                (λ _ _. Unit {0}) 0 (run_agent_loop lib rounds input write_records)
                (run_agent_loop-Steered write_records))
              (λ t a made. report-Steered write_records t a made)),
  )

  module _ (world : World)
      (good : (past : List Exchange) (c : Call) → GoodReply c (world past c)) where
    run_agent-observed :
        AllowedAlong (Within steps_allowed) counted 0 (run world [] (run_agent lib rounds input))
        × Ended Made
            (λ _ _. Unit {0})
            (model_calls (run world [] (run_agent lib rounds input)))
            (end_of world [] (run_agent lib rounds input))
    run_agent-observed =
        run-Obeys GoodReply world good (Within steps_allowed) counted Made (λ _ _. Unit {0})
          (run_agent lib rounds input) 0 [] run_agent-Steered

    -- Every event that RunAgent writes passes ValidateEvent, whatever the models, the tools, the signals
    -- and the order of the coroutines are, if the clock stands after 1970, the stream's scope has no
    -- negative step number, and each receipt that becomes a message names its record and has none
    -- either.
    pub run_agent-WritesValid : All (At WritesValid) (run world [] (run_agent lib rounds input))
    run_agent-WritesValid =
        along-WritesValid steps_allowed 0 (run world [] (run_agent lib rounds input))
          run_agent-observed.0

    -- RunAgent calls a model at most as often as there are steps allowed, 20 by default, and a result that
    -- it returns has one step for each of the calls, numbered from 0, if the clock stands after 1970, the
    -- stream's scope has no negative step number, and each receipt that becomes a message names its
    -- record and has none either.
    pub run_agent-steps :
        (model_calls (run world [] (run_agent lib rounds input)) ≤ steps_allowed)
        × Ended Made
            (λ _ _. Unit {0})
            (model_calls (run world [] (run_agent lib rounds input)))
            (end_of world [] (run_agent lib rounds input))
    run_agent-steps = (
      along-bounded steps_allowed 0 (run world [] (run_agent lib rounds input)) (ground arith)
          run_agent-observed.0,
      run_agent-observed.1,
    )
