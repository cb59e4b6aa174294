-- ===== src/Agents/Validity/Progress.antt =====
-- The reports and the messages of a run are valid records (publishSubagentProgress and
-- writeAgentMessageRecords of temporalai/agent.go).
use go_temporal_ai_sdk.Prelude.{
  ℕ, zero, suc, ℤ, pos, ltb_ℤ, String, ◌≡◌, refl, Bool, true, false, not, ◌&&◌, Option, none, some,
  List, [], ◌∷◌, ◌==◌, All, if_cases, if◌then◌else◌,
}
use go_temporal_ai_sdk.Updates.Types.{PreviewReceipt}
use go_temporal_ai_sdk.Updates.Validation.{negative_step}
use go_temporal_ai_sdk.Agents.Types.{
  AgentInput, AgentStep, Message, SubagentExecutionContext, SubagentSnapshot,
}
use go_temporal_ai_sdk.Agents.Flow
use go_temporal_ai_sdk.Agents.Flow.{
  Call, Reply, Flow, Answer, Failure, ok, err, done, fail, waiting, call, give, attempt, together,
  ◌>>=◌, ◌>>◌,
}
use go_temporal_ai_sdk.Agents.Values.{Library}
use go_temporal_ai_sdk.Agents.Records.{update_stream_id, write_record}
use go_temporal_ai_sdk.Agents.Progress.{
  kept, taken, step_snapshot, unless_wrote, named_by, publish_progress_to,
  publish_subagent_progress, publish_subagent_step, drain_loop, drain_subagent_messages,
  receipt_record, is_message_receipt, write_receipts, write_messages_to,
  write_agent_message_records, step_record, subagent_record,
}
use go_temporal_ai_sdk.Agents.Monitor.{Anyway}
use go_temporal_ai_sdk.Agents.Recording.{
  Valid, ReceiptOk, StepOk, write_record-Valid, update_stream_id-Valid, subagent_record-Recordable,
  receipt_record-Recordable, step_record-Recordable,
}
use go_temporal_ai_sdk.Agents.Validity.{bind-Valid, seq-Valid}

module _ (input : AgentInput) (scoped : negative_step input.stream.scope.step_number ≡ false) where
  pub publish-Valid :
      (s : SubagentSnapshot) (write_records : Bool)
      → ltb_ℤ s.sequence (pos 1) ≡ false
      → (s.status == "") ≡ false
      → Valid Anyway (publish_subagent_progress input s write_records)
  unfolding publish_subagent_progress publish_progress_to
  publish-Valid s write_records v t =
      elim input.subagent_execution
        as (λ e. Valid Anyway (elim e [
          | none ↦ done tt
          | some execution ↦
              if execution.parent_workflow_id == ""
              then done tt
              else call Flow.now (publish_progress_to input execution s write_records)
        ])) [
          | none ↦ tt
          | some execution ↦
              if_cases (Valid Anyway) (execution.parent_workflow_id == "") (λ _. tt)
                (λ _. (tt, λ now _. publish_to-Valid execution now))
        ]
    where
      publish_to-Valid :
          (execution : SubagentExecutionContext) (now : ℤ)
          → Valid Anyway (publish_progress_to input execution s write_records now)
      publish_to-Valid execution now =
          bind-Valid (update_stream_id input) _ (update_stream_id-Valid input) written
        where
          written :
              (id : String)
              → Valid Anyway (
                  (if write_records && not (id == "")
                    then write_record id (subagent_record input (named_by execution now s)) ""
                    else done tt)
                  >>= (λ _. call (Flow.signal_parent execution (named_by execution now s)) done))
          written id =
              bind-Valid _ _
                (if_cases (Valid Anyway) (write_records && not (id == ""))
                  (λ _.
                    write_record-Valid id (subagent_record input (named_by execution now s)) ""
                      (subagent_record-Recordable input (named_by execution now s) scoped v t))
                  (λ _. tt))
                (λ _. (tt, λ _ _. tt))

  pub publish_subagent_step-Valid :
      (step : AgentStep) (sequence : ℤ) (write_records : Bool)
      → ltb_ℤ sequence (pos 1) ≡ false
      → Valid Anyway (publish_subagent_step input step sequence write_records)
  unfolding publish_subagent_step
  publish_subagent_step-Valid step sequence write_records v =
      publish-Valid (step_snapshot step sequence) write_records v refl

module _ (lib : Library) where
  taken-Valid :
      (again : List Message → Flow (List Message)) (messages : List Message)
      (received : Option String)
      → ((all : List Message) → Valid Anyway (again all))
      → Valid Anyway (taken lib again messages received)
  taken-Valid again messages none h = tt
  taken-Valid again messages (some content) h = h (kept lib messages content)

  drain_loop-Valid :
      (rounds : ℕ) (messages : List Message) → Valid Anyway (drain_loop lib rounds messages)
  unfolding drain_loop
  drain_loop-Valid zero messages = tt
  drain_loop-Valid (suc rounds) messages = (
    tt,
    λ received _. taken-Valid (drain_loop lib rounds) messages received (drain_loop-Valid rounds),
  )

  pub drain-Valid :
      (rounds : ℕ) (input : AgentInput) → Valid Anyway (drain_subagent_messages lib rounds input)
  unfolding drain_subagent_messages
  drain-Valid rounds input =
      elim input.subagent_execution
        as (λ e. Valid Anyway (elim e [ none ↦ done [] | some _ ↦ drain_loop lib rounds [] ])) [
          | none ↦ tt
          | some _ ↦ drain_loop-Valid rounds []
        ]

write_receipts-Valid :
    (stream_id : String) (receipts : List PreviewReceipt) (wrote : Bool)
    → All ReceiptOk receipts
    → Valid Anyway (write_receipts stream_id receipts wrote)
unfolding write_receipts
write_receipts-Valid stream_id [] wrote h = tt
write_receipts-Valid stream_id (r ∷ rest) wrote h =
    if_cases (Valid Anyway) (is_message_receipt r)
      (λ m.
        seq-Valid _ (write_receipts stream_id rest true)
          (write_record-Valid stream_id (receipt_record r) r.attempt_id
            (receipt_record-Recordable r (h.0 m).0 (h.0 m).1))
          (write_receipts-Valid stream_id rest true h.1))
      (λ _. write_receipts-Valid stream_id rest wrote h.1)

module _ (input : AgentInput) (step : AgentStep) (counted : StepOk step.step_number) where
  unless_wrote-Valid :
      (stream_id : String) (wrote : Bool) → Valid Anyway (unless_wrote input step stream_id wrote)
  unless_wrote-Valid stream_id wrote =
      if_cases (Valid Anyway) wrote (λ _. tt)
        (λ _.
          write_record-Valid stream_id (step_record input step stream_id) ""
            (step_record-Recordable input step stream_id counted))

  pub message_records-Valid :
      (receipts : List PreviewReceipt)
      → All ReceiptOk receipts
      → Valid Anyway (write_agent_message_records input step receipts)
  unfolding write_agent_message_records write_messages_to
  message_records-Valid receipts h =
      bind-Valid (update_stream_id input) _ (update_stream_id-Valid input) (λ id.
        if_cases (Valid Anyway) (id == "") (λ _. tt)
          (λ _.
            bind-Valid (write_receipts id receipts false) _
              (write_receipts-Valid id receipts false h) (unless_wrote-Valid id)))
