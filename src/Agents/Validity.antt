-- ===== src/Agents/Validity.antt =====
-- The programs of temporalai write valid events: the approval of a tool, its records and its run.
pub mod Execution
pub mod Progress
pub mod Steering
pub mod Steps
pub mod Run
use go_temporal_ai_sdk.Prelude.{
  ℕ, zero, suc, ℤ, pos, is_negative, ltb_ℤ, String, ◌≡◌, refl, Bool, true, false, not, ◌&&◌, Option,
  none, some, List, [], ◌∷◌, ◌==◌, All, if_cases, if◌then◌else◌,
}
use go_temporal_ai_sdk.Updates.Types.{PreviewReceipt}
use go_temporal_ai_sdk.Updates.Validation.{negative_step}
use go_temporal_ai_sdk.Agents.Types.{
  AgentInput, AgentToolCall, InvokeToolResult, Message, ToolApprovalRequest, ToolApprovalResponse,
  ToolApprovalState, ToolDefinition,
}
use go_temporal_ai_sdk.Agents.Flow
use go_temporal_ai_sdk.Agents.Flow.{
  Call, Reply, Flow, Answer, Failure, ok, err, done, fail, call, give, attempt, schedule, Selected,
  timer, received, nothing, ◌>>=◌, ◌>>◌,
}
use go_temporal_ai_sdk.Agents.Values.{Library}
use go_temporal_ai_sdk.Agents.Records.{update_stream_id, agent_tool_scope}
use go_temporal_ai_sdk.Agents.Approval.{
  selected, wait_loop, no_response, write_approval_record, ask_for_approval, request_tool_approval,
}
use go_temporal_ai_sdk.Agents.Definitions.{agent_tool_definition, tool_execution_boundary}
use go_temporal_ai_sdk.Agents.Tools.{
  Approved, go_ahead, denied, when_recording, write_agent_tool_record, approval_request,
  needs_approval, approve_agent_tool, approve_agent_tool_if_required, should_fallback, tool_args,
  tool_answered, run_agent_tool, record_outcome, after_approval, execute_own_tool,
  subagents_answered, consult_subagents, execute_one_agent_tool, failed_result,
}
use go_temporal_ai_sdk.Agents.Monitor.{
  Anyway, Answered, Calls, bind-Calls, attempt-Calls, weaken-Calls, together-Calls,
}
use go_temporal_ai_sdk.Agents.Recording.{
  GoodReply, SideCall, Valid, StepOk, step_scope-ok, write_record-Valid, update_stream_id-Valid,
  agent_tool_record-Recordable, tool_approval_record-Recordable,
}

module _ {A B : Type 0} where
  pub bind-Valid :
      (m : Flow A) (f : A → Flow B)
      → Valid Anyway m
      → ((a : A) → Valid Anyway (f a))
      → Valid Anyway (m >>= f)
  bind-Valid m f h k = bind-Calls GoodReply SideCall Anyway Anyway Anyway m f h (λ a _. k a)

  pub seq-Valid :
      (m : Flow A) (k : Flow B) → Valid Anyway m → Valid Anyway k → Valid Anyway (m >> k)
  unfolding ◌>>◌
  seq-Valid m k h g = bind-Valid m (λ _. k) h (λ _. g)

answered-Anyway : {A : Type 0} (a : Answer A) → Answered Anyway Anyway a → Unit {0}
answered-Anyway a _ = tt

pub attempt-Valid : {A : Type 0} (m : Flow A) → Valid Anyway m → Valid Anyway (attempt m)
attempt-Valid m h =
    weaken-Calls GoodReply SideCall (Answered Anyway Anyway) Anyway Anyway Anyway (attempt m)
      answered-Anyway (λ _ e. e) (attempt-Calls GoodReply SideCall Anyway Anyway Anyway m h)

pub give-Valid : {A : Type 0} (a : Answer A) → Valid Anyway (give a)
give-Valid (ok a) = tt
give-Valid (err e) = tt

module _ (request : ToolApprovalRequest) where
  selected-Valid :
      (current : ToolApprovalResponse) (again : ToolApprovalResponse → Flow ToolApprovalResponse)
      (s : Selected)
      → ((r : ToolApprovalResponse) → Valid Anyway (again r))
      → Valid Anyway (selected request current again s)
  unfolding selected
  selected-Valid current again timer h =
      if_cases (Valid Anyway) (ltb_ℤ (pos 0) request.timeout) (λ _. tt) (λ _. h current)
  selected-Valid current again (received decode) h =
      if_cases (Valid Anyway) ((decode current).approval_id == request.approval_id) (λ _. tt)
        (λ _. h (decode current))
  selected-Valid current again nothing h = h current

  wait_loop-Valid :
      (rounds : ℕ) (current : ToolApprovalResponse)
      → Valid Anyway (wait_loop rounds request current)
  unfolding wait_loop
  wait_loop-Valid zero current = tt
  wait_loop-Valid (suc rounds) current =
      (tt, λ s _. selected-Valid current (wait_loop rounds request) s (wait_loop-Valid rounds))

  module _ (scoped : negative_step request.scope.step_number ≡ false) where
    write_approval_record-Valid :
        (write_records : Bool) (response : Option ToolApprovalResponse) (version : ℤ)
        → ltb_ℤ version (pos 1) ≡ false
        → Valid Anyway (write_approval_record write_records request response version)
    unfolding write_approval_record
    write_approval_record-Valid write_records response version v =
        if_cases (Valid Anyway) (write_records && not (request.stream_id == ""))
          (λ _.
            write_record-Valid request.stream_id _ ""
              (tool_approval_record-Recordable request response version scoped v))
          (λ _. tt)

    ask_for_approval-Valid :
        (rounds : ℕ) (write_records : Bool)
        → Valid Anyway (ask_for_approval rounds request write_records)
    unfolding ask_for_approval
    ask_for_approval-Valid rounds write_records =
        bind-Valid (write_approval_record write_records request none (pos 1)) _
          (write_approval_record-Valid write_records none (pos 1) refl)
          (λ _.
            bind-Valid (wait_loop rounds request no_response) _ (wait_loop-Valid rounds no_response)
              (λ response.
                bind-Valid (write_approval_record write_records request (some response) (pos 2)) _
                  (write_approval_record-Valid write_records (some response) (pos 2) refl)
                  (λ _. tt)))

    request_tool_approval-Valid :
        (rounds : ℕ) (write_records : Bool)
        → Valid Anyway (request_tool_approval rounds request write_records)
    unfolding request_tool_approval
    request_tool_approval-Valid rounds write_records =
        if_cases (Valid Anyway) (request.approval_id == "") (λ _. tt)
          (λ _.
            if_cases (Valid Anyway) (request.tool_call_id == "") (λ _. tt)
              (λ _.
                if_cases (Valid Anyway) (request.tool_name == "") (λ _. tt)
                  (λ _. ask_for_approval-Valid rounds write_records)))

abbrev pub CallOk : AgentToolCall → Type 0
CallOk c = StepOk c.step_number

module _ (lib : Library) (input : AgentInput) (c : AgentToolCall) (counted : CallOk c) where
  pub tool_scope-ok : negative_step (agent_tool_scope input c).step_number ≡ false
  tool_scope-ok = step_scope-ok input c.step_id c.step_number c.step_type counted

  write_agent_tool_record-Valid :
      (result : Option InvokeToolResult) (version : ℤ) (accepted : String)
      → ltb_ℤ version (pos 1) ≡ false
      → Valid Anyway (write_agent_tool_record lib input c result version accepted)
  unfolding write_agent_tool_record
  write_agent_tool_record-Valid result version accepted v =
      bind-Valid (update_stream_id input) _ (update_stream_id-Valid input) (λ id.
        write_record-Valid id _ accepted
          (agent_tool_record-Recordable lib input c result version counted v))

  recorded-Valid :
      (write_records : Bool) (result : Option InvokeToolResult) (version : ℤ) (accepted : String)
      → ltb_ℤ version (pos 1) ≡ false
      → Valid Anyway (
          when_recording lib write_records
            (write_agent_tool_record lib input c result version accepted))
  recorded-Valid true result version accepted v =
      write_agent_tool_record-Valid result version accepted v
  recorded-Valid false result version accepted v = tt

  approval-Valid :
      (rounds : ℕ) (write_records : Bool)
      → Valid Anyway (approve_agent_tool_if_required lib input c rounds write_records)
  unfolding approve_agent_tool_if_required approve_agent_tool
  approval-Valid rounds write_records =
      if_cases (Valid Anyway) (needs_approval lib input c (agent_tool_definition input c.tool_name))
        (λ _. bind-Valid (update_stream_id input) _ (update_stream_id-Valid input) (λ id.
          bind-Valid (request_tool_approval rounds (approval_request lib input c id) write_records)
            _
            (request_tool_approval-Valid (approval_request lib input c id) tool_scope-ok rounds
              write_records)
            (λ _. tt)))
        (λ _. tt)

  run_agent_tool-Valid :
      (messages : List Message) (approval : Option ToolApprovalState)
      → Valid Anyway (run_agent_tool lib input c messages approval)
  unfolding run_agent_tool tool_answered
  run_agent_tool-Valid messages approval = (tt, λ r _. answered r)
    where
      answered :
          (r : Answer InvokeToolResult)
          → Valid Anyway (
              tool_answered lib input c
                (tool_execution_boundary input c.tool_name)
                (tool_args lib input c messages approval)
                r)
      answered (ok r) = tt
      answered (err e) =
          if_cases (Valid Anyway)
            (should_fallback lib input c (tool_execution_boundary input c.tool_name) e)
            (λ _. (tt, λ r _. give-Valid r)) (λ _. tt)

  record_outcome-Valid :
      (write_records : Bool) (a : Answer InvokeToolResult)
      → Valid Anyway (record_outcome lib input c write_records a)
  unfolding record_outcome
  record_outcome-Valid write_records (ok r) =
      seq-Valid _ (done r) (recorded-Valid write_records (some r) (pos 2) "" refl) tt
  record_outcome-Valid write_records (err e) =
      seq-Valid _ (fail e)
        (attempt-Valid _ (recorded-Valid write_records (some (failed_result c e)) (pos 2) "" refl))
        tt

  after_approval-Valid :
      (write_records : Bool) (messages : List Message) (a : Approved)
      → Valid Anyway (after_approval lib input c write_records messages a)
  unfolding after_approval
  after_approval-Valid write_records messages (denied r) =
      seq-Valid _ (done r) (recorded-Valid write_records (some r) (pos 2) "" refl) tt
  after_approval-Valid write_records messages (go_ahead approval) =
      bind-Valid (attempt (run_agent_tool lib input c messages approval))
        (record_outcome lib input c write_records)
        (attempt-Valid (run_agent_tool lib input c messages approval)
          (run_agent_tool-Valid messages approval))
        (record_outcome-Valid write_records)

  execute_own_tool-Valid :
      (rounds : ℕ) (write_records : Bool) (messages : List Message)
      → Valid Anyway (execute_own_tool lib input c rounds write_records messages)
  unfolding execute_own_tool
  execute_own_tool-Valid rounds write_records messages =
      seq-Valid _ _ (recorded-Valid write_records none (pos 1) c.accepted_attempt_id refl) (
        bind-Valid (approve_agent_tool_if_required lib input c rounds write_records) _
          (approval-Valid rounds write_records) (after_approval-Valid write_records messages))

  consult-Valid :
      (subagents : List ToolDefinition) → Valid Anyway (consult_subagents lib input c subagents)
  consult-Valid [] = tt
  consult-Valid (s ∷ rest) = (tt, λ r _. tt)

  pub execute_one_agent_tool-Valid :
      (rounds : ℕ) (write_records : Bool) (messages : List Message)
      → Valid Anyway (execute_one_agent_tool lib input c rounds write_records messages)
  unfolding execute_one_agent_tool subagents_answered
  execute_one_agent_tool-Valid rounds write_records messages =
      bind-Valid (consult_subagents lib input c input.subagents) _ (consult-Valid input.subagents)
        answered
    where
      answered :
          (a : Option (Answer InvokeToolResult))
          → Valid Anyway (subagents_answered lib input c rounds write_records messages a)
      answered (some a) = give-Valid a
      answered none = execute_own_tool-Valid rounds write_records messages
