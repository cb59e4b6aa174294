-- ===== src/Agents/Consent.antt =====
-- A tool that requires approval runs only after a person approved it (requestToolApproval and
-- executeOneAgentTool of temporalai).
use go_temporal_ai_sdk.Prelude.{
  ℕ, zero, suc, ℤ, pos, ltb_ℤ, String, ◌≡◌, refl, sym, arith, Bool, true, false, not, ◌&&◌, Option,
  none, some, List, [], ◌==◌, if_cases,
}
use go_temporal_ai_sdk.Updates.Types.{WorkflowRecord}
use go_temporal_ai_sdk.Agents.Types.{
  AgentInput, AgentToolCall, InvokeToolResult, Message, ToolApprovalRequest, ToolApprovalResponse,
  ToolApprovalState,
}
use go_temporal_ai_sdk.Agents.Flow
use go_temporal_ai_sdk.Agents.Flow.{
  Call, Reply, Flow, Answer, Failure, ok, err, done, fail, call, give, succeed, attempt, Selected,
  timer, received, nothing, ◌>>=◌, ◌>>◌,
}
use go_temporal_ai_sdk.Agents.Values.{Library}
use go_temporal_ai_sdk.Agents.Records.{write_record, stream_id_for, update_stream_id}
use go_temporal_ai_sdk.Agents.Approval.{
  no_response, selected, wait_loop, write_approval_record, ask_for_approval, request_tool_approval,
  tool_approval_record,
}
use go_temporal_ai_sdk.Agents.Definitions.{agent_tool_definition, tool_execution_boundary}
use go_temporal_ai_sdk.Agents.Tools.{
  Approved, go_ahead, denied, decided, when_recording, write_agent_tool_record, agent_tool_record,
  approval_request, needs_approval, approve_agent_tool, approve_agent_tool_if_required,
  should_fallback, tool_args, tool_answered, run_agent_tool, record_outcome, after_approval,
  execute_own_tool, failed_result,
}
use go_temporal_ai_sdk.Agents.Monitor.{
  Anyway, Answered, Calls, bind-Calls, attempt-Calls, weaken-Calls, map-Calls, Obeys, bind-Obeys,
  attempt-Obeys, weaken-Obeys, Idle, Idle-Obeys,
}
use go_temporal_ai_sdk.Agents.Runs.{World, AllowedAlong, run, run-Obeys}
use mathlib.Core.Path.{subst}

abbrev AnyReply : (c : Call) → Reply c → Type 0
AnyReply c r = Unit {0}

-- The response variable of the approval: each signal that arrives is decoded into it.
abbrev pub heard : ToolApprovalResponse → (c : Call) → Reply c → ToolApprovalResponse
heard s (Flow.select name timeout) (received decode) = decode s
heard s c r = s

abbrev pub Granted : ToolApprovalRequest → ToolApprovalResponse → Type 0
Granted request s = ((s.approval_id == request.approval_id) ≡ true) × (s.approved ≡ true)

-- A tool is called only with a response that is for the request and approves it.
abbrev pub Consented : ToolApprovalRequest → ToolApprovalResponse → Call → Type 0
Consented request s (Flow.invoke_tool boundary args) = Granted request s
Consented request s c = Unit {0}

-- The calls that write a record.
abbrev Writing : Call → Type 0
Writing (Flow.write_record e) = Unit {0}
Writing Flow.now = Unit {0}
Writing Flow.get_info = Unit {0}
Writing c = ⊥

abbrev Writes : {A : Type 0} → Flow A → Type 0
Writes m = Calls AnyReply Writing Anyway Anyway m

succeed-Writes : (a : Option Failure) → Writes (succeed a)
succeed-Writes none = tt
succeed-Writes (some e) = tt

write_record-Writes :
    (stream_id : String) (r : WorkflowRecord) (accepted : String)
    → Writes (write_record stream_id r accepted)
unfolding write_record
write_record-Writes stream_id r accepted =
    if_cases Writes (stream_id == "") (λ _. tt) (λ _. (tt, λ now _. (tt, λ a _. succeed-Writes a)))

update_stream_id-Writes : (input : AgentInput) → Writes (update_stream_id input)
unfolding update_stream_id stream_id_for
update_stream_id-Writes input =
    if_cases Writes
      (not input.stream.visible && input.stream.stream_id == "" && not input.use_streaming_model)
      (λ _. tt)
      (λ _. if_cases Writes (not (input.stream.stream_id == "")) (λ _. tt) (λ _. (tt, λ e _. tt)))

module _ (request : ToolApprovalRequest) where
  abbrev Heeds :
      {A : Type 0} → (ToolApprovalResponse → A → Type 0) → ToolApprovalResponse → Flow A → Type 0
  Heeds Q s m = Obeys AnyReply (Consented request) heard Q (λ _ _. Unit {0}) s m

  bind-Heeds :
      {A B : Type 0} (Q : ToolApprovalResponse → A → Type 0) (R : ToolApprovalResponse → B → Type 0)
      (s : ToolApprovalResponse) (m : Flow A) (f : A → Flow B)
      → Heeds Q s m
      → ((t : ToolApprovalResponse) (a : A) → Q t a → Heeds R t (f a))
      → Heeds R s (m >>= f)
  bind-Heeds Q R s m f h k =
      bind-Obeys AnyReply (Consented request) heard Q R (λ _ _. Unit {0}) s m f h k

  Writing-Idle :
      (s : ToolApprovalResponse) (c : Call)
      → Writing c
      → Idle AnyReply (Consented request) heard s c
  Writing-Idle s (Flow.write_record e) h = (tt, λ _. refl)
  Writing-Idle s Flow.now h = (tt, λ _. refl)
  Writing-Idle s Flow.get_info h = (tt, λ _. refl)
  Writing-Idle s c h = absurd h

  recording_then-Heeds :
      {A B : Type 0} (R : ToolApprovalResponse → B → Type 0) (s : ToolApprovalResponse) (m : Flow A)
      (f : A → Flow B)
      → Writes m
      → ((a : A) → Heeds R s (f a))
      → Heeds R s (m >>= f)
  recording_then-Heeds R s m f h k =
      bind-Heeds (λ t a. t ≡ s) R s m f
        (weaken-Obeys AnyReply (Consented request) heard (λ t a. (t ≡ s) × Unit {0}) (λ t a. t ≡ s)
          (λ t e. (t ≡ s) × Unit {0}) (λ _ _. Unit {0}) s m (λ t a p. p.0) (λ _ _ _. tt)
          (Idle-Obeys AnyReply (Consented request) heard Anyway Anyway s m (
            map-Calls AnyReply Writing (Idle AnyReply (Consented request) heard s) Anyway Anyway m
              (Writing-Idle s) h)))
        (λ t a p. subst (λ u. Heeds R u (f a)) (sym p) (k a))

  -- An approval is the response that was heard last.
  abbrev AsHeard : ToolApprovalResponse → ToolApprovalResponse → Type 0
  AsHeard s r = r.approved ≡ true → Granted request s

  selected-Heeds :
      (current : ToolApprovalResponse) (again : ToolApprovalResponse → Flow ToolApprovalResponse)
      (s : Selected)
      → ((r : ToolApprovalResponse) → Heeds AsHeard r (again r))
      → Heeds AsHeard (heard current (Flow.select "" (pos 0)) s) (selected request current again s)
  unfolding selected
  selected-Heeds current again timer h =
      if_cases (Heeds AsHeard current) (ltb_ℤ (pos 0) request.timeout) (λ _ p. ground arith)
        (λ _. h current)
  selected-Heeds current again (received decode) h =
      if_cases (Heeds AsHeard (decode current))
        ((decode current).approval_id == request.approval_id) (λ e p. (e, p))
        (λ _. h (decode current))
  selected-Heeds current again nothing h = h current

  wait_loop-Heeds :
      (rounds : ℕ) (current : ToolApprovalResponse)
      → Heeds AsHeard current (wait_loop rounds request current)
  unfolding wait_loop
  wait_loop-Heeds zero current = tt
  wait_loop-Heeds (suc rounds) current =
      (tt, λ s _. selected-Heeds current (wait_loop rounds request) s (wait_loop-Heeds rounds))

  write_approval_record-Writes :
      (write_records : Bool) (response : Option ToolApprovalResponse) (version : ℤ)
      → Writes (write_approval_record write_records request response version)
  unfolding write_approval_record
  write_approval_record-Writes write_records response version =
      if_cases Writes (write_records && not (request.stream_id == ""))
        (λ _.
          write_record-Writes request.stream_id (tool_approval_record request response version) "")
        (λ _. tt)

  ask_for_approval-Heeds :
      (rounds : ℕ) (write_records : Bool)
      → Heeds AsHeard no_response (ask_for_approval rounds request write_records)
  unfolding ask_for_approval
  ask_for_approval-Heeds rounds write_records =
      recording_then-Heeds AsHeard no_response
        (write_approval_record write_records request none (pos 1)) _
        (write_approval_record-Writes write_records none (pos 1))
        (λ _.
          bind-Heeds AsHeard AsHeard no_response (wait_loop rounds request no_response) _
            (wait_loop-Heeds rounds no_response)
            (λ t r k.
              recording_then-Heeds AsHeard t
                (write_approval_record write_records request (some r) (pos 2)) (λ _. done r)
                (write_approval_record-Writes write_records (some r) (pos 2)) (λ _. k)))

  request_tool_approval-Heeds :
      (rounds : ℕ) (write_records : Bool)
      → Heeds AsHeard no_response (request_tool_approval rounds request write_records)
  unfolding request_tool_approval
  request_tool_approval-Heeds rounds write_records =
      if_cases (Heeds AsHeard no_response) (request.approval_id == "") (λ _. tt)
        (λ _.
          if_cases (Heeds AsHeard no_response) (request.tool_call_id == "") (λ _. tt)
            (λ _.
              if_cases (Heeds AsHeard no_response) (request.tool_name == "") (λ _. tt)
                (λ _. ask_for_approval-Heeds rounds write_records)))

module _ (lib : Library) (input : AgentInput) (c : AgentToolCall) where
  abbrev pub own_request : ToolApprovalRequest
  own_request = approval_request lib input c ""

  abbrev Hears :
      {A : Type 0} → (ToolApprovalResponse → A → Type 0) → ToolApprovalResponse → Flow A → Type 0
  Hears Q s m = Heeds own_request Q s m

  abbrev Freely : {A : Type 0} → ToolApprovalResponse → A → Type 0
  Freely s a = Unit {0}

  recorded-Writes :
      (write_records : Bool) (result : Option InvokeToolResult) (version : ℤ) (accepted : String)
      → Writes (
          when_recording lib write_records
            (write_agent_tool_record lib input c result version accepted))
  unfolding write_agent_tool_record
  recorded-Writes true result version accepted =
      bind-Calls AnyReply Writing Anyway Anyway Anyway (update_stream_id input) _
        (update_stream_id-Writes input)
        (λ id _. write_record-Writes id (agent_tool_record lib input c result version) accepted)
  recorded-Writes false result version accepted = tt

  abbrev GoesAhead : ToolApprovalResponse → Approved → Type 0
  GoesAhead s (go_ahead approval) = Granted own_request s
  GoesAhead s (denied r) = Unit {0}

  decided-GoesAhead :
      (s r : ToolApprovalResponse) → AsHeard own_request s r → GoesAhead s (decided lib input c r)
  decided-GoesAhead s r h = if_cases (GoesAhead s) r.approved (λ p. h p) (λ _. tt)

  approve_agent_tool-Hears :
      (rounds : ℕ) (write_records : Bool)
      → Hears GoesAhead no_response (approve_agent_tool lib input c rounds write_records)
  unfolding approve_agent_tool
  approve_agent_tool-Hears rounds write_records =
      recording_then-Heeds own_request GoesAhead no_response (update_stream_id input) _
        (update_stream_id-Writes input)
        (λ id.
          bind-Heeds own_request (AsHeard own_request) GoesAhead no_response
            (request_tool_approval rounds (approval_request lib input c id) write_records) _
            (request_tool_approval-Heeds (approval_request lib input c id) rounds write_records)
            (λ t r k. decided-GoesAhead t r k))

  give-Hears : (s : ToolApprovalResponse) (a : Answer InvokeToolResult) → Hears Freely s (give a)
  give-Hears s (ok r) = tt
  give-Hears s (err e) = tt

  tool_answered-Hears :
      (s : ToolApprovalResponse) (messages : List Message) (approval : Option ToolApprovalState)
      (a : Answer InvokeToolResult)
      → Granted own_request s
      → Hears Freely s (
          tool_answered lib input c
            (tool_execution_boundary input c.tool_name)
            (tool_args lib input c messages approval)
            a)
  unfolding tool_answered
  tool_answered-Hears s messages approval (ok r) g = tt
  tool_answered-Hears s messages approval (err e) g =
      if_cases (Hears Freely s)
        (should_fallback lib input c (tool_execution_boundary input c.tool_name) e)
        (λ _. (g, λ r _. give-Hears s r)) (λ _. tt)

  run_agent_tool-Hears :
      (s : ToolApprovalResponse) (messages : List Message) (approval : Option ToolApprovalState)
      → Granted own_request s
      → Hears Freely s (run_agent_tool lib input c messages approval)
  unfolding run_agent_tool
  run_agent_tool-Hears s messages approval g =
      (g, λ a _. tool_answered-Hears s messages approval a g)

  record_outcome-Hears :
      (s : ToolApprovalResponse) (write_records : Bool) (a : Answer InvokeToolResult)
      → Hears Freely s (record_outcome lib input c write_records a)
  unfolding record_outcome ◌>>◌
  record_outcome-Hears s write_records (ok r) =
      recording_then-Heeds own_request Freely s _ (λ _. done r)
        (recorded-Writes write_records (some r) (pos 2) "") (λ _. tt)
  record_outcome-Hears s write_records (err e) =
      recording_then-Heeds own_request Freely s _ (λ _. fail e)
        (weaken-Calls AnyReply Writing (Answered Anyway Anyway) Anyway Anyway Anyway
          (attempt (
            when_recording lib write_records
              (write_agent_tool_record lib input c (some (failed_result c e)) (pos 2) "")))
          (λ _ _. tt) (λ _ _. tt)
          (attempt-Calls AnyReply Writing Anyway Anyway Anyway
            (when_recording lib write_records
              (write_agent_tool_record lib input c (some (failed_result c e)) (pos 2) ""))
            (recorded-Writes write_records (some (failed_result c e)) (pos 2) "")))
        (λ _. tt)

  after_approval-Hears :
      (s : ToolApprovalResponse) (write_records : Bool) (messages : List Message) (a : Approved)
      → GoesAhead s a
      → Hears Freely s (after_approval lib input c write_records messages a)
  unfolding after_approval ◌>>◌
  after_approval-Hears s write_records messages (denied r) g =
      recording_then-Heeds own_request Freely s _ (λ _. done r)
        (recorded-Writes write_records (some r) (pos 2) "") (λ _. tt)
  after_approval-Hears s write_records messages (go_ahead approval) g =
      bind-Heeds own_request Freely Freely s
        (attempt (run_agent_tool lib input c messages approval))
        (record_outcome lib input c write_records)
        (weaken-Obeys AnyReply (Consented own_request) heard
          (λ t a. Answered (Freely t) (λ _. Unit {0}) a) Freely (λ _ _. Unit {0}) (λ _ _. Unit {0})
          s (attempt (run_agent_tool lib input c messages approval)) (λ _ _ _. tt) (λ _ _ _. tt)
          (attempt-Obeys AnyReply (Consented own_request) heard Freely (λ _ _. Unit {0})
            (λ _ _. Unit {0}) s (run_agent_tool lib input c messages approval)
            (run_agent_tool-Hears s messages approval g)))
        (λ t a _. record_outcome-Hears t write_records a)

  module _ (rounds : ℕ) (write_records : Bool) (messages : List Message)
      (needed : needs_approval lib input c (agent_tool_definition input c.tool_name) ≡ true) where
    required-Hears :
        Hears GoesAhead no_response
          (approve_agent_tool_if_required lib input c rounds write_records)
    unfolding approve_agent_tool_if_required
    required-Hears =
        if_cases (Hears GoesAhead no_response)
          (needs_approval lib input c (agent_tool_definition input c.tool_name))
          (λ _. approve_agent_tool-Hears rounds write_records) (λ e. ground arith)

    execute_own_tool-Hears :
        Hears Freely no_response (execute_own_tool lib input c rounds write_records messages)
    unfolding execute_own_tool ◌>>◌
    execute_own_tool-Hears =
        recording_then-Heeds own_request Freely no_response _ _
          (recorded-Writes write_records none (pos 1) c.accepted_attempt_id)
          (λ _.
            bind-Heeds own_request GoesAhead Freely no_response
              (approve_agent_tool_if_required lib input c rounds write_records)
              (after_approval lib input c write_records messages) required-Hears
              (λ t a g. after_approval-Hears t write_records messages a g))

    -- executeOneAgentTool calls a tool that requires approval only when the response that it heard last
    -- is for this call's approval and approves it, whatever the world answers: with no response, a
    -- denial, a timeout or a response for another approval the tool is not called, also not by the
    -- fallback to an activity. A field that a response leaves out is heard as an earlier response, of this
    -- waiting, has left it.
    pub execute_own_tool-Consented :
        (world : World)
        → AllowedAlong
            (Consented own_request)
            heard
            no_response
            (run world [] (execute_own_tool lib input c rounds write_records messages))
    execute_own_tool-Consented world =
        (run-Obeys AnyReply world (λ _ _. tt) (Consented own_request) heard Freely (λ _ _. Unit {0})
          (execute_own_tool lib input c rounds write_records messages) no_response []
          execute_own_tool-Hears).0
