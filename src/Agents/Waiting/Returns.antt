-- ===== src/Agents/Waiting/Returns.antt =====
-- A tool call that needs no approval comes to an end (executeOneAgentTool of temporalai/agent.go).
use go_temporal_ai_sdk.Prelude.{
  ℕ, ℤ, pos, String, ◌≡◌, Bool, true, false, not, ◌&&◌, Option, none, some, List, [], ◌∷◌, ◌==◌,
  arith, if_cases,
}
use go_temporal_ai_sdk.Updates.Types.{WorkflowRecord}
use go_temporal_ai_sdk.Agents.Types.{
  AgentInput, AgentToolCall, InvokeToolResult, Message, ToolApprovalState, ToolDefinition,
}
use go_temporal_ai_sdk.Agents.Flow
use go_temporal_ai_sdk.Agents.Flow.{
  Call, Flow, Reply, Answer, Failure, ok, err, done, fail, waiting, call, give, succeed, attempt,
  shuffle, together, ◌>>=◌, ◌>>◌,
}
use go_temporal_ai_sdk.Agents.Monitor.{Calls, Anyway}
use go_temporal_ai_sdk.Agents.Values.{Library}
use go_temporal_ai_sdk.Agents.Records.{write_record, stream_id_for, update_stream_id}
use go_temporal_ai_sdk.Agents.Definitions.{agent_tool_definition, tool_execution_boundary}
use go_temporal_ai_sdk.Agents.Tools.{
  Approved, go_ahead, denied, when_recording, write_agent_tool_record, agent_tool_record,
  needs_approval, approve_agent_tool_if_required, should_fallback, tool_args, tool_answered,
  run_agent_tool, record_outcome, after_approval, execute_own_tool, subagents_answered,
  consult_subagents, execute_one_agent_tool, failed_result,
}

-- The calls that do not wait for a person or for a subagent.
abbrev pub Unawaited : Call → Type 0
Unawaited (Flow.select name timeout) = ⊥
Unawaited (Flow.ask_subagents c) = ⊥
Unawaited c = Unit {0}

-- A program that comes to an end whatever the replies are, and waits for no person and no subagent.
abbrev pub Returns : {A : Type 0} → Flow A → Type 0
Returns (done a) = Unit {0}
Returns (fail e) = Unit {0}
Returns waiting = ⊥
Returns (call c next) = Unawaited c × ((r : Reply c) → Returns (next r))

pub bind-Returns :
    {A B : Type 0} (m : Flow A) (f : A → Flow B)
    → Returns m
    → ((a : A) → Returns (f a))
    → Returns (m >>= f)
unfolding ◌>>=◌
bind-Returns (done a) f h k = k a
bind-Returns (fail e) f h k = tt
bind-Returns waiting f h k = absurd h
bind-Returns (call c next) f h k = (h.0, λ r. bind-Returns (next r) f (h.1 r) k)

-- What is known of the result holds for the replies of every world.
abbrev pub AnyReply : (c : Call) → Reply c → Type 0
AnyReply c r = Unit {0}

pub bind-Returns_with :
    {A B : Type 0} (P : Call → Type 0) (Q : A → Type 0) (E : Failure → Type 0) (m : Flow A)
    (f : A → Flow B)
    → Calls AnyReply P Q E m
    → Returns m
    → ((a : A) → Q a → Returns (f a))
    → Returns (m >>= f)
unfolding ◌>>=◌
bind-Returns_with P Q E (done a) f q h k = k a q
bind-Returns_with P Q E (fail e) f q h k = tt
bind-Returns_with P Q E waiting f q h k = absurd h
bind-Returns_with P Q E (call c next) f q h k =
    (h.0, λ r. bind-Returns_with P Q E (next r) f (q.1 r tt) (h.1 r) k)

pub anything-Calls :
    {A : Type 0} (P : Call → Type 0)
    → ((c : Call) → P c)
    → (m : Flow A) → Calls AnyReply P Anyway Anyway m
anything-Calls P p (done a) = tt
anything-Calls P p (fail e) = tt
anything-Calls P p waiting = tt
anything-Calls P p (call c next) = (p c, λ r _. anything-Calls P p (next r))

pub seq-Returns :
    {A B : Type 0} (m : Flow A) (k : Flow B) → Returns m → Returns k → Returns (m >> k)
unfolding ◌>>◌
seq-Returns m k h g = bind-Returns m (λ _. k) h (λ _. g)

pub attempt-Returns : {A : Type 0} (m : Flow A) → Returns m → Returns (attempt m)
unfolding attempt
attempt-Returns (done a) h = tt
attempt-Returns (fail e) h = tt
attempt-Returns waiting h = h
attempt-Returns (call c next) h = (h.0, λ r. attempt-Returns (next r) (h.1 r))

shuffle-Returns : {A : Type 0} (xs ys : List A) → Returns (shuffle xs ys)
unfolding shuffle
shuffle-Returns [] ys = tt
shuffle-Returns (x ∷ xs) [] = tt
shuffle-Returns (x ∷ xs) (y ∷ ys) = (
  tt,
  λ left.
      if_cases Returns left
        (λ _. bind-Returns (shuffle xs (y ∷ ys)) _ (shuffle-Returns xs (y ∷ ys)) (λ rest. tt))
        (λ _. bind-Returns (shuffle (x ∷ xs) ys) _ (shuffle-Returns (x ∷ xs) ys) (λ rest. tt)),
)

pub together-Returns :
    {A : Type 0} (m k : Flow (List A)) → Returns m → Returns k → Returns (together m k)
unfolding together
together-Returns (fail e) k h g = tt
together-Returns (done xs) k h g = bind-Returns k (shuffle xs) g (shuffle-Returns xs)
together-Returns waiting k h g = absurd h
together-Returns (call c next) (fail e) h g = tt
together-Returns (call c next) (done ys) h g =
    bind-Returns (call c next) (λ xs. shuffle xs ys) h (λ xs. shuffle-Returns xs ys)
together-Returns (call c next) waiting h g = absurd g
together-Returns (call c next) (call d after) h g = (
  tt,
  λ left.
      if_cases Returns left (λ _. (h.0, λ r. together-Returns (next r) (call d after) (h.1 r) g))
        (λ _. (g.0, λ r. together-Returns (call c next) (after r) h (g.1 r))),
)

pub give-Returns : {A : Type 0} (a : Answer A) → Returns (give a)
give-Returns (ok a) = tt
give-Returns (err e) = tt

succeed-Returns : (e : Option Failure) → Returns (succeed e)
succeed-Returns none = tt
succeed-Returns (some e) = tt

pub write_record-Returns :
    (stream_id : String) (r : WorkflowRecord) (accepted : String)
    → Returns (write_record stream_id r accepted)
unfolding write_record
write_record-Returns stream_id r accepted =
    if_cases Returns (stream_id == "") (λ _. tt) (λ _. (tt, λ now. (tt, λ a. succeed-Returns a)))

pub stream_id_for-Returns : (configured : String) → Returns (stream_id_for configured)
unfolding stream_id_for
stream_id_for-Returns configured =
    if_cases Returns (not (configured == "")) (λ _. tt) (λ _. (tt, λ e. tt))

pub update_stream_id-Returns : (input : AgentInput) → Returns (update_stream_id input)
unfolding update_stream_id
update_stream_id-Returns input =
    if_cases Returns
      (not input.stream.visible && input.stream.stream_id == "" && not input.use_streaming_model)
      (λ _. tt) (λ _. stream_id_for-Returns input.stream.stream_id)

module _ (lib : Library) (rounds : ℕ) (input : AgentInput) where
  module _ (c : AgentToolCall)
      (free : needs_approval lib input c (agent_tool_definition input c.tool_name) ≡ false) where
    recorded-Returns :
        (write_records : Bool) (result : Option InvokeToolResult) (version : ℤ) (accepted : String)
        → Returns (
            when_recording lib write_records
              (write_agent_tool_record lib input c result version accepted))
    unfolding write_agent_tool_record
    recorded-Returns true result version accepted =
        bind-Returns (update_stream_id input) _ (update_stream_id-Returns input)
          (λ id. write_record-Returns id (agent_tool_record lib input c result version) accepted)
    recorded-Returns false result version accepted = tt

    record_outcome-Returns :
        (write_records : Bool) (a : Answer InvokeToolResult)
        → Returns (record_outcome lib input c write_records a)
    unfolding record_outcome
    record_outcome-Returns write_records (ok r) =
        seq-Returns _ (done r) (recorded-Returns write_records (some r) (pos 2) "") tt
    record_outcome-Returns write_records (err e) =
        seq-Returns _ (fail e)
          (attempt-Returns _ (recorded-Returns write_records (some (failed_result c e)) (pos 2) ""))
          tt

    tool_answered-Returns :
        (messages : List Message) (approval : Option ToolApprovalState)
        (a : Answer InvokeToolResult)
        → Returns (
            tool_answered lib input c
              (tool_execution_boundary input c.tool_name)
              (tool_args lib input c messages approval)
              a)
    unfolding tool_answered
    tool_answered-Returns messages approval (ok r) = tt
    tool_answered-Returns messages approval (err e) =
        if_cases Returns (should_fallback lib input c (tool_execution_boundary input c.tool_name) e)
          (λ _. (tt, give-Returns)) (λ _. tt)

    after_approval-Returns :
        (write_records : Bool) (messages : List Message) (a : Approved)
        → Returns (after_approval lib input c write_records messages a)
    unfolding after_approval run_agent_tool
    after_approval-Returns write_records messages (denied r) =
        seq-Returns _ (done r) (recorded-Returns write_records (some r) (pos 2) "") tt
    after_approval-Returns write_records messages (go_ahead approval) =
        bind-Returns (attempt (run_agent_tool lib input c messages approval))
          (record_outcome lib input c write_records)
          (attempt-Returns (run_agent_tool lib input c messages approval)
            (tt, tool_answered-Returns messages approval))
          (record_outcome-Returns write_records)

    approval-Returns :
        (write_records : Bool)
        → Returns (approve_agent_tool_if_required lib input c rounds write_records)
    unfolding approve_agent_tool_if_required
    approval-Returns write_records =
        if_cases Returns (needs_approval lib input c (agent_tool_definition input c.tool_name))
          (λ e. ground arith) (λ _. tt)

    answered-Returns :
        (write_records : Bool) (messages : List Message) (a : Option (Answer InvokeToolResult))
        → Returns (subagents_answered lib input c rounds write_records messages a)
    unfolding subagents_answered execute_own_tool
    answered-Returns write_records messages (some a) = give-Returns a
    answered-Returns write_records messages none =
        seq-Returns _ _ (recorded-Returns write_records none (pos 1) c.accepted_attempt_id) (
          bind-Returns (approve_agent_tool_if_required lib input c rounds write_records) _
            (approval-Returns write_records) (after_approval-Returns write_records messages))

    consult-Returns :
        (subagents : List ToolDefinition)
        → subagents ≡ []
        → Returns (consult_subagents lib input c subagents)
    consult-Returns [] e = tt
    consult-Returns (s ∷ rest) e = cc

    pub execute_one-Returns :
        (write_records : Bool) (messages : List Message)
        → input.subagents ≡ []
        → Returns (execute_one_agent_tool lib input c rounds write_records messages)
    unfolding execute_one_agent_tool
    execute_one-Returns write_records messages e =
        bind-Returns (consult_subagents lib input c input.subagents) _
          (consult-Returns input.subagents e) (answered-Returns write_records messages)
