-- ===== src/Agents/Flow.antt =====
-- Workflow code as programs: a workflow calls activities, the clock, signals and the subagents, and goes
-- on with the reply. What holds of a program holds whatever the replies are. `waiting` is a workflow
-- that waits for a signal beyond those it was given.
use go_temporal_ai_sdk.Prelude.{
  ℤ, String, Bool, false, Option, none, some, List, [], ◌∷◌, if◌then◌else◌,
}
use go_temporal_ai_sdk.Updates.Types.{RecordUpsertEvent, StreamEndEvent}
use go_temporal_ai_sdk.Agents.Types.{
  CallOptions, GenerateResult, StreamResult, ToolExecutionBoundary, InvokeToolArgs,
  InvokeToolResult, AgentToolCall, SubagentExecutionContext, SubagentSnapshot, ToolApprovalResponse,
}

-- An error: its text, and what temporal.IsTimeoutError says of it.
pub record Failure : Type 0 where
  pub message : String
  pub is_timeout : Bool

abbrev pub error : String → Failure
error message = record { message = message; is_timeout = false }

pub data Answer (A : Type 0) : Type 0 where
  ok : A → Answer A
  err : Failure → Answer A

-- What a Selector finds ready: the timer, a signal, or neither of them. A signal is what Receive makes of
-- the variable that it decodes into.
pub data Selected : Type 0 where
  timer : Selected
  received : (ToolApprovalResponse → ToolApprovalResponse) → Selected
  nothing : Selected

pub record Execution : Type 0 where
  pub id : String
  pub run_id : String

-- The calls of a workflow. `invoke_model` and `invoke_model_stream` are InvokeModel and
-- InvokeModelStream, with the conversions to go-ai's types and back left to the activity; `schedule`
-- is the dispatcher's choice between two coroutines, and `ask_subagents` a call of the subagent
-- manager, which may leave a tool call unhandled.
pub data Call : Type 0 where
  write_record : RecordUpsertEvent → Call
  end_stream : StreamEndEvent → Call
  now : Call
  get_version : String → Call
  get_info : Call
  invoke_model : String → CallOptions → Call
  invoke_model_stream : String → CallOptions → Call
  invoke_tool : ToolExecutionBoundary → InvokeToolArgs → Call
  select : String → ℤ → Call
  receive_message : Call
  signal_parent : SubagentExecutionContext → SubagentSnapshot → Call
  ask_subagents : AgentToolCall → Call
  schedule : Call

-- `get_version` says whether the version is another than workflow.DefaultVersion.
abbrev pub Reply : Call → Type 0
Reply (write_record e) = Option Failure
Reply (end_stream e) = Option Failure
Reply now = ℤ
Reply (get_version change) = Bool
Reply get_info = Execution
Reply (invoke_model id options) = Answer GenerateResult
Reply (invoke_model_stream id options) = Answer StreamResult
Reply (invoke_tool boundary args) = Answer InvokeToolResult
Reply (select name timeout) = Selected
Reply receive_message = Option String
Reply (signal_parent parent snapshot) = Unit {0}
Reply (ask_subagents c) = Option (Answer InvokeToolResult)
Reply schedule = Bool

pub data Flow (A : Type 0) : Type 0 where
  done : A → Flow A
  fail : Failure → Flow A
  waiting : Flow A
  call : (c : Call) → (Reply c → Flow A) → Flow A

infixl 5 ◌>>=◌ ◌>>◌
unfoldable pub ◌>>=◌ : {A B : Type 0} → Flow A → (A → Flow B) → Flow B
done a >>= f = f a
fail e >>= f = fail e
waiting >>= f = waiting
call c next >>= f = call c (λ r. next r >>= f)

unfoldable pub ◌>>◌ : {A B : Type 0} → Flow A → Flow B → Flow B
m >> k = m >>= λ _. k

abbrev pub ask : (c : Call) → Flow (Reply c)
ask c = call c done

-- `if err != nil { return err }`
abbrev pub give : {A : Type 0} → Answer A → Flow A
give (ok a) = done a
give (err e) = fail e

abbrev pub succeed : Option Failure → Flow (Unit {0})
succeed none = done tt
succeed (some e) = fail e

-- The result of a program, or its error as a value.
unfoldable pub attempt : {A : Type 0} → Flow A → Flow (Answer A)
attempt (done a) = done (ok a)
attempt (fail e) = done (err e)
attempt waiting = waiting
attempt (call c next) = call c (λ r. attempt (next r))

-- Two sequences of arrivals, in any order of the two.
unfoldable pub shuffle : {A : Type 0} → List A → List A → Flow (List A)
shuffle [] ys = done ys
shuffle (x ∷ xs) [] = done (x ∷ xs)
shuffle (x ∷ xs) (y ∷ ys) = call schedule λ left.
    if left
    then shuffle xs (y ∷ ys) >>= (λ rest. done (x ∷ rest))
    else shuffle (x ∷ xs) ys >>= (λ rest. done (y ∷ rest))

-- Two coroutines, whose calls the dispatcher interleaves, and what they send to one channel. The first
-- error ends both.
unfoldable pub together : {A : Type 0} → Flow (List A) → Flow (List A) → Flow (List A)
unfolding shuffle
together (fail e) q = fail e
together (done xs) q = q >>= shuffle xs
together waiting q = q >> waiting
together (call c next) (fail e) = fail e
together (call c next) (done ys) = call c next >>= λ xs. shuffle xs ys
together (call c next) waiting = call c next >> waiting
together (call c next) (call d after) = call schedule λ left.
    if left
    then call c (λ r. together (next r) (call d after))
    else call d (λ r. together (call c next) (after r))
