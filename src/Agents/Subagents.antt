-- ===== src/Agents/Subagents.antt =====
-- The manager of an agent's subagents (temporalai/subagent.go): its table of running subagents, and what
-- each of its coroutines does to it between two points where it waits. A coroutine's pointer to a
-- runtime is the entry of the table: only the call that started an entry deletes it.
pub mod Sequence
pub mod Names
pub mod Calls
pub mod Routes
use Prim.Native.Char.{code}
use go_temporal_ai_sdk.Prelude.{
  ℤ, pos, ◌+ℤ◌, ltb_ℤ, String, ◌≡◌, Bool, true, false, not, ◌||◌, ◌⊎◌, inl, inr, Option, none, some,
  List, [], ◌∷◌, ◌==◌, eqb, join, lookup, insert, if◌then◌else◌,
}
use go_temporal_ai_sdk.Updates.Types.{Value, str}
use go_temporal_ai_sdk.Relay.Classify.{is_kept}
use go_temporal_ai_sdk.Relay.Complete.{keys, sort_strings}
use go_temporal_ai_sdk.Relay.Part as RelayPart
use go_temporal_ai_sdk.Agents.Types.{
  AgentInput, AgentResult, AgentToolCall, InvokeToolResult, SubagentExecutionContext,
  SubagentSnapshot, ToolDefinition,
}
use go_temporal_ai_sdk.Agents.Flow.{Execution, Failure, error, Answer, ok, err}
use go_temporal_ai_sdk.Agents.Values.{Library}
use go_temporal_ai_sdk.Agents.Records.{or_text}
use go_temporal_ai_sdk.Agents.Definitions.{
  list_subagents, inspect_subagent, wait_subagent, message_subagent, cancel_subagent, find_tool,
}
use go_temporal_ai_sdk.Agents.Execution.{zero_result}
use go_temporal_ai_sdk.Agents.Progress.{
  snapshot_of, status_running, status_completed, status_failed,
}
use go_temporal_ai_sdk.Agents.Agent.{last_step}

abbrev pub status_starting : String
status_starting = "starting"

abbrev pub status_cancelling : String
status_cancelling = "cancelling"

abbrev pub status_canceled : String
status_canceled = "canceled"

abbrev pub subagent_terminal : String → Bool
subagent_terminal s = s == status_completed || s == status_failed || s == status_canceled

-- An entry of the table: the latest snapshot, and the result once there is one.
pub record Runtime : Type 0 where
  pub snapshot : SubagentSnapshot
  pub result : Option AgentResult

abbrev pub Runtimes : Type 0
Runtimes = List (String × Runtime)

unfoldable pub without : String → Runtimes → Runtimes
without id [] = []
without id ((name, r) ∷ rest) =
    let others = without id rest in if name == id then others else (name, r) ∷ others

abbrev update_found : (Runtime → Runtime) → String → Runtimes → Option Runtime → Runtimes
update_found f id m none = m
update_found f id m (some r) = insert id (f r) m

-- An assignment through a runtime of the table.
unfoldable pub update : (Runtime → Runtime) → String → Runtimes → Runtimes
unfolding lookup insert
update f id m = update_found f id m (lookup id m)

abbrev pub with_snapshot : (SubagentSnapshot → SubagentSnapshot) → Runtime → Runtime
with_snapshot f r = record r { snapshot = f r.snapshot }

abbrev or_time : Option ℤ → ℤ → Option ℤ
or_time none now = some now
or_time (some t) now = some t

-- applySnapshot for the runtime that it finds.
unfoldable pub merged : ℤ → SubagentSnapshot → SubagentSnapshot → SubagentSnapshot
merged now s current = record s {
  sequence = if ltb_ℤ current.sequence s.sequence then s.sequence else current.sequence +ℤ pos 1;
  workflow_id = or_text s.workflow_id current.workflow_id;
  run_id = or_text s.run_id current.run_id;
  tool_call_id = or_text s.tool_call_id current.tool_call_id;
  tool_name = or_text s.tool_name current.tool_name;
  updated_at = or_time s.updated_at now;
}

unfoldable pub apply_snapshot : ℤ → SubagentSnapshot → Runtimes → Runtimes
unfolding update merged
apply_snapshot now s m = update (with_snapshot (merged now s)) s.subagent_id m

-- strings.Trim with a dash
unfoldable pub trim_left : String → String
trim_left String.[] = String.[]
trim_left (String.◌∷◌ c s) =
    let rest = trim_left s in if eqb (code c) b'-' then rest else String.◌∷◌ c s

unfoldable pub trim_right : String → String
trim_right String.[] = String.[]
trim_right (String.◌∷◌ c s) =
    let rest = trim_right s in
    if rest == "" then (if eqb (code c) b'-' then "" else String.◌∷◌ c "") else String.◌∷◌ c rest

unfoldable pub dashed : String → String
dashed String.[] = String.[]
dashed (String.◌∷◌ c s) = String.◌∷◌ (if is_kept (code c) then c else "-") (dashed s)

unfoldable pub sanitize_subagent_id : String → String
unfolding trim_left trim_right dashed
sanitize_subagent_id value =
    let result = trim_right (trim_left (dashed value)) in
    if result == "" then "subagent" else result

abbrev pub subagent_id_for_call : AgentToolCall → String
subagent_id_for_call c = sanitize_subagent_id (join (c.tool_name ∷ "-" ∷ c.tool_call_id ∷ []))

abbrev pub subagent_workflow_id : String → String → String
subagent_workflow_id parent id = join (parent ∷ ":subagent:" ∷ id ∷ [])

-- The entry with which spawn begins.
abbrev pub started : AgentToolCall → String → ℤ → Runtime
started c workflow_id now = record {
  snapshot = record (snapshot_of status_starting (pos 1)) {
    subagent_id = subagent_id_for_call c;
    tool_call_id = c.tool_call_id;
    tool_name = c.tool_name;
    workflow_id = workflow_id;
    updated_at = some now;
  };
  result = none;
}

abbrev begun : AgentToolCall → String → ℤ → Runtimes → Option Runtime → Runtimes
begun c parent now m (some r) = m
begun c parent now m none =
    let id = subagent_id_for_call c in insert id (started c (subagent_workflow_id parent id) now) m

-- spawn up to its wait for the child; a call whose subagent is there gets its snapshot.
unfoldable pub begin_spawn : AgentToolCall → String → ℤ → Runtimes → Runtimes
unfolding lookup insert sanitize_subagent_id
begin_spawn c parent now m = begun c parent now m (lookup (subagent_id_for_call c) m)

-- spawn after the child has started.
abbrev pub running : Execution → ℤ → SubagentSnapshot → SubagentSnapshot
running e now s = record s {
  workflow_id = e.id;
  run_id = e.run_id;
  status = status_running;
  sequence = s.sequence +ℤ pos 1;
  updated_at = some now;
}

abbrev pub finish_spawn : String → Execution → ℤ → Runtimes → Runtimes
finish_spawn id e now m = update (with_snapshot (running e now)) id m

abbrev stopped_status : String → String
stopped_status s = if s == status_cancelling then status_canceled else status_failed

abbrev touched : ℤ → SubagentSnapshot → SubagentSnapshot
touched now s = record s { sequence = s.sequence +ℤ pos 1; updated_at = some now }

-- monitor, once the child has ended.
unfoldable pub ended : ℤ → Answer AgentResult → Runtime → Runtime
ended now (err e) r = record r {
  snapshot = record (touched now r.snapshot) {
    status = stopped_status r.snapshot.status;
    error = e.message;
  };
}
ended now (ok a) r = record {
  result = some a;
  snapshot = last_step a.steps (record (touched now r.snapshot) {
    status = status_completed;
    text = a.text;
    finish_reason = a.finish_reason;
  });
}

abbrev pub end_child : String → ℤ → Answer AgentResult → Runtimes → Runtimes
end_child id now a m = update (ended now a) id m

abbrev pub cancelling : String → ℤ → SubagentSnapshot → SubagentSnapshot
cancelling reason now s = record (touched now s) {
  status = status_cancelling;
  error = if reason == "" then s.error else reason;
}

-- cancel for the runtime that it finds; a subagent that has ended is left as it is.
unfoldable pub canceled : String → ℤ → Runtime → Runtime
canceled reason now r =
    if subagent_terminal r.snapshot.status then r else with_snapshot (cancelling reason now) r

abbrev pub cancel : String → String → ℤ → Runtimes → Runtimes
cancel id reason now m = update (canceled reason now) id m

-- The input of the tool wait_subagent; `timeout` is in seconds.
pub record WaitInput : Type 0 where
  pub subagent_id : String
  pub since_sequence : ℤ
  pub timeout_seconds : ℤ

abbrev pub since_of : WaitInput → Runtime → ℤ
since_of input r =
    if ltb_ℤ (pos 0) input.since_sequence then input.since_sequence else r.snapshot.sequence

abbrev pub wait_seconds : WaitInput → ℤ
wait_seconds input = if ltb_ℤ (pos 0) input.timeout_seconds then input.timeout_seconds else pos 30

-- What wait does first: its error, its answer, or how it waits: since which sequence, how long.
pub data Wait : Type 0 where
  refused : Failure → Wait
  at_once : SubagentSnapshot → Wait
  await : ℤ → ℤ → Wait

module _ (lib : Library) where
  abbrev pub not_found : String → Failure
  not_found id = error (join ("subagent " ∷ lib.quote id ∷ " not found" ∷ []))

  abbrev wait_on : WaitInput → Option Runtime → Wait
  wait_on input none = refused (not_found input.subagent_id)
  wait_on input (some r) =
      if subagent_terminal r.snapshot.status
      then at_once r.snapshot
      else await (since_of input r) (wait_seconds input)

  unfoldable pub start_wait : WaitInput → Runtimes → Wait
  unfolding lookup
  start_wait input m = wait_on input (lookup input.subagent_id m)

  abbrev snapshot_or : Failure → Option Runtime → Answer SubagentSnapshot
  snapshot_or e none = err e
  snapshot_or e (some r) = ok r.snapshot

  unfoldable pub inspect : String → Runtimes → Answer SubagentSnapshot
  unfolding lookup
  inspect id m =
      if id == ""
      then err (error "subagentId is required")
      else snapshot_or (not_found id) (lookup id m)

  abbrev refusal : String → String → Option Runtime → Option Failure
  refusal id message none = some (not_found id)
  refusal id message (some r) =
      if lib.trim_space message == ""
      then some (error "message is required")
      else if subagent_terminal r.snapshot.status
      then some (error (join ("subagent " ∷ lib.quote id ∷ " is " ∷ r.snapshot.status ∷ [])))
      else none

  -- What message checks before it signals the child.
  unfoldable pub check_message : String → String → Runtimes → Option Failure
  unfolding lookup
  check_message id message m = refusal id message (lookup id m)

-- The condition that wait waits for.
abbrev pub wakes : ℤ → Runtime → Bool
wakes since r = ltb_ℤ since r.snapshot.sequence || subagent_terminal r.snapshot.status

abbrev pub snapshots_of : List String → Runtimes → List SubagentSnapshot
snapshots_of [] m = []
snapshots_of (id ∷ rest) m = elim (lookup id m) [
  | none ↦ snapshots_of rest m
  | some r ↦ r.snapshot ∷ snapshots_of rest m
]

abbrev names : Runtimes → List String
names [] = []
names ((id, r) ∷ rest) = id ∷ names rest

unfoldable pub list : Runtimes → List SubagentSnapshot
unfolding lookup sort_strings
list m = snapshots_of (sort_strings (names m)) m

-- One step of one of the manager's coroutines that does not delete the entry of `id`.
pub data Step (id : String) : Runtimes → Runtimes → Type 0 where
  began :
      {m : Runtimes} (c : AgentToolCall) (parent : String) (now : ℤ)
      → Step id m (begin_spawn c parent now m)
  failed : {m : Runtimes} (other : String) → (other == id) ≡ false → Step id m (without other m)
  finished :
      {m : Runtimes} (name : String) (e : Execution) (now : ℤ)
      → Step id m (finish_spawn name e now m)
  progressed : {m : Runtimes} (now : ℤ) (s : SubagentSnapshot) → Step id m (apply_snapshot now s m)
  child_ended :
      {m : Runtimes} (name : String) (now : ℤ) (a : Answer AgentResult)
      → Step id m (end_child name now a m)
  was_canceled :
      {m : Runtimes} (name reason : String) (now : ℤ) → Step id m (cancel name reason now m)

pub data Steps (id : String) : Runtimes → Runtimes → Type 0 where
  here : {m : Runtimes} → Steps id m m
  further : {m n o : Runtimes} → Step id m n → Steps id n o → Steps id m o
