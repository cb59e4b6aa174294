-- ===== src/Agents/Subagents/Sequence.antt =====
-- The sequence number of a subagent (temporalai/subagent.go) grows with every change of its snapshot.
use go_temporal_ai_sdk.Prelude.{
  ◌||◌, ℤ, pos, negsuc, ◌+ℤ◌, ltb_ℤ, String, ◌≡◌, refl, sym, ap, ◌∙◌, true, false, ◌⊎◌, inl, inr,
  Option, none, some, List, [], ◌∷◌, ◌==◌, lookup, insert, lookup-insert, eq_iff, if_cases, arith,
}
use mathlib.Core.Option.{some-injective}
use mathlib.Core.Path.{subst}
use go_temporal_ai_sdk.Agents.Types.{AgentResult, AgentStep, AgentToolCall, SubagentSnapshot}
use go_temporal_ai_sdk.Agents.Flow.{Answer, ok, err}
use go_temporal_ai_sdk.Agents.Values.{Library}
use go_temporal_ai_sdk.Agents.Agent.{last_step}
use go_temporal_ai_sdk.Agents.Subagents.{
  Runtime, Runtimes, without, update_found, update, with_snapshot, merged, apply_snapshot,
  subagent_id_for_call, subagent_workflow_id, started, begun, begin_spawn, running, ended, canceled,
  subagent_terminal, WaitInput, await, wait_on, start_wait, wakes, Step, Steps, began, failed,
  finished, progressed, child_ended, was_canceled, here, further,
}

ltb-next : (n : ℤ) → ltb_ℤ n (n +ℤ pos 1) ≡ true
unfolding ◌+ℤ◌
ltb-next (pos n) = ground arith
ltb-next (negsuc n) = ground arith

ltb_ℤ-trans : (a b c : ℤ) → ltb_ℤ a b ≡ true → ltb_ℤ b c ≡ true → ltb_ℤ a c ≡ true
ltb_ℤ-trans a b c p q = ground arith

-- The same entry, or one with a greater sequence number.
abbrev pub Later : Runtime → Runtime → Type 0
Later r s = (s ≡ r) ⊎ (ltb_ℤ r.snapshot.sequence s.snapshot.sequence ≡ true)

Later-trans : (r s t : Runtime) → Later r s → Later s t → Later r t
Later-trans r s t (inl p) q = subst (λ u. Later u t) p q
Later-trans r s t (inr p) (inl q) =
    inr (subst (λ u. ltb_ℤ r.snapshot.sequence u.snapshot.sequence ≡ true) (sym q) p)
Later-trans r s t (inr p) (inr q) =
    inr (ltb_ℤ-trans r.snapshot.sequence s.snapshot.sequence t.snapshot.sequence p q)

merged-Later :
    (now : ℤ) (s : SubagentSnapshot) (r : Runtime) → Later r (with_snapshot (merged now s) r)
unfolding merged
merged-Later now s r = inr (
    if_cases (λ n. ltb_ℤ r.snapshot.sequence n ≡ true) (ltb_ℤ r.snapshot.sequence s.sequence)
      (λ h. h) (λ _. ltb-next r.snapshot.sequence))

last_step-sequence :
    (steps : List AgentStep) (s : SubagentSnapshot) → (last_step steps s).sequence ≡ s.sequence
last_step-sequence [] s = refl
last_step-sequence (step ∷ []) s = refl
last_step-sequence (step ∷ next ∷ rest) s = last_step-sequence (next ∷ rest) s

ended-Later : (now : ℤ) (a : Answer AgentResult) (r : Runtime) → Later r (ended now a r)
unfolding ended
ended-Later now (err e) r = inr (ltb-next r.snapshot.sequence)
ended-Later now (ok a) r = inr (
    subst (λ n. ltb_ℤ r.snapshot.sequence n ≡ true) (sym (last_step-sequence a.steps _))
      (ltb-next r.snapshot.sequence))

canceled-Later : (reason : String) (now : ℤ) (r : Runtime) → Later r (canceled reason now r)
unfolding canceled
canceled-Later reason now r =
    if_cases (Later r) (subagent_terminal r.snapshot.status) (λ _. inl refl)
      (λ _. inr (ltb-next r.snapshot.sequence))

-- The entry that a later table has for a subagent.
pub record Grown (id : String) (r : Runtime) (m : Runtimes) : Type 0 where
  pub now : Runtime
  pub found : lookup id m ≡ some now
  pub later : Later r now

kept-Grown : (id : String) (r : Runtime) (m : Runtimes) → lookup id m ≡ some r → Grown id r m
kept-Grown id r m h = record { now = r; found = h; later = inl refl }

none≢some : (r : Runtime) → ¬ (none ≡ some r)
none≢some r e = subst (λ o. elim o [ none ↦ Unit {0} | some _ ↦ ⊥ ]) e tt

module _ (id : String) (m : Runtimes) (r : Runtime) (h : lookup id m ≡ some r) where
  update_found-Grown :
      (f : Runtime → Runtime) (name : String) (o : Option Runtime)
      → ((s : Runtime) → Later s (f s))
      → lookup name m ≡ o
      → Grown id r (update_found f name m o)
  update_found-Grown f name none grows e = kept-Grown id r m h
  update_found-Grown f name (some s) grows e =
      if_cases (λ o. lookup id (insert name (f s) m) ≡ o → Grown id r (insert name (f s) m))
        (name == id)
        (λ same p. record {
          now = f s;
          found = p;
          later =
              subst (λ u. Later u (f s))
                (some-injective s r (sym e ∙ ap (λ k. lookup k m) ((eq_iff name id).0 same) ∙ h))
                (grows s);
        })
        (λ _ p. kept-Grown id r (insert name (f s) m) (p ∙ h)) (lookup-insert name id (f s) m)

  update-Grown :
      (f : Runtime → Runtime) (name : String)
      → ((s : Runtime) → Later s (f s))
      → Grown id r (update f name m)
  unfolding update
  update-Grown f name grows = update_found-Grown f name (lookup name m) grows refl

  begun-Grown :
      (c : AgentToolCall) (parent : String) (now : ℤ) (o : Option Runtime)
      → lookup (subagent_id_for_call c) m ≡ o
      → Grown id r (begun c parent now m o)
  begun-Grown c parent now (some s) e = kept-Grown id r m h
  begun-Grown c parent now none e =
      let name = subagent_id_for_call c in
      let new = started c (subagent_workflow_id parent name) now in
      if_cases (λ o. lookup id (insert name new m) ≡ o → Grown id r (insert name new m))
        (name == id)
        (λ same p.
          absurd (none≢some r (sym e ∙ ap (λ k. lookup k m) ((eq_iff name id).0 same) ∙ h)))
        (λ _ p. kept-Grown id r (insert name new m) (p ∙ h)) (lookup-insert name id new m)

lookup-without :
    (id other : String) (m : Runtimes)
    → (other == id) ≡ false
    → lookup id (without other m) ≡ lookup id m
unfolding lookup without
lookup-without id other [] e = refl
lookup-without id other ((name, r) ∷ rest) e =
    ground
      (arith, lookup-without id other rest e, eq_iff name other, eq_iff name id, eq_iff other id)

step-Grown :
    (id : String) (m n : Runtimes) (r : Runtime) → Step id m n → lookup id m ≡ some r → Grown id r n
unfolding apply_snapshot begin_spawn
step-Grown id m n r (began c parent now) h =
    begun-Grown id m r h c parent now (lookup (subagent_id_for_call c) m) refl
step-Grown id m n r (failed other e) h =
    kept-Grown id r (without other m) (lookup-without id other m e ∙ h)
step-Grown id m n r (finished name e now) h =
    update-Grown id m r h (with_snapshot (running e now)) name
      (λ s. inr (ltb-next s.snapshot.sequence))
step-Grown id m n r (progressed now s) h =
    update-Grown id m r h (with_snapshot (merged now s)) s.subagent_id (merged-Later now s)
step-Grown id m n r (child_ended name now a) h =
    update-Grown id m r h (ended now a) name (ended-Later now a)
step-Grown id m n r (was_canceled name reason now) h =
    update-Grown id m r h (canceled reason now) name (canceled-Later reason now)

-- Over any steps of the manager's coroutines, in any order, that do not delete the entry of a subagent,
-- the subagent keeps an entry, and the entry is the same or its sequence number is greater.
pub steps-Grown :
    (id : String) (m n : Runtimes) (r : Runtime)
    → Steps id m n
    → lookup id m ≡ some r
    → Grown id r n
steps-Grown id m n r here h = kept-Grown id r m h
steps-Grown id m n r (further {n = k} s rest) h =
    let first = step-Grown id m k r s h in
    let last = steps-Grown id k n first.now rest first.found in
    record {
      now = last.now;
      found = last.found;
      later = Later-trans r first.now last.now first.later last.later;
    }

awaited-since :
    (lib : Library) (input : WaitInput) (r : Runtime) (since timeout : ℤ)
    → ltb_ℤ (pos 0) input.since_sequence ≡ false
    → wait_on lib input (some r) ≡ await since timeout
    → since ≡ r.snapshot.sequence
awaited-since lib input r since timeout zero w = ground arith

wakes-Later : (r s : Runtime) → Later r s → (s ≡ r) ⊎ (wakes r.snapshot.sequence s ≡ true)
wakes-Later r s (inl p) = inl p
wakes-Later r s (inr p) = inr (ap (λ b. b || subagent_terminal s.snapshot.status) p)

-- The tool wait_subagent, called without a sequence number, misses no change: if it waits, then after
-- any steps of the manager's coroutines that do not delete the subagent's entry, the entry is the one
-- that it began with, or the condition that it waits for holds.
pub start_wait-wakes :
    (lib : Library) (input : WaitInput) (m n : Runtimes) (r s : Runtime) (since timeout : ℤ)
    → Steps input.subagent_id m n
    → lookup input.subagent_id m ≡ some r
    → lookup input.subagent_id n ≡ some s
    → ltb_ℤ (pos 0) input.since_sequence ≡ false
    → start_wait lib input m ≡ await since timeout
    → (s ≡ r) ⊎ (wakes since s ≡ true)
unfolding start_wait
start_wait-wakes lib input m n r s since timeout steps h k zero w =
    let g = steps-Grown input.subagent_id m n r steps h in
    let begun_at =
      awaited-since lib input r since timeout zero (ap (wait_on lib input) (sym h) ∙ w) in
    subst (λ i. (s ≡ r) ⊎ (wakes i s ≡ true)) (sym begun_at)
      (wakes-Later r s (subst (Later r) (some-injective g.now s (sym g.found ∙ k)) g.later))
