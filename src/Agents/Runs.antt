-- ===== src/Agents/Runs.antt =====
-- A run of a workflow program in a world that answers its calls: the calls and their replies in order,
-- and how the program ends. The world may answer by everything that happened before.
use mathlib.Core.Path.{subst}
use mathlib.Core.Option.{some-injective}
use go_temporal_ai_sdk.Prelude.{sym, ap, ◌≡◌, Option, none, some, List, [], ◌∷◌, All}
use go_temporal_ai_sdk.Agents.Flow.{
  Call, Reply, Flow, done, fail, waiting, call, Failure, Answer, ok, err,
}
use go_temporal_ai_sdk.Agents.Monitor.{Calls, Obeys}

pub record Exchange : Type 0 where
  pub asked : Call
  pub replied : Reply asked

-- The latest exchange first.
abbrev pub World : Type 0
World = List Exchange → (c : Call) → Reply c

abbrev pub exchange : World → List Exchange → Call → Exchange
exchange world past c = record { asked = c; replied = world past c }

unfoldable pub run : {A : Type 0} → World → List Exchange → Flow A → List Exchange
run world past (done a) = []
run world past (fail e) = []
run world past waiting = []
run world past (call c next) =
    exchange world past c ∷ run world (exchange world past c ∷ past) (next (world past c))

-- `none` for a program that waits.
unfoldable pub end_of : {A : Type 0} → World → List Exchange → Flow A → Option (Answer A)
end_of world past (done a) = some (ok a)
end_of world past (fail e) = some (err e)
end_of world past waiting = none
end_of world past (call c next) = end_of world (exchange world past c ∷ past) (next (world past c))

abbrev pub At : (Call → Type 0) → Exchange → Type 0
At P e = P e.asked

-- The state of a monitor after a run.
unfoldable pub after : {S : Type 0} → (S → (c : Call) → Reply c → S) → S → List Exchange → S
after step s [] = s
after step s (e ∷ rest) = after step (step s e.asked e.replied) rest

-- Every call is allowed where it is made.
abbrev pub AllowedAlong :
    {S : Type 0} → (S → Call → Type 0) → (S → (c : Call) → Reply c → S) → S → List Exchange → Type 0
AllowedAlong Allowed step s [] = Unit {0}
AllowedAlong Allowed step s (e ∷ rest) =
    Allowed s e.asked × AllowedAlong Allowed step (step s e.asked e.replied) rest

abbrev pub Ended :
    {S A : Type 0} → (S → A → Type 0) → (S → Failure → Type 0) → S → Option (Answer A) → Type 0
Ended Q E s none = Unit {0}
Ended Q E s (some (ok a)) = Q s a
Ended Q E s (some (err e)) = E s e

module _ {A : Type 0} where
  abbrev ok_or : A → Answer A → A
  ok_or d (ok a) = a
  ok_or d (err e) = d

  ok-injective : (a b : A) → ok a ≡ ok b → a ≡ b
  ok-injective a b e = ap (ok_or a) e

  abbrev IsOk : Answer A → Type 0
  IsOk (ok a) = Unit {0}
  IsOk (err e) = ⊥

  err≢ok : (x : Failure) (a : A) → ¬ (err x ≡ ok a)
  err≢ok x a e = subst IsOk (sym e) tt

  none≢some : (a : Answer A) → ¬ (none ≡ some a)
  none≢some a e = subst (λ o. elim o [ none ↦ Unit {0} | some _ ↦ ⊥ ]) e tt

module _ (Good : (c : Call) → Reply c → Type 0) (world : World)
    (good : (past : List Exchange) (c : Call) → Good c (world past c)) where
  pub run-Calls :
      {A : Type 0} (P : Call → Type 0) (Q : A → Type 0) (E : Failure → Type 0) (m : Flow A)
      (past : List Exchange)
      → Calls Good P Q E m
      → All (At P) (run world past m)
  unfolding run
  run-Calls P Q E (done a) past h = tt
  run-Calls P Q E (fail e) past h = tt
  run-Calls P Q E waiting past h = tt
  run-Calls P Q E (call c next) past h = (
    h.0,
    run-Calls P Q E (next (world past c)) (exchange world past c ∷ past)
        (h.1 (world past c) (good past c)),
  )

  -- How a run of such a program ends.
  pub end-Calls :
      {A : Type 0} (P : Call → Type 0) (Q : A → Type 0) (E : Failure → Type 0) (m : Flow A)
      (past : List Exchange) (a : A)
      → Calls Good P Q E m
      → end_of world past m ≡ some (ok a)
      → Q a
  unfolding end_of
  end-Calls P Q E (done b) past a h e =
      subst Q (ok-injective b a (some-injective (ok b) (ok a) e)) h
  end-Calls P Q E (fail x) past a h e = absurd (err≢ok x a (some-injective (err x) (ok a) e))
  end-Calls P Q E waiting past a h e = absurd (none≢some (ok a) e)
  end-Calls P Q E (call c next) past a h e =
      end-Calls P Q E (next (world past c)) (exchange world past c ∷ past) a
        (h.1 (world past c) (good past c)) e

  module _ {S : Type 0} (Allowed : S → Call → Type 0) (step : S → (c : Call) → Reply c → S)
      {A : Type 0} (Q : S → A → Type 0) (E : S → Failure → Type 0) where
    pub run-Obeys :
        (m : Flow A) (s : S) (past : List Exchange)
        → Obeys Good Allowed step Q E s m
        → AllowedAlong Allowed step s (run world past m)
          × Ended Q E (after step s (run world past m)) (end_of world past m)
    unfolding run end_of after
    run-Obeys (done a) s past h = (tt, h)
    run-Obeys (fail e) s past h = (tt, h)
    run-Obeys waiting s past h = (tt, tt)
    run-Obeys (call c next) s past h =
        let later =
          run-Obeys (next (world past c)) (step s c (world past c)) (exchange world past c ∷ past)
            (h.1 (world past c) (good past c)) in
        ((h.0, later.0), later.1)
