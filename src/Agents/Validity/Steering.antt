-- ===== src/Agents/Validity/Steering.antt =====
-- The monitor of a run: it counts the calls of models, allows no more of them than there are steps, and
-- of the events only valid ones.
use mathlib.Core.Path.{subst}
use go_temporal_ai_sdk.Prelude.{ℕ, suc, ◌≤◌, ◌<◌, ◌≡◌, sym, refl, All, List, [], ◌∷◌, arith}
use go_temporal_ai_sdk.Agents.Flow
use go_temporal_ai_sdk.Agents.Flow.{Call, Reply, Flow, Failure, ◌>>=◌}
use go_temporal_ai_sdk.Agents.Monitor.{
  Anyway, map-Calls, Obeys, bind-Obeys, Idle, Idle-Obeys, weaken-Obeys,
}
use go_temporal_ai_sdk.Agents.Runs.{Exchange, At, AllowedAlong, after}
use go_temporal_ai_sdk.Agents.Recording.{GoodReply, WritesValid, SideCall, Valid}

abbrev pub counted : ℕ → (c : Call) → Reply c → ℕ
counted s (Flow.invoke_model id options) r = suc s
counted s (Flow.invoke_model_stream id options) r = suc s
counted s c r = s

-- How many calls of a model there were.
abbrev pub model_calls : List Exchange → ℕ
model_calls es = after counted 0 es

abbrev pub Within : ℕ → ℕ → Call → Type 0
Within most s (Flow.invoke_model id options) = s < most
Within most s (Flow.invoke_model_stream id options) = s < most
Within most s c = WritesValid c

Within-WritesValid : (most s : ℕ) (c : Call) → Within most s c → WritesValid c
Within-WritesValid most s (Flow.invoke_model id options) h = tt
Within-WritesValid most s (Flow.invoke_model_stream id options) h = tt
Within-WritesValid most s c h = h

module _ (most : ℕ) where
  abbrev pub Steered : {A : Type 0} → (ℕ → A → Type 0) → ℕ → Flow A → Type 0
  Steered Q s m = Obeys GoodReply (Within most) counted Q (λ _ _. Unit {0}) s m

  pub bind-Steered :
      {A B : Type 0} (Q : ℕ → A → Type 0) (R : ℕ → B → Type 0) (s : ℕ) (m : Flow A) (f : A → Flow B)
      → Steered Q s m
      → ((t : ℕ) (a : A) → Q t a → Steered R t (f a))
      → Steered R s (m >>= f)
  bind-Steered Q R s m f h k =
      bind-Obeys GoodReply (Within most) counted Q R (λ _ _. Unit {0}) s m f h k

  SideCall-Idle : (s : ℕ) (c : Call) → SideCall c → Idle GoodReply (Within most) counted s c
  SideCall-Idle s (Flow.invoke_model id options) h = absurd h
  SideCall-Idle s (Flow.invoke_model_stream id options) h = absurd h
  SideCall-Idle s c h = (h, λ _. refl)

  pub side-Steered : {A : Type 0} (s : ℕ) (m : Flow A) → Valid Anyway m → Steered (λ t a. t ≡ s) s m
  side-Steered s m h =
      weaken-Obeys GoodReply (Within most) counted (λ t a. (t ≡ s) × Unit {0}) (λ t a. t ≡ s)
        (λ t e. (t ≡ s) × Unit {0}) (λ _ _. Unit {0}) s m (λ t a p. p.0) (λ _ _ _. tt)
        (Idle-Obeys GoodReply (Within most) counted Anyway Anyway s m (
          map-Calls GoodReply SideCall (Idle GoodReply (Within most) counted s) Anyway Anyway m
            (SideCall-Idle s) h))

  pub side_then-Steered :
      {A B : Type 0} (R : ℕ → B → Type 0) (s : ℕ) (m : Flow A) (f : A → Flow B)
      → Valid Anyway m
      → ((a : A) → Steered R s (f a))
      → Steered R s (m >>= f)
  side_then-Steered R s m f h k =
      bind-Steered (λ t a. t ≡ s) R s m f (side-Steered s m h)
        (λ t a p. subst (λ u. Steered R u (f a)) (sym p) (k a))

  counted-bounded :
      (s : ℕ) (c : Call) (r : Reply c) → s ≤ most → Within most s c → counted s c r ≤ most
  counted-bounded s (Flow.invoke_model id options) r p h = ground arith
  counted-bounded s (Flow.invoke_model_stream id options) r p h = ground arith
  counted-bounded s c r p h = p

  pub along-WritesValid :
      (s : ℕ) (es : List Exchange)
      → AllowedAlong (Within most) counted s es
      → All (At WritesValid) es
  along-WritesValid s [] h = tt
  along-WritesValid s (e ∷ rest) h = (
    Within-WritesValid most s e.asked h.0,
    along-WritesValid (counted s e.asked e.replied) rest h.1,
  )

  pub along-bounded :
      (s : ℕ) (es : List Exchange)
      → s ≤ most
      → AllowedAlong (Within most) counted s es
      → after counted s es ≤ most
  unfolding after
  along-bounded s [] p h = p
  along-bounded s (e ∷ rest) p h =
      along-bounded (counted s e.asked e.replied) rest (counted-bounded s e.asked e.replied p h.0)
        h.1
