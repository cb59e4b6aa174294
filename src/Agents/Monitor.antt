-- ===== src/Agents/Monitor.antt =====
-- Two ways to say what a workflow program does with every reply that is `Good`: which calls it makes
-- (Calls), and in which order, by a monitor that reads the calls and their replies (Obeys).
use mathlib.Core.Path.{subst}
use go_temporal_ai_sdk.Prelude.{◌≡◌, refl, sym, List, [], ◌∷◌, if_cases}
use go_temporal_ai_sdk.Agents.Flow.{
  Call, Reply, Flow, done, fail, waiting, call, attempt, shuffle, together, Failure, Answer, ok,
  err, schedule, ◌>>=◌, ◌>>◌,
}

abbrev pub Anyway : {A : Type 0} → A → Type 0
Anyway a = Unit {0}

-- A property of a result, for a result or an error as a value.
abbrev pub Answered : {A : Type 0} → (A → Type 0) → (Failure → Type 0) → Answer A → Type 0
Answered Q E (ok a) = Q a
Answered Q E (err e) = E e

-- The third list is the first two in some order of the two.
pub data Shuffled {A : Type 0} : List A → List A → List A → Type 0 where
  no_left : {ys : List A} → Shuffled [] ys ys
  no_right : {x : A} {xs : List A} → Shuffled (x ∷ xs) [] (x ∷ xs)
  from_left :
      {x y : A} {xs ys zs : List A} → Shuffled xs (y ∷ ys) zs → Shuffled (x ∷ xs) (y ∷ ys) (x ∷ zs)
  from_right :
      {x y : A} {xs ys zs : List A} → Shuffled (x ∷ xs) ys zs → Shuffled (x ∷ xs) (y ∷ ys) (y ∷ zs)

module _ (Good : (c : Call) → Reply c → Type 0) where
  module _ (P : Call → Type 0) where
    -- Every call satisfies `P`, every result `Q`, and every error `E`.
    abbrev pub Calls : {A : Type 0} → (A → Type 0) → (Failure → Type 0) → Flow A → Type 0
    Calls Q E (done a) = Q a
    Calls Q E (fail e) = E e
    Calls Q E waiting = Unit {0}
    Calls Q E (call c next) = P c × ((r : Reply c) → Good c r → Calls Q E (next r))

    pub bind-Calls :
        {A B : Type 0} (Q : A → Type 0) (R : B → Type 0) (E : Failure → Type 0) (m : Flow A)
        (f : A → Flow B)
        → Calls Q E m
        → ((a : A) → Q a → Calls R E (f a))
        → Calls R E (m >>= f)
    unfolding ◌>>=◌
    bind-Calls Q R E (done a) f h k = k a h
    bind-Calls Q R E (fail e) f h k = h
    bind-Calls Q R E waiting f h k = tt
    bind-Calls Q R E (call c next) f h k = (h.0, λ r g. bind-Calls Q R E (next r) f (h.1 r g) k)

    pub seq-Calls :
        {A B : Type 0} (R : B → Type 0) (E : Failure → Type 0) (m : Flow A) (k : Flow B)
        → Calls Anyway E m
        → Calls R E k
        → Calls R E (m >> k)
    unfolding ◌>>◌
    seq-Calls R E m k h g = bind-Calls Anyway R E m (λ _. k) h (λ _ _. g)

    pub attempt-Calls :
        {A : Type 0} (Q : A → Type 0) (E F : Failure → Type 0) (m : Flow A)
        → Calls Q E m
        → Calls (Answered Q E) F (attempt m)
    unfolding attempt
    attempt-Calls Q E F (done a) h = h
    attempt-Calls Q E F (fail e) h = h
    attempt-Calls Q E F waiting h = tt
    attempt-Calls Q E F (call c next) h = (h.0, λ r g. attempt-Calls Q E F (next r) (h.1 r g))

    pub weaken-Calls :
        {A : Type 0} (Q R : A → Type 0) (E F : Failure → Type 0) (m : Flow A)
        → ((a : A) → Q a → R a)
        → ((e : Failure) → E e → F e)
        → Calls Q E m
        → Calls R F m
    weaken-Calls Q R E F (done a) q e h = q a h
    weaken-Calls Q R E F (fail x) q e h = e x h
    weaken-Calls Q R E F waiting q e h = tt
    weaken-Calls Q R E F (call c next) q e h =
        (h.0, λ r g. weaken-Calls Q R E F (next r) q e (h.1 r g))

    module _ {A : Type 0} (E : Failure → Type 0) (free : P schedule) where
      shuffle-Calls : (xs ys : List A) → Calls (Shuffled xs ys) E (shuffle xs ys)
      unfolding shuffle
      shuffle-Calls [] ys = no_left
      shuffle-Calls (x ∷ xs) [] = no_right
      shuffle-Calls (x ∷ xs) (y ∷ ys) = (
        free,
        λ left _.
            if_cases (Calls (Shuffled (x ∷ xs) (y ∷ ys)) E) left
              (λ _.
                bind-Calls (Shuffled xs (y ∷ ys)) (Shuffled (x ∷ xs) (y ∷ ys)) E
                  (shuffle xs (y ∷ ys)) _ (shuffle-Calls xs (y ∷ ys)) (λ rest h. from_left h))
              (λ _.
                bind-Calls (Shuffled (x ∷ xs) ys) (Shuffled (x ∷ xs) (y ∷ ys)) E
                  (shuffle (x ∷ xs) ys) _ (shuffle-Calls (x ∷ xs) ys) (λ rest h. from_right h)),
      )

      module _ (Q R T : List A → Type 0)
          (mix : (xs ys zs : List A) → Q xs → R ys → Shuffled xs ys zs → T zs) where
        mixed-Calls : (xs ys : List A) → Q xs → R ys → Calls T E (shuffle xs ys)
        mixed-Calls xs ys q r =
            weaken-Calls (Shuffled xs ys) T E E (shuffle xs ys) (λ zs h. mix xs ys zs q r h)
              (λ _ e. e) (shuffle-Calls xs ys)

        stuck-Calls :
            (B : List A → Type 0) (m : Flow (List A)) → Calls B E m → Calls T E (m >> waiting)
        stuck-Calls B m h =
            seq-Calls T E m waiting (weaken-Calls B Anyway E E m (λ _ _. tt) (λ _ e. e) h) tt

        pub together-Calls :
            (m k : Flow (List A)) → Calls Q E m → Calls R E k → Calls T E (together m k)
        unfolding together
        together-Calls (fail e) k h g = h
        together-Calls (done xs) k h g =
            bind-Calls R T E k (shuffle xs) g (λ ys r. mixed-Calls xs ys h r)
        together-Calls waiting k h g = stuck-Calls R k g
        together-Calls (call c next) (fail e) h g = g
        together-Calls (call c next) (done ys) h g =
            bind-Calls Q T E (call c next) _ h (λ xs q. mixed-Calls xs ys q g)
        together-Calls (call c next) waiting h g = stuck-Calls Q (call c next) h
        together-Calls (call c next) (call d after) h g = (
          free,
          λ left _.
              if_cases (Calls T E) left
                (λ _. (h.0, λ r b. together-Calls (next r) (call d after) (h.1 r b) g))
                (λ _. (g.0, λ r b. together-Calls (call c next) (after r) h (g.1 r b))),
        )

  pub map-Calls :
      {A : Type 0} (P R : Call → Type 0) (Q : A → Type 0) (E : Failure → Type 0) (m : Flow A)
      → ((c : Call) → P c → R c)
      → Calls P Q E m
      → Calls R Q E m
  map-Calls P R Q E (done a) f h = h
  map-Calls P R Q E (fail e) f h = h
  map-Calls P R Q E waiting f h = tt
  map-Calls P R Q E (call c next) f h = (f c h.0, λ r g. map-Calls P R Q E (next r) f (h.1 r g))

  module _ {S : Type 0} (Allowed : S → Call → Type 0) (step : S → (c : Call) → Reply c → S) where
    -- The monitor allows each call in its state, and the result and an error fit the last state.
    abbrev pub Obeys :
        {A : Type 0} → (S → A → Type 0) → (S → Failure → Type 0) → S → Flow A → Type 0
    Obeys Q E s (done a) = Q s a
    Obeys Q E s (fail e) = E s e
    Obeys Q E s waiting = Unit {0}
    Obeys Q E s (call c next) =
        Allowed s c × ((r : Reply c) → Good c r → Obeys Q E (step s c r) (next r))

    pub bind-Obeys :
        {A B : Type 0} (Q : S → A → Type 0) (R : S → B → Type 0) (E : S → Failure → Type 0) (s : S)
        (m : Flow A) (f : A → Flow B)
        → Obeys Q E s m
        → ((t : S) (a : A) → Q t a → Obeys R E t (f a))
        → Obeys R E s (m >>= f)
    unfolding ◌>>=◌
    bind-Obeys Q R E s (done a) f h k = k s a h
    bind-Obeys Q R E s (fail e) f h k = h
    bind-Obeys Q R E s waiting f h k = tt
    bind-Obeys Q R E s (call c next) f h k =
        (h.0, λ r g. bind-Obeys Q R E (step s c r) (next r) f (h.1 r g) k)

    pub attempt-Obeys :
        {A : Type 0} (Q : S → A → Type 0) (E F : S → Failure → Type 0) (s : S) (m : Flow A)
        → Obeys Q E s m
        → Obeys (λ t a. Answered (Q t) (E t) a) F s (attempt m)
    unfolding attempt
    attempt-Obeys Q E F s (done a) h = h
    attempt-Obeys Q E F s (fail e) h = h
    attempt-Obeys Q E F s waiting h = tt
    attempt-Obeys Q E F s (call c next) h =
        (h.0, λ r g. attempt-Obeys Q E F (step s c r) (next r) (h.1 r g))

    -- A program whose calls leave the monitor as it is.
    abbrev pub Idle : S → Call → Type 0
    Idle s c = Allowed s c × ((r : Reply c) → step s c r ≡ s)

    pub Idle-Obeys :
        {A : Type 0} (Q : A → Type 0) (E : Failure → Type 0) (s : S) (m : Flow A)
        → Calls (Idle s) Q E m
        → Obeys (λ t a. (t ≡ s) × Q a) (λ t e. (t ≡ s) × E e) s m
    Idle-Obeys Q E s (done a) h = (refl, h)
    Idle-Obeys Q E s (fail e) h = (refl, h)
    Idle-Obeys Q E s waiting h = tt
    Idle-Obeys Q E s (call c next) (p, k) = (
      p.0,
      λ r g.
          subst (λ t. Obeys (λ u a. (u ≡ s) × Q a) (λ u e. (u ≡ s) × E e) t (next r)) (sym (p.1 r))
            (Idle-Obeys Q E s (next r) (k r g)),
    )

    pub weaken-Obeys :
        {A : Type 0} (Q R : S → A → Type 0) (E F : S → Failure → Type 0) (s : S) (m : Flow A)
        → ((t : S) (a : A) → Q t a → R t a)
        → ((t : S) (e : Failure) → E t e → F t e)
        → Obeys Q E s m
        → Obeys R F s m
    weaken-Obeys Q R E F s (done a) q e h = q s a h
    weaken-Obeys Q R E F s (fail x) q e h = e s x h
    weaken-Obeys Q R E F s waiting q e h = tt
    weaken-Obeys Q R E F s (call c next) q e h =
        (h.0, λ r g. weaken-Obeys Q R E F (step s c r) (next r) q e (h.1 r g))
