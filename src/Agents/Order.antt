-- ===== src/Agents/Order.antt =====
-- The results of the tool calls of a step stand in the order of the calls, in whatever order the
-- coroutines end (executeAgentToolsSequential and executeAgentToolsParallel of temporalai/agent.go).
use go_temporal_ai_sdk.Prelude.{
  ℕ, zero, suc, ◌+◌, ◌≤◌, ◌<◌, ◌≡◌, refl, ◌⊎◌, inl, inr, List, [], ◌∷◌, All, length, arith,
}
use go_temporal_ai_sdk.Agents.Types.{AgentToolCall, InvokeToolResult}
use go_temporal_ai_sdk.Agents.Flow.{Call, Reply, Flow}
use go_temporal_ai_sdk.Agents.Execution.{
  ToolOutcome, store_at, receive_all, zeroes, zero_result, count, execute_sequential, send_outcome,
  start_all, execute_parallel,
}
use go_temporal_ai_sdk.Agents.Monitor.{
  Anyway, Calls, bind-Calls, together-Calls, Shuffled, no_left, no_right, from_left, from_right,
}

abbrev pub Freely : Call → Type 0
Freely c = Unit {0}

-- The results of calls, position by position.
abbrev pub InOrder :
    (AgentToolCall → InvokeToolResult → Type 0)
    → List AgentToolCall
    → List InvokeToolResult
    → Type 0
InOrder R [] [] = Unit {0}
InOrder R (c ∷ calls) (r ∷ results) = R c r × InOrder R calls results
InOrder R [] (r ∷ results) = ⊥
InOrder R (c ∷ calls) [] = ⊥

-- An outcome with the index.
abbrev HasIndex : ℕ → List ToolOutcome → Type 0
HasIndex k [] = ⊥
HasIndex k (o ∷ rest) = (o.0 ≡ k) ⊎ HasIndex k rest

HasIndex-Shuffled :
    (k : ℕ) (xs ys zs : List ToolOutcome)
    → Shuffled xs ys zs
    → HasIndex k xs ⊎ HasIndex k ys
    → HasIndex k zs
HasIndex-Shuffled k [] ys _ no_left (inl h) = absurd h
HasIndex-Shuffled k [] ys _ no_left (inr h) = h
HasIndex-Shuffled k (x ∷ xs) [] _ no_right (inl h) = h
HasIndex-Shuffled k (x ∷ xs) [] _ no_right (inr h) = absurd h
HasIndex-Shuffled k (x ∷ xs) (y ∷ ys) [] s h = elim s [ ]
HasIndex-Shuffled k (x ∷ xs) (y ∷ ys) (_ ∷ zs) (from_left s) (inl (inl e)) = inl e
HasIndex-Shuffled k (x ∷ xs) (y ∷ ys) (_ ∷ zs) (from_left s) (inl (inr h)) =
    inr (HasIndex-Shuffled k xs (y ∷ ys) zs s (inl h))
HasIndex-Shuffled k (x ∷ xs) (y ∷ ys) (_ ∷ zs) (from_left s) (inr h) =
    inr (HasIndex-Shuffled k xs (y ∷ ys) zs s (inr h))
HasIndex-Shuffled k (x ∷ xs) (y ∷ ys) (_ ∷ zs) (from_right s) (inr (inl e)) = inl e
HasIndex-Shuffled k (x ∷ xs) (y ∷ ys) (_ ∷ zs) (from_right s) (inr (inr h)) =
    inr (HasIndex-Shuffled k (x ∷ xs) ys zs s (inr h))
HasIndex-Shuffled k (x ∷ xs) (y ∷ ys) (_ ∷ zs) (from_right s) (inl h) =
    inr (HasIndex-Shuffled k (x ∷ xs) ys zs s (inl h))

All-Shuffled :
    {A : Type 0} (P : A → Type 0) (xs ys zs : List A)
    → Shuffled xs ys zs
    → All P xs
    → All P ys
    → All P zs
All-Shuffled P [] ys _ no_left p q = q
All-Shuffled P (x ∷ xs) [] _ no_right p q = p
All-Shuffled P (x ∷ xs) (y ∷ ys) [] s p q = elim s [ ]
All-Shuffled P (x ∷ xs) (y ∷ ys) (_ ∷ zs) (from_left s) p q =
    (p.0, All-Shuffled P xs (y ∷ ys) zs s p.1 q)
All-Shuffled P (x ∷ xs) (y ∷ ys) (_ ∷ zs) (from_right s) p q =
    (q.0, All-Shuffled P (x ∷ xs) ys zs s p q.1)

length-Shuffled :
    {A : Type 0} (xs ys zs : List A) → Shuffled xs ys zs → length zs ≡ length xs + length ys
length-Shuffled [] ys _ no_left = ground arith
length-Shuffled (x ∷ xs) [] _ no_right = ground arith
length-Shuffled (x ∷ xs) (y ∷ ys) [] s = elim s [ ]
length-Shuffled (x ∷ xs) (y ∷ ys) (_ ∷ zs) (from_left s) =
    ground (arith, length-Shuffled xs (y ∷ ys) zs s)
length-Shuffled (x ∷ xs) (y ∷ ys) (_ ∷ zs) (from_right s) =
    ground (arith, length-Shuffled (x ∷ xs) ys zs s)

module _ (R : AgentToolCall → InvokeToolResult → Type 0) where
  -- An index and a result of the call that stands there, where the first call has the index `k`.
  abbrev Fits : ℕ → List AgentToolCall → ToolOutcome → Type 0
  Fits k [] o = ⊥
  Fits k (c ∷ calls) o = ((o.0 ≡ k) × R c (o.1)) ⊎ Fits (suc k) calls o

  Fits-from : (k : ℕ) (calls : List AgentToolCall) (o : ToolOutcome) → Fits k calls o → k ≤ o.0
  Fits-from k [] o h = absurd h
  Fits-from k (c ∷ calls) o (inl h) = ground (arith, h.0)
  Fits-from k (c ∷ calls) o (inr h) = ground (arith, Fits-from (suc k) calls o h)

  abbrev Complete : ℕ → List AgentToolCall → List ToolOutcome → Type 0
  Complete k [] arrived = Unit {0}
  Complete k (c ∷ calls) arrived = HasIndex k arrived × Complete (suc k) calls arrived

  abbrev pub Arrived : ℕ → List AgentToolCall → List ToolOutcome → Type 0
  Arrived k calls arrived =
      All (Fits k calls) arrived × Complete k calls arrived × (length arrived ≡ count calls)

  -- A result for each call that fits it, or an outcome for it that has yet to be received.
  abbrev Partly : ℕ → List AgentToolCall → List InvokeToolResult → List ToolOutcome → Type 0
  Partly k [] [] arrived = Unit {0}
  Partly k (c ∷ calls) (r ∷ results) arrived =
      (R c r ⊎ HasIndex k arrived) × Partly (suc k) calls results arrived
  Partly k [] (r ∷ results) arrived = ⊥
  Partly k (c ∷ calls) [] arrived = ⊥

  zeroes-Partly :
      (k : ℕ) (calls : List AgentToolCall) (arrived : List ToolOutcome)
      → Complete k calls arrived
      → Partly k calls (zeroes zero_result (count calls)) arrived
  unfolding zeroes
  zeroes-Partly k [] arrived h = tt
  zeroes-Partly k (c ∷ calls) arrived h = (inr h.0, zeroes-Partly (suc k) calls arrived h.1)

  all_received :
      (k : ℕ) (calls : List AgentToolCall) (results : List InvokeToolResult)
      → Partly k calls results []
      → InOrder R calls results
  all_received k [] [] h = tt
  all_received k (c ∷ calls) (r ∷ results) (inl e, h) = (e, all_received (suc k) calls results h)
  all_received k (c ∷ calls) (r ∷ results) (inr e, h) = absurd e
  all_received k [] (r ∷ results) h = absurd h
  all_received k (c ∷ calls) [] h = absurd h

  HasIndex-later :
      (k : ℕ) (o : ToolOutcome) (rest : List ToolOutcome)
      → o.0 < k
      → HasIndex k (o ∷ rest)
      → HasIndex k rest
  HasIndex-later k o rest p (inl e) = ground (arith, e)
  HasIndex-later k o rest p (inr h) = h

  Partly-later :
      (k : ℕ) (calls : List AgentToolCall) (results : List InvokeToolResult) (o : ToolOutcome)
      (rest : List ToolOutcome)
      → o.0 < k
      → Partly k calls results (o ∷ rest)
      → Partly k calls results rest
  Partly-later k [] [] o rest p h = tt
  Partly-later k (c ∷ calls) (r ∷ results) o rest p (inl e, h) =
      (inl e, Partly-later (suc k) calls results o rest (ground arith) h)
  Partly-later k (c ∷ calls) (r ∷ results) o rest p (inr e, h) = (
    inr (HasIndex-later k o rest p e),
    Partly-later (suc k) calls results o rest (ground arith) h,
  )
  Partly-later k [] (r ∷ results) o rest p h = absurd h
  Partly-later k (c ∷ calls) [] o rest p h = absurd h

  other_index :
      (k j : ℕ) (o : ToolOutcome) (rest : List ToolOutcome)
      → o.0 ≡ k + suc j
      → HasIndex k (o ∷ rest)
      → HasIndex k rest
  other_index k j o rest p (inl e) = ground (arith, e, p)
  other_index k j o rest p (inr h) = h

  own_fit :
      (k : ℕ) (c : AgentToolCall) (calls : List AgentToolCall) (o : ToolOutcome)
      → o.0 ≡ k + 0
      → Fits k (c ∷ calls) o
      → R c (o.1)
  own_fit k c calls o p (inl h) = h.1
  own_fit k c calls o p (inr h) = ground (arith, p, Fits-from (suc k) calls o h)

  later_fit :
      (k j : ℕ) (c : AgentToolCall) (calls : List AgentToolCall) (o : ToolOutcome)
      → o.0 ≡ k + suc j
      → Fits k (c ∷ calls) o
      → Fits (suc k) calls o
  later_fit k j c calls o p (inl h) = ground (arith, p, h.0)
  later_fit k j c calls o p (inr h) = h

  store-Partly :
      (k j : ℕ) (calls : List AgentToolCall) (results : List InvokeToolResult) (o : ToolOutcome)
      (rest : List ToolOutcome)
      → o.0 ≡ k + j
      → Fits k calls o
      → Partly k calls results (o ∷ rest)
      → Partly k calls (store_at j (o.1) results) rest
  unfolding store_at
  store-Partly k j [] results o rest p f h = absurd f
  store-Partly k j (c ∷ calls) [] o rest p f h = absurd h
  store-Partly k zero (c ∷ calls) (r ∷ results) o rest p f h = (
    inl (own_fit k c calls o p f),
    Partly-later (suc k) calls results o rest (ground (arith, p)) h.1,
  )
  store-Partly k (suc j) (c ∷ calls) (r ∷ results) o rest p f (inl e, h) = (
    inl e,
    store-Partly (suc k) j calls results o rest (ground (arith, p)) (later_fit k j c calls o p f) h,
  )
  store-Partly k (suc j) (c ∷ calls) (r ∷ results) o rest p f (inr e, h) = (
    inr (other_index k j o rest p e),
    store-Partly (suc k) j calls results o rest (ground (arith, p)) (later_fit k j c calls o p f) h,
  )

  receive-InOrder :
      (Good : (c : Call) → Reply c → Type 0) (n : ℕ) (calls : List AgentToolCall)
      (arrived : List ToolOutcome) (results : List InvokeToolResult)
      → length arrived ≡ n
      → All (Fits 0 calls) arrived
      → Partly 0 calls results arrived
      → Calls Good Freely (InOrder R calls) Anyway (receive_all n arrived results)
  unfolding receive_all
  receive-InOrder Good zero calls [] results e f h = all_received 0 calls results h
  receive-InOrder Good zero calls (o ∷ rest) results e f h = ground (arith, e)
  receive-InOrder Good (suc n) calls [] results e f h = tt
  receive-InOrder Good (suc n) calls ((i, a) ∷ rest) results e f h =
      receive-InOrder Good n calls rest (store_at i a results) (ground (arith, e)) f.1
        (store-Partly 0 i calls results (i, a) rest (ground arith) f.0 h)

  Complete-mono :
      (k : ℕ) (calls : List AgentToolCall) (xs ys zs : List ToolOutcome)
      → Shuffled xs ys zs
      → Complete k calls ys
      → Complete k calls zs
  Complete-mono k [] xs ys zs s h = tt
  Complete-mono k (c ∷ calls) xs ys zs s h =
      (HasIndex-Shuffled k xs ys zs s (inr h.0), Complete-mono (suc k) calls xs ys zs s h.1)

  Fits-later :
      (k : ℕ) (c : AgentToolCall) (calls : List AgentToolCall) (os : List ToolOutcome)
      → All (Fits (suc k) calls) os
      → All (Fits k (c ∷ calls)) os
  Fits-later k c calls [] h = tt
  Fits-later k c calls (o ∷ os) h = (inr h.0, Fits-later k c calls os h.1)

  module _ (Good : (c : Call) → Reply c → Type 0) (execute : AgentToolCall → Flow InvokeToolResult)
      (each : (c : AgentToolCall) → Calls Good Freely (R c) Anyway (execute c)) where
    abbrev Sent : ℕ → List AgentToolCall → AgentToolCall → List ToolOutcome → Type 0
    Sent k calls c os = All (Fits k (c ∷ calls)) os × HasIndex k os × (length os ≡ 1)

    send_outcome-Sent :
        (k : ℕ) (c : AgentToolCall) (calls : List AgentToolCall)
        → Calls Good Freely (Sent k calls c) Anyway (send_outcome execute k c)
    unfolding send_outcome
    send_outcome-Sent k c calls =
        bind-Calls Good Freely (R c) (Sent k calls c) Anyway (execute c) _ (each c)
          (λ r h. ((inl (refl, h), tt), inl refl, refl))

    mixed :
        (k : ℕ) (c : AgentToolCall) (calls : List AgentToolCall) (xs ys zs : List ToolOutcome)
        → Sent k calls c xs
        → Arrived (suc k) calls ys
        → Shuffled xs ys zs
        → Arrived k (c ∷ calls) zs
    mixed k c calls xs ys zs h g s = (
      All-Shuffled (Fits k (c ∷ calls)) xs ys zs s h.0 (Fits-later k c calls ys g.0),
      (HasIndex-Shuffled k xs ys zs s (inl h.1), Complete-mono (suc k) calls xs ys zs s g.1),
      ground (arith, length-Shuffled xs ys zs s, h.2, g.2),
    )

    pub start_all-Arrived :
        (k : ℕ) (calls : List AgentToolCall)
        → Calls Good Freely (Arrived k calls) Anyway (start_all execute k calls)
    unfolding start_all
    start_all-Arrived k [] = (tt, tt, refl)
    start_all-Arrived k (c ∷ calls) =
        together-Calls Good Freely Anyway tt (Sent k calls c) (Arrived (suc k) calls)
          (Arrived k (c ∷ calls)) (mixed k c calls) (send_outcome execute k c)
          (start_all execute (suc k) calls) (send_outcome-Sent k c calls)
          (start_all-Arrived (suc k) calls)

    pub execute_parallel-InOrder :
        (calls : List AgentToolCall)
        → Calls Good Freely (InOrder R calls) Anyway (execute_parallel execute calls)
    unfolding execute_parallel
    execute_parallel-InOrder calls =
        bind-Calls Good Freely (Arrived 0 calls) (InOrder R calls) Anyway
          (start_all execute 0 calls) _ (start_all-Arrived 0 calls)
          (λ arrived h.
            receive-InOrder Good (count calls) calls arrived (zeroes zero_result (count calls)) h.2
              h.0 (zeroes-Partly 0 calls arrived h.1))

    pub execute_sequential-InOrder :
        (calls : List AgentToolCall)
        → Calls Good Freely (InOrder R calls) Anyway (execute_sequential execute calls)
    unfolding execute_sequential
    execute_sequential-InOrder [] = tt
    execute_sequential-InOrder (c ∷ calls) =
        bind-Calls Good Freely (R c) (InOrder R (c ∷ calls)) Anyway (execute c) _ (each c) (λ r h.
          bind-Calls Good Freely (InOrder R calls) (InOrder R (c ∷ calls)) Anyway
            (execute_sequential execute calls) _ (execute_sequential-InOrder calls)
            (λ rest k. (h, k)))
