-- ===== src/Relay/Failure.antt =====
-- The failure policy of the relay (handleError of updates/relay.go): which of the errors that the
-- connector answers come back from the relay's methods.
use Prim.Native.String.{len}
use mathlib.Core.Path.{subst}
use go_temporal_ai_sdk.Prelude.{
  String, ◌≡◌, refl, sym, Bool, true, false, not, ◌&&◌, ◌||◌, Option, none, some, List, [], ◌∷◌,
  ◌==◌, lookup, eqb, if_cases, if◌then◌else◌,
}
use go_temporal_ai_sdk.Updates.Types.{
  PreviewBeginEvent, PreviewSnapshotEvent, PreviewEndEvent, PreviewOutcome, PreviewRef, UpdateEvent,
  Lane,
}
use go_temporal_ai_sdk.Updates.Errors.{Err, is_stream_not_found}
use go_temporal_ai_sdk.Updates.Connector.{Connector}
use go_temporal_ai_sdk.Relay.Part.{Options, StreamPart, PartMeta, failure_policy_best_effort}
use go_temporal_ai_sdk.Relay.Classify.{is_some}
use go_temporal_ai_sdk.Relay.State.{Relay, PreviewState, base_event, handle_error, snapshot_due}
use go_temporal_ai_sdk.Relay.Preview.{
  checkpointed, new_preview_state, take_part, next_sequence, end_with,
}
use go_temporal_ai_sdk.Relay.Accept.{
  same, checkpoint_answered, put_state, fail_with, begin_answered, begin_attempt, checkpoint,
  accept_published, accept_into, accept,
}
use go_temporal_ai_sdk.Relay.Complete.{end_answered, end_attempt, complete}
use go_temporal_ai_sdk.Relay.Rules.{
  EnsuredHolds, Holds, ProgressHolds, accept-Holds, complete-Holds, lookup-insert_self,
}

-- The errors that the relay keeps to itself: a missing stream under the best-effort policy.
abbrev pub is_suppressed : Options → Err → Bool
is_suppressed o e = o.failure_policy == failure_policy_best_effort && is_stream_not_found e

-- What a method has to return after these errors of the connector, the latest first: the latest that
-- is not to suppress, if there is one.
unfoldable pub surfaced : Options → List Err → Option Err
surfaced o [] = none
surfaced o (e ∷ rest) = let others = surfaced o rest in if is_suppressed o e then others else some e

-- Whether one of the errors is to suppress.
unfoldable pub silenced : Options → List Err → Bool
silenced o [] = false
silenced o (e ∷ rest) = is_suppressed o e || silenced o rest

-- The errors after one more answer.
abbrev pub with_answer : Option Err → List Err → List Err
with_answer none l = l
with_answer (some e) l = e ∷ l

-- `errors` reads off the world which errors the connector has answered.
pub record Remembers {W : Type 0} (errors : W → List Err) (c : Connector W) : Type 0 where
  pub begins :
      (e : PreviewBeginEvent) (w : W)
      → errors (c.begin_preview e w).1 ≡ with_answer (c.begin_preview e w).0 (errors w)
  pub checkpoints :
      (e : PreviewSnapshotEvent) (w : W)
      → errors (c.checkpoint_preview e w).1 ≡ with_answer (c.checkpoint_preview e w).0 (errors w)
  pub ends :
      (e : PreviewEndEvent) (w : W)
      → errors (c.end_preview e w).1 ≡ with_answer (c.end_preview e w).0 (errors w)
  pub publishes :
      (e : UpdateEvent) (w : W)
      → errors (c.publish_update e w).1 ≡ with_answer (c.publish_update e w).0 (errors w)

module _ {W : Type 0} (errors : W → List Err) (o : Options) where
  -- The relay with the options `o`, after the errors `l`, when its method returns `e`.
  pub record Reports (l : List Err) (e : Option Err) (r : Relay W) : Type 0 where
    pub connected : Remembers errors r.connector
    pub clocked : (w : W) → errors (r.now w).1 ≡ errors w
    pub optioned : r.options ≡ o
    pub answer : e ≡ surfaced o l
    pub silence : r.disabled ≡ silenced o l

  abbrev pub Surfaces : Option Err → Relay W → W → Type 0
  Surfaces e r w = Reports (errors w) e r

  move : {l l₁ : List Err} {e : Option Err} {r : Relay W} → l₁ ≡ l → Reports l e r → Reports l₁ e r
  move {e = e} {r = r} p h = subst (λ x. Reports x e r) (sym p) h

  keep :
      {l : List Err} {e : Option Err} {r : Relay W} (k : String) (s : PreviewState)
      → Reports l e r
      → Reports l e (put_state r k s)
  keep k s h = record {
    connected = h.connected;
    clocked = h.clocked;
    optioned = h.optioned;
    answer = h.answer;
    silence = h.silence;
  }

  tick :
      {l : List Err} {e : Option Err} (r : Relay W) (kind id : String) (w : W)
      → Reports l e r
      → errors (base_event r kind id w).1 ≡ errors w
  unfolding base_event
  tick r kind id w h = h.clocked w

  suppressed-step :
      (l : List Err) (r : Relay W) (e : Err)
      → (r.options.failure_policy == failure_policy_best_effort && is_stream_not_found e) ≡ true
      → Reports l none r
      → Reports (e ∷ l) none (record r { disabled = true })
  unfolding surfaced silenced
  suppressed-step l r e s h =
      let t : is_suppressed o e ≡ true = subst (λ p. is_suppressed p e ≡ true) h.optioned s in
      record {
        connected = h.connected;
        clocked = h.clocked;
        optioned = h.optioned;
        answer = rw t h.answer;
        silence = rw t refl;
      }

  surfaced-step :
      (l : List Err) (r : Relay W) (e : Err)
      → (r.options.failure_policy == failure_policy_best_effort && is_stream_not_found e) ≡ false
      → Reports l none r
      → Reports (e ∷ l) (some e) r
  unfolding surfaced silenced
  surfaced-step l r e s h =
      let t : is_suppressed o e ≡ false = subst (λ p. is_suppressed p e ≡ false) h.optioned s in
      record {
        connected = h.connected;
        clocked = h.clocked;
        optioned = h.optioned;
        answer = rw t refl;
        silence = rw t h.silence;
      }

  fail_with-Surfaces :
      (l : List Err) (r : Relay W) (e : Err) (w : W)
      → errors w ≡ e ∷ l
      → Reports l none r
      → Holds Surfaces (fail_with r e w)
  unfolding handle_error
  fail_with-Surfaces l r e w p h =
      if_cases (λ (x : Option Err × Relay W). Surfaces x.0 x.1 w)
        (r.options.failure_policy == failure_policy_best_effort && is_stream_not_found e)
        (λ s. move p (suppressed-step l r e s h)) (λ s. move p (surfaced-step l r e s h))

  checkpoint_answered-Surfaces :
      (l : List Err) (r : Relay W) (k : String) (s : PreviewState) (x : Option Err × W)
      → errors x.1 ≡ with_answer x.0 l
      → Reports l none r
      → Holds Surfaces (checkpoint_answered r k s x)
  unfolding checkpoint_answered
  checkpoint_answered-Surfaces l r k s (some e, w) p h = fail_with-Surfaces l r e w p h
  checkpoint_answered-Surfaces l r k s (none, w) p h = move p (keep k (checkpointed s) h)

  checkpoint-Surfaces :
      (r : Relay W) (k : String) (s : PreviewState) (w : W)
      → lookup k r.attempts ≡ some s
      → Surfaces none r w
      → Holds Surfaces (checkpoint r k s w)
  unfolding checkpoint
  checkpoint-Surfaces r k s w found h =
      if_cases (Holds Surfaces) (s.ended || r.disabled) (λ _. h)
        λ _.
          if_cases (Holds Surfaces)
            (same s.ref.sequence s.last_snapshot_sequence
              && eqb s.last_snapshot_text_length (len s.text))
            (λ _. h)
            λ _.
              checkpoint_answered-Surfaces _ r k s _ (h.connected.checkpoints _ _)
                (move (tick r _ _ w h) h)

  accept_published-Surfaces :
      (l : List Err) (r : Relay W) (k : String) (s : PreviewState) (meta : PartMeta)
      (x : Option Err × W)
      → lookup k r.attempts ≡ some s
      → errors x.1 ≡ with_answer x.0 l
      → Reports l none r
      → Holds Surfaces (accept_published r k s meta x)
  unfolding accept_published
  accept_published-Surfaces l r k s meta (some e, w) found p h = fail_with-Surfaces l r e w p h
  accept_published-Surfaces l r k s meta (none, w) found p h =
      if_cases (Holds Surfaces) (meta.has_object || is_some meta.element || snapshot_due r s)
        (λ _. checkpoint-Surfaces r k s w found (move p h)) (λ _. move p h)

  accept_into-Surfaces :
      (part : StreamPart) (r : Relay W) (k : String) (s : PreviewState) (lane : Lane)
      (meta : PartMeta) (w : W)
      → Unit {0}
      → lookup k r.attempts ≡ some s
      → Surfaces none r w
      → Holds Surfaces (accept_into r k s part meta w)
  unfolding accept_into
  accept_into-Surfaces part r k s lane meta w _ found h =
      if_cases (Holds Surfaces) (s.ended || not meta.emit) (λ _. h)
        λ _.
          accept_published-Surfaces _ (put_state r k (take_part s meta)) k (take_part s meta) meta _
            (lookup-insert_self k (take_part s meta) r.attempts) (h.connected.publishes _ _)
            (move (tick (put_state r k (take_part s meta)) _ _ w (keep k (take_part s meta) h))
              (keep k (take_part s meta) h))

  begin_answered-Surfaces :
      (l : List Err) (r : Relay W) (k : String) (ref : PreviewRef) (x : Option Err × W)
      → errors x.1 ≡ with_answer x.0 l
      → Reports l none r
      → EnsuredHolds Surfaces (begin_answered r k ref x)
  unfolding begin_answered
  begin_answered-Surfaces l r k ref (some e, w) p h = fail_with-Surfaces l r e w p h
  begin_answered-Surfaces l r k ref (none, w) p h =
      if_cases (EnsuredHolds Surfaces) r.disabled (λ _. move p h)
        λ _. (
          lookup-insert_self k (new_preview_state ref) r.attempts,
          move p (keep k (new_preview_state ref) h),
        )

  begin_attempt-Surfaces :
      (r : Relay W) (k : String) (ref : PreviewRef) (w : W)
      → Surfaces none r w
      → EnsuredHolds Surfaces (begin_attempt r k ref w)
  unfolding begin_attempt
  begin_attempt-Surfaces r k ref w h =
      begin_answered-Surfaces _ r k ref _ (h.connected.begins _ _) (move (tick r _ _ w h) h)

  end_answered-Surfaces :
      (l : List Err) (r : Relay W) (k : String) (s : PreviewState) (outcome : PreviewOutcome)
      (x : Option Err × W)
      → errors x.1 ≡ with_answer x.0 l
      → Reports l none r
      → ProgressHolds Surfaces (end_answered r k s outcome x)
  unfolding end_answered
  end_answered-Surfaces l r k s outcome (some e, w) p h = fail_with-Surfaces l r e w p h
  end_answered-Surfaces l r k s outcome (none, w) p h = move p (keep k (end_with s outcome) h)

  end_attempt-Surfaces :
      (outcome : PreviewOutcome) (reason : String) (r : Relay W) (k : String) (s : PreviewState)
      (w : W)
      → lookup k r.attempts ≡ some s
      → Surfaces none r w
      → ProgressHolds Surfaces (end_attempt r k s outcome reason w)
  unfolding end_attempt
  end_attempt-Surfaces outcome reason r k s w _ h =
      end_answered-Surfaces _ (put_state r k (next_sequence s)) k (next_sequence s) outcome _
        (h.connected.ends _ _)
        (move (tick (put_state r k (next_sequence s)) _ _ w (keep k (next_sequence s) h))
          (keep k (next_sequence s) h))

  pub accept-Surfaces :
      (part : StreamPart) (r : Relay W) (w : W)
      → Surfaces none r w
      → Holds Surfaces (accept r part w)
  accept-Surfaces part =
      accept-Holds part Surfaces (λ _ _. Unit {0}) (λ _ _ _ _ _ _. tt)
        (λ r _ _ w _ h. begin_attempt-Surfaces r _ _ w h) (accept_into-Surfaces part)

  complete-Surfaces :
      (outcome : PreviewOutcome) (reason : String) (r : Relay W) (w : W)
      → Surfaces none r w
      → Holds Surfaces (complete r outcome reason w)
  complete-Surfaces outcome reason =
      complete-Holds outcome reason Surfaces checkpoint-Surfaces
        (end_attempt-Surfaces outcome reason)

-- After a method has run, this is what it returned and whether the relay is disabled, for the errors
-- that the connector has answered meanwhile.
abbrev pub Reported : {W : Type 0} → (W → List Err) → Options → Option Err → Relay W → W → Type 0
Reported errors o e r w =
    (e ≡ surfaced o (errors w)) × (r.disabled ≡ silenced o (errors w)) × (r.options ≡ o)

-- Accept, and Succeed, Fail or Cancel, of a relay that is not disabled return an error exactly if the
-- connector has answered one that the failure policy does not suppress, and return that error: only a
-- missing stream under best-effort is suppressed. The relay is disabled afterwards exactly if such an
-- error was suppressed, and keeps its options. `errors` reads off the world which errors the connector
-- has answered; there are none before, and the clock adds none.
pub relay_failures_surface :
    {W : Type 0} (errors : W → List Err) (r : Relay W) (part : StreamPart)
    (outcome : PreviewOutcome) (reason : String) (w : W)
    → Remembers errors r.connector
    → ((v : W) → errors (r.now v).1 ≡ errors v)
    → errors w ≡ []
    → r.disabled ≡ false
    → Holds (Reported errors r.options) (accept r part w)
      × Holds (Reported errors r.options) (complete r outcome reason w)
unfolding surfaced silenced
relay_failures_surface {W} errors r part outcome reason w c t fresh live = (
  reported (accept r part w) (accept-Surfaces errors r.options part r w start),
  reported (complete r outcome reason w)
      (complete-Surfaces errors r.options outcome reason r w start),
)
  where
    start : Surfaces errors r.options none r w
    start =
        move errors r.options fresh
          (record { connected = c; clocked = t; optioned = refl; answer = refl; silence = live })

    reported :
        (x : Option Err × Relay W × W)
        → Holds (Surfaces errors r.options) x
        → Holds (Reported errors r.options) x
    reported x h = (h.answer, h.silence, h.optioned)
