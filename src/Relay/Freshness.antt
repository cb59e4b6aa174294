-- ===== src/Relay/Freshness.antt =====
-- How far a preview may run ahead of its last checkpoint in updates/relay.go.
use Prim.Native.String.{len}
use text.Mathlib.TextPositions.{len-append}
use go_temporal_ai_sdk.Prelude.{
  ℕ, ◌+◌, ◌≤◌, ◌<◌, pos, pos_part, is_negative, ◌-ℤ◌, ◌+ℤ◌, String, ◌≡◌, refl, true, false, ◌&&◌,
  ◌||◌, not, ◌==◌, eqb, inl, inr, Bool-cases, if_cases, Option, none, some, lookup, arith,
}
use go_temporal_ai_sdk.Updates.Types.{Lane, PreviewRef}
use go_temporal_ai_sdk.Updates.Errors.{Err, is_stream_not_found}
use go_temporal_ai_sdk.Relay.Part.{StreamPart, PartMeta, failure_policy_best_effort}
use go_temporal_ai_sdk.Relay.Classify.{is_some}
use go_temporal_ai_sdk.Relay.State.{Relay, PreviewState, handle_error, snapshot_due}
use go_temporal_ai_sdk.Relay.Preview.{checkpointed, take_part, preview_ref_for, new_preview_state}
use go_temporal_ai_sdk.Relay.Accept.{
  same, put_state, fail_with, begin_answered, begin_attempt, checkpoint_answered, checkpoint,
  accept_published, accept_into, accept,
}
use go_temporal_ai_sdk.Relay.Rules.{
  Each, EachBut, Each-insert, EachBut-insert, Each-insert_but, Each-of_but, EnsuredHolds, Holds,
  accept-Holds, lookup-insert_self,
}

-- A checkpoint covers no more than what the preview has taken.
pub record StateOk (s : PreviewState) : Type 0 where
  pub nonnegative : is_negative s.last_snapshot_sequence ≡ false
  pub covered : pos_part s.last_snapshot_sequence ≤ pos_part s.ref.sequence
  pub positive : is_negative s.ref.sequence ≡ false
  pub text_covered : s.last_snapshot_text_length ≤ len s.text

-- Fewer than `chunks` chunks and `bytes` bytes of text came after the last checkpoint.
pub record IsFresh (chunks bytes : ℕ) (s : PreviewState) : Type 0 where
  pub chunks_fresh : pos_part s.ref.sequence < pos_part s.last_snapshot_sequence + chunks
  pub text_fresh : len s.text < s.last_snapshot_text_length + bytes

-- The bounds that NewRelay leaves in the relay are positive.
pub record Bounded {W : Type 0} (r : Relay W) (chunks bytes : ℕ) : Type 0 where
  pub chunk_bound : r.snapshot_every_chunk ≡ pos chunks
  pub char_bound : r.snapshot_every_char ≡ pos bytes

checkpointed-StateOk : (s : PreviewState) → StateOk s → StateOk (checkpointed s)
checkpointed-StateOk s h = ground arith

checkpointed-IsFresh :
    (s : PreviewState) (chunks bytes : ℕ)
    → 0 < chunks
    → 0 < bytes
    → IsFresh chunks bytes (checkpointed s)
checkpointed-IsFresh s chunks bytes p q = ground arith

take_part-StateOk : (s : PreviewState) (meta : PartMeta) → StateOk s → StateOk (take_part s meta)
unfolding take_part ◌+ℤ◌
take_part-StateOk s meta h = ground (arith, len-append s.text meta.delta)

-- What snapshotDue answers `false` to is fresh.
not_due-IsFresh :
    {W : Type 0} (r : Relay W) (s : PreviewState) (chunks bytes : ℕ)
    → Bounded r chunks bytes
    → StateOk s
    → snapshot_due r s ≡ false
    → IsFresh chunks bytes s
unfolding snapshot_due ◌-ℤ◌
not_due-IsFresh r s chunks bytes b h due = ground arith

-- An unchanged state needs no checkpoint to be fresh.
same-IsFresh :
    (chunks bytes : ℕ) (s : PreviewState)
    → 0 < chunks
    → 0 < bytes
    → StateOk s
    → (same s.ref.sequence s.last_snapshot_sequence && eqb s.last_snapshot_text_length (len s.text))
      ≡ true
    → IsFresh chunks bytes s
same-IsFresh chunks bytes s cp bp ok p = ground arith

new_preview_state-IsFresh :
    (chunks bytes : ℕ) (ref : PreviewRef)
    → 0 < chunks
    → 0 < bytes
    → ref.sequence ≡ pos 0
    → StateOk (new_preview_state ref) × IsFresh chunks bytes (new_preview_state ref)
new_preview_state-IsFresh chunks bytes ref cp bp z = ground arith

module _ {W : Type 0} (chunks bytes : ℕ) (chunks_pos : 0 < chunks) (bytes_pos : 0 < bytes) where
  -- Of an answer: the states are in order, and if there is no error and the relay still runs, they
  -- are all fresh.
  pub record Fresh (e : Option Err) (r : Relay W) (w : W) : Type 0 where
    pub bounded : Bounded r chunks bytes
    pub states_ok : Each StateOk r.attempts
    pub states_fresh : e ≡ none → r.disabled ≡ false → Each (IsFresh chunks bytes) r.attempts

  put_state-Fresh :
      (r : Relay W) (k : String) (v : PreviewState) (w : W)
      → Bounded r chunks bytes
      → Each StateOk r.attempts
      → StateOk v
      → (r.disabled ≡ false → EachBut k (IsFresh chunks bytes) r.attempts)
      → IsFresh chunks bytes v
      → Fresh none (put_state r k v) w
  put_state-Fresh r k v w b oks ok others fresh = record {
    bounded = record { chunk_bound = b.chunk_bound; char_bound = b.char_bound };
    states_ok = Each-insert StateOk k v r.attempts oks ok;
    states_fresh =
        λ _ live. Each-insert_but (IsFresh chunks bytes) k v r.attempts (others live) fresh;
  }

  fail_with-Fresh :
      (r : Relay W) (e : Err) (w : W)
      → Bounded r chunks bytes
      → Each StateOk r.attempts
      → Holds Fresh (fail_with r e w)
  unfolding handle_error
  fail_with-Fresh r e w b oks =
      elim (Bool-cases
        (r.options.failure_policy == failure_policy_best_effort && is_stream_not_found e)) [
          | inl quiet ↦ simp quiet (record {
            bounded = record { chunk_bound = b.chunk_bound; char_bound = b.char_bound };
            states_ok = oks;
            states_fresh = λ _ live. cc;
          })
          | inr loud ↦ simp loud (record { bounded = b; states_ok = oks; states_fresh = λ p. cc })
        ]

  checkpoint_answered-Fresh :
      (r : Relay W) (k : String) (s : PreviewState) (x : Option Err × W)
      → Bounded r chunks bytes
      → Each StateOk r.attempts
      → StateOk s
      → (r.disabled ≡ false → EachBut k (IsFresh chunks bytes) r.attempts)
      → Holds Fresh (checkpoint_answered r k s x)
  unfolding checkpoint_answered
  checkpoint_answered-Fresh r k s (some e, w) b oks ok others = fail_with-Fresh r e w b oks
  checkpoint_answered-Fresh r k s (none, w) b oks ok others =
      put_state-Fresh r k (checkpointed s) w b oks (checkpointed-StateOk s ok) others
        (checkpointed-IsFresh s chunks bytes chunks_pos bytes_pos)

  checkpoint-Fresh :
      (r : Relay W) (k : String) (s : PreviewState) (w : W)
      → Bounded r chunks bytes
      → Each StateOk r.attempts
      → lookup k r.attempts ≡ some s
      → s.ended ≡ false
      → (r.disabled ≡ false → EachBut k (IsFresh chunks bytes) r.attempts)
      → Holds Fresh (checkpoint r k s w)
  unfolding checkpoint
  checkpoint-Fresh r k s w b oks found live others = elim (Bool-cases r.disabled) [
    | inl off ↦ simp (live, off) (record { bounded = b; states_ok = oks; states_fresh = λ _ p. cc })
    | inr on ↦
        elim (Bool-cases (
          same s.ref.sequence s.last_snapshot_sequence
          && eqb s.last_snapshot_text_length (len s.text))) [
            | inl unchanged ↦ simp (live, on, unchanged) (unchanged_fresh on unchanged)
            | inr changed ↦
                simp (live, on, changed)
                  (checkpoint_answered-Fresh r k s _ b oks (oks k s found) others)
          ]
  ]
    where
      unchanged_fresh :
          r.disabled ≡ false
          → (same s.ref.sequence s.last_snapshot_sequence
              && eqb s.last_snapshot_text_length (len s.text))
            ≡ true
          → Fresh none r w
      unchanged_fresh on p = record {
        bounded = b;
        states_ok = oks;
        states_fresh = λ _ _.
            Each-of_but (IsFresh chunks bytes) k r.attempts (others on) found
              (same-IsFresh chunks bytes s chunks_pos bytes_pos (oks k s found) p);
      }

  accept_published-Fresh :
      (r : Relay W) (k : String) (s : PreviewState) (meta : PartMeta) (x : Option Err × W)
      → Bounded r chunks bytes
      → Each StateOk r.attempts
      → lookup k r.attempts ≡ some s
      → s.ended ≡ false
      → (r.disabled ≡ false → EachBut k (IsFresh chunks bytes) r.attempts)
      → Holds Fresh (accept_published r k s meta x)
  unfolding accept_published
  accept_published-Fresh r k s meta (some e, w) b oks found live others =
      fail_with-Fresh r e w b oks
  accept_published-Fresh r k s meta (none, w) b oks found live others =
      elim (Bool-cases (meta.has_object || is_some meta.element || snapshot_due r s)) [
        | inl due ↦ simp due (checkpoint-Fresh r k s w b oks found live others)
        | inr early ↦ simp early (record {
          bounded = b;
          states_ok = oks;
          states_fresh = λ _ on.
              Each-of_but (IsFresh chunks bytes) k r.attempts (others on) found
                (not_due-IsFresh r s chunks bytes b (oks k s found) (ground arith));
        })
      ]

  accept_into-Fresh :
      (part : StreamPart) (r : Relay W) (k : String) (s : PreviewState) (lane : Lane)
      (meta : PartMeta) (w : W)
      → Unit {0}
      → lookup k r.attempts ≡ some s
      → Fresh none r w
      → Holds Fresh (accept_into r k s part meta w)
  unfolding accept_into
  accept_into-Fresh part r k s lane meta w _ found h =
      elim (Bool-cases (s.ended || not meta.emit)) [
        | inl skip ↦ simp skip h
        | inr go ↦ simp go (
            accept_published-Fresh (put_state r k s1) k s1 meta _ b oks
              (lookup-insert_self k s1 r.attempts) (unfold take_part in ground arith)
              (λ on.
                EachBut-insert (IsFresh chunks bytes) k s1 r.attempts
                  (λ j t p _. h.states_fresh refl on j t p)))
      ]
    where
      s1 : PreviewState
      s1 = take_part s meta

      b : Bounded (put_state r k s1) chunks bytes
      b = record { chunk_bound = h.bounded.chunk_bound; char_bound = h.bounded.char_bound }

      oks : Each StateOk (put_state r k s1).attempts
      oks =
          Each-insert StateOk k s1 r.attempts h.states_ok
            (take_part-StateOk s meta (h.states_ok k s found))

  begin_answered-Fresh :
      (r : Relay W) (k : String) (ref : PreviewRef) (x : Option Err × W)
      → ref.sequence ≡ pos 0
      → Fresh none r x.1
      → EnsuredHolds Fresh (begin_answered r k ref x)
  unfolding begin_answered
  begin_answered-Fresh r k ref (some e, w) z h = fail_with-Fresh r e w h.bounded h.states_ok
  begin_answered-Fresh r k ref (none, w) z h =
      if_cases (EnsuredHolds Fresh) r.disabled (λ off. h)
        λ on.
          let (ok, fresh) = new_preview_state-IsFresh chunks bytes ref chunks_pos bytes_pos z in
          (
            lookup-insert_self k (new_preview_state ref) r.attempts,
            put_state-Fresh r k (new_preview_state ref) w h.bounded h.states_ok ok
                (λ live j s p _. h.states_fresh refl live j s p) fresh,
          )

  -- Between two checkpoints a preview takes fewer chunks, and fewer bytes of text, than the relay's
  -- bounds: if all live states satisfy that, and the bounds are positive as NewRelay makes them, then
  -- they satisfy it after every Accept that returns no error and leaves the relay running. A
  -- checkpoint never claims more than its preview has taken, whatever Accept returns.
  pub accept-Fresh :
      (r : Relay W) (part : StreamPart) (w : W) → Fresh none r w → Holds Fresh (accept r part w)
  unfolding begin_attempt
  accept-Fresh r part w =
      accept-Holds part Fresh (λ _ _. Unit {0}) (λ _ _ _ _ _ _. tt)
        (λ q lane meta v _ h.
          begin_answered-Fresh q _ _ _ (unfold preview_ref_for in refl) (record {
            bounded = h.bounded;
            states_ok = h.states_ok;
            states_fresh = h.states_fresh;
          }))
        (accept_into-Fresh part) r w
