-- ===== src/Relay/Delivery.antt =====
-- The events that updates/relay.go hands to its connector, for any connector: each passes
-- ValidateEvent. A connector may rely on that: a property `J` of its world that it keeps when it is
-- given valid events is kept by Accept, Succeed, Fail and Cancel.
use Prim.Native.String.{len}
use go_temporal_ai_sdk.Prelude.{
  is_negative, String, ◌≡◌, refl, true, false, if_cases, Option, none, some, ◌==◌, lookup, not,
  ◌&&◌, ◌||◌, eqb,
}
use go_temporal_ai_sdk.Updates.Types.{
  PreviewBeginEvent, PreviewSnapshotEvent, PreviewEndEvent, PreviewRef, PreviewOutcome, UpdateEvent,
  Lane, preview_begin, preview_snapshot, preview_end, preview_outcome_succeeded,
  preview_outcome_failed, preview_outcome_canceled,
}
use go_temporal_ai_sdk.Updates.Errors.{Err, is_stream_not_found}
use go_temporal_ai_sdk.Updates.Validation.{negative_step, validate_event, validate_preview}
use go_temporal_ai_sdk.Updates.Connector.{Connector}
use go_temporal_ai_sdk.Relay.Part.{StreamPart, PartMeta, failure_policy_best_effort}
use go_temporal_ai_sdk.Relay.Classify.{is_some}
use go_temporal_ai_sdk.Relay.Preview.{
  checkpointed, new_preview_state, take_part, next_sequence, end_with, preview_ref_for, attempt_key,
}
use go_temporal_ai_sdk.Relay.State.{
  Relay, PreviewState, Clock, base_event, handle_error, snapshot_due,
}
use go_temporal_ai_sdk.Relay.Accept.{
  same, checkpoint_answered, put_state, fail_with, begin_answered, begin_attempt, checkpoint,
  accept_published, accept_into, accept,
}
use go_temporal_ai_sdk.Relay.Complete.{end_answered, end_attempt, complete, succeed, fail, cancel}
use go_temporal_ai_sdk.Relay.Rules.{
  Each, Each-insert, EnsuredHolds, Holds, ProgressHolds, accept-Holds, complete-Holds,
  lookup-insert_self,
}
use go_temporal_ai_sdk.Relay.Validity.{
  MetaOk, classify_part-MetaOk, preview_ref_for-valid, next_sequence-valid,
}
use go_temporal_ai_sdk.Relay.Envelopes.{
  is_outcome, begin_event-valid, chunk_event-valid, snapshot_event-valid, end_event-valid,
}

-- The connector keeps `J` when it is given a valid event.
pub record Respects {ℓ} {W : Type 0} (J : W → Type ℓ) (c : Connector W) : Type ℓ where
  pub begins :
      (e : PreviewBeginEvent) (w : W)
      → validate_event (preview_begin e) ≡ none
      → J w
      → J (c.begin_preview e w).1
  pub checkpoints :
      (e : PreviewSnapshotEvent) (w : W)
      → validate_event (preview_snapshot e) ≡ none
      → J w
      → J (c.checkpoint_preview e w).1
  pub ends :
      (e : PreviewEndEvent) (w : W)
      → validate_event (preview_end e) ≡ none
      → J w
      → J (c.end_preview e w).1
  pub publishes :
      (e : UpdateEvent) (w : W) → validate_event e ≡ none → J w → J (c.publish_update e w).1

-- The clock keeps `J`, and never reads a time before 1970.
pub record Ticks {ℓ} {W : Type 0} (J : W → Type ℓ) (now : Clock W) : Type ℓ where
  pub keeps : (w : W) → J w → J (now w).1
  pub after_epoch : (w : W) → is_negative (now w).0 ≡ false

module _ {ℓ} {W : Type 0} (J : W → Type ℓ) where
  -- What the methods keep: the connector and the clock are as assumed, the options too, the references
  -- in the map are valid, and the world satisfies `J`.
  pub record Sound (e : Option Err) (r : Relay W) (w : W) : Type ℓ where
    pub connected : Respects J r.connector
    pub clocked : Ticks J r.now
    pub streaming : (r.options.stream_id == "") ≡ false
    pub step_ok : negative_step r.options.scope.step_number ≡ false
    pub refs_ok : Each (λ s. validate_preview s.ref ≡ none) r.attempts
    pub world : J w

  -- A change of the map that keeps its references valid, and a new world.
  keep :
      {e : Option Err} {r : Relay W} {w : W} (e₁ : Option Err) (k : String) (s : PreviewState)
      (w₁ : W)
      → Sound e r w
      → validate_preview s.ref ≡ none
      → J w₁
      → Sound e₁ (put_state r k s) w₁
  keep {r = r} e₁ k s w₁ h v j = record {
    connected = h.connected;
    clocked = h.clocked;
    streaming = h.streaming;
    step_ok = h.step_ok;
    refs_ok = Each-insert (λ t. validate_preview t.ref ≡ none) k s r.attempts h.refs_ok v;
    world = j;
  }

  move :
      {e : Option Err} {r : Relay W} {w : W} (e₁ : Option Err) (w₁ : W)
      → Sound e r w
      → J w₁
      → Sound e₁ r w₁
  move e₁ w₁ h j = record {
    connected = h.connected;
    clocked = h.clocked;
    streaming = h.streaming;
    step_ok = h.step_ok;
    refs_ok = h.refs_ok;
    world = j;
  }

  tick :
      {e : Option Err} (r : Relay W) (kind id : String) (w : W)
      → Sound e r w
      → J (base_event r kind id w).1
  unfolding base_event
  tick r kind id w h = h.clocked.keeps w h.world

  fail_with-Sound : (r : Relay W) (e : Err) (w : W) → Sound none r w → Holds Sound (fail_with r e w)
  unfolding handle_error
  fail_with-Sound r e w h =
      if_cases (λ (x : Option Err × Relay W). Sound x.0 x.1 w)
        (r.options.failure_policy == failure_policy_best_effort && is_stream_not_found e)
        (λ _. record {
          connected = h.connected;
          clocked = h.clocked;
          streaming = h.streaming;
          step_ok = h.step_ok;
          refs_ok = h.refs_ok;
          world = h.world;
        })
        (λ _. move _ _ h h.world)

  checkpoint_answered-Sound :
      (r : Relay W) (k : String) (s : PreviewState) (x : Option Err × W)
      → validate_preview s.ref ≡ none
      → Sound none r x.1
      → Holds Sound (checkpoint_answered r k s x)
  unfolding checkpoint_answered
  checkpoint_answered-Sound r k s (some e, w) v h = fail_with-Sound r e w h
  checkpoint_answered-Sound r k s (none, w) v h = keep none k (checkpointed s) w h v h.world

  checkpoint-Sound :
      (r : Relay W) (k : String) (s : PreviewState) (w : W)
      → lookup k r.attempts ≡ some s
      → Sound none r w
      → Holds Sound (checkpoint r k s w)
  unfolding checkpoint
  checkpoint-Sound r k s w found h =
      if_cases (Holds Sound) (s.ended || r.disabled) (λ _. h)
        λ _.
          if_cases (Holds Sound)
            (same s.ref.sequence s.last_snapshot_sequence
              && eqb s.last_snapshot_text_length (len s.text))
            (λ _. h)
            λ _. checkpoint_answered-Sound r k s _ v (
              move none _ h (
                h.connected.checkpoints _ _
                  (snapshot_event-valid r h.streaming h.clocked.after_epoch _ _ w s.ref v _)
                  (tick r _ _ w h)))
    where
      v : validate_preview s.ref ≡ none
      v = h.refs_ok k s found

  accept_published-Sound :
      (r : Relay W) (k : String) (s : PreviewState) (meta : PartMeta) (x : Option Err × W)
      → lookup k r.attempts ≡ some s
      → Sound none r x.1
      → Holds Sound (accept_published r k s meta x)
  unfolding accept_published
  accept_published-Sound r k s meta (some e, w) found h = fail_with-Sound r e w h
  accept_published-Sound r k s meta (none, w) found h =
      if_cases (Holds Sound) (meta.has_object || is_some meta.element || snapshot_due r s)
        (λ _. checkpoint-Sound r k s w found h) (λ _. h)

  accept_into-Sound :
      (part : StreamPart) (r : Relay W) (k : String) (s : PreviewState) (lane : Lane)
      (meta : PartMeta) (w : W)
      → MetaOk part lane meta
      → lookup k r.attempts ≡ some s
      → Sound none r w
      → Holds Sound (accept_into r k s part meta w)
  unfolding accept_into
  accept_into-Sound part r k s lane meta w m found h =
      if_cases (Holds Sound) (s.ended || not meta.emit) (λ _. h)
        λ _. accept_published-Sound r₁ k s₁ meta _ (lookup-insert_self k s₁ r.attempts) (
          move none _ h₁ (
            h.connected.publishes _ _
              (chunk_event-valid r₁ h.streaming h.clocked.after_epoch _ _ w s₁.ref v part meta
                m.type_ok)
              (tick r₁ _ _ w h₁)))
    where
      s₁ : PreviewState
      s₁ = take_part s meta

      v : validate_preview s₁.ref ≡ none
      v = unfold take_part in next_sequence-valid s (h.refs_ok k s found)

      r₁ : Relay W
      r₁ = put_state r k s₁

      h₁ : Sound none r₁ w
      h₁ = keep none k s₁ w h v h.world

  begin_answered-Sound :
      (r : Relay W) (k : String) (ref : PreviewRef) (x : Option Err × W)
      → validate_preview ref ≡ none
      → Sound none r x.1
      → EnsuredHolds Sound (begin_answered r k ref x)
  unfolding begin_answered
  begin_answered-Sound r k ref (some e, w) v h = fail_with-Sound r e w h
  begin_answered-Sound r k ref (none, w) v h =
      if_cases (EnsuredHolds Sound) r.disabled (λ _. h)
        λ _. (
          lookup-insert_self k (new_preview_state ref) r.attempts,
          keep none k (new_preview_state ref) w h v h.world,
        )

  begin_attempt-Sound :
      (part : StreamPart) (r : Relay W) (lane : Lane) (meta : PartMeta) (w : W)
      → MetaOk part lane meta
      → Sound none r w
      → EnsuredHolds Sound
          (begin_attempt r (attempt_key lane meta) (preview_ref_for r.options lane meta) w)
  unfolding begin_attempt
  begin_attempt-Sound part r lane meta w m h =
      let v = preview_ref_for-valid r.options lane part meta m in
      begin_answered-Sound r _ _ _ v (
        move none _ h (
          h.connected.begins _ _ (begin_event-valid r h.streaming h.clocked.after_epoch _ _ w _ v)
            (tick r _ _ w h)))

  end_answered-Sound :
      (r : Relay W) (k : String) (s : PreviewState) (outcome : PreviewOutcome) (x : Option Err × W)
      → validate_preview s.ref ≡ none
      → Sound none r x.1
      → ProgressHolds Sound (end_answered r k s outcome x)
  unfolding end_answered
  end_answered-Sound r k s outcome (some e, w) v h = fail_with-Sound r e w h
  end_answered-Sound r k s outcome (none, w) v h = keep none k (end_with s outcome) w h v h.world

  end_attempt-Sound :
      (outcome : PreviewOutcome) (reason : String)
      → is_outcome outcome ≡ true
      → (r : Relay W) (k : String) (s : PreviewState) (w : W) → lookup k r.attempts ≡ some s
      → Sound none r w
      → ProgressHolds Sound (end_attempt r k s outcome reason w)
  unfolding end_attempt
  end_attempt-Sound outcome reason o r k s w found h = end_answered-Sound r₁ k s₁ outcome _ v (
      move none _ h₁ (
        h.connected.ends _ _
          (end_event-valid r₁ h.streaming h.clocked.after_epoch _ _ w s₁.ref v outcome reason _ o)
          (tick r₁ _ _ w h₁)))
    where
      s₁ : PreviewState
      s₁ = next_sequence s

      v : validate_preview s₁.ref ≡ none
      v = next_sequence-valid s (h.refs_ok k s found)

      r₁ : Relay W
      r₁ = put_state r k s₁

      h₁ : Sound none r₁ w
      h₁ = keep none k s₁ w h v h.world

  -- Every event that Accept hands to the connector is valid: with a property `J` of the world that the
  -- connector keeps under valid events, and the clock keeps, Accept keeps it, if the references begun
  -- so far are valid, the stream has an identifier, no step number is negative and the clock reads a
  -- time after 1970.
  pub accept-Sound :
      (r : Relay W) (part : StreamPart) (w : W)
      → is_negative part.step_number ≡ false
      → Sound none r w
      → Holds Sound (accept r part w)
  accept-Sound r part w n =
      accept-Holds part Sound (MetaOk part)
        (λ q v lane found h c. classify_part-MetaOk q.options part lane found h.step_ok n c)
        (begin_attempt-Sound part) (accept_into-Sound part) r w

  -- Every event that Succeed, Fail and Cancel hand to the connector is valid: with a property `J` of
  -- the world that the connector keeps under valid events, and the clock keeps, the three keep it, if
  -- the references begun so far are valid, the stream has an identifier, no step number is negative
  -- and the clock reads a time after 1970.
  pub complete-Sound :
      (r : Relay W) (reason : String) (w : W)
      → Sound none r w
      → Holds Sound (succeed r w) × Holds Sound (fail r reason w) × Holds Sound (cancel r reason w)
  unfolding succeed fail cancel
  complete-Sound r reason w h = (
    run preview_outcome_succeeded "" refl,
    run preview_outcome_failed reason refl,
    run preview_outcome_canceled reason refl,
  )
    where
      run :
          (outcome : PreviewOutcome) (why : String)
          → is_outcome outcome ≡ true
          → Holds Sound (complete r outcome why w)
      run outcome why o =
          complete-Holds outcome why Sound checkpoint-Sound (end_attempt-Sound outcome why o) r w h
