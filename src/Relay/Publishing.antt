-- ===== src/Relay/Publishing.antt =====
-- Which chunks Accept of updates/relay.go publishes, through a connector that answers no error.
use Prim.Native.String.{len}
use mathlib.Core.Path.{subst}
use go_temporal_ai_sdk.Prelude.{
  String, ◌≡◌, refl, sym, ap, ◌∙◌, true, false, not, ◌&&◌, ◌||◌, Option, none, some, List, [], ◌∷◌,
  ◌++◌, ◌==◌, lookup, eqb, arith, if_cases,
}
use go_temporal_ai_sdk.Updates.Types.{
  PreviewBeginEvent, PreviewSnapshotEvent, PreviewChunkEvent, PreviewRef, Lane, preview_chunk,
}
use go_temporal_ai_sdk.Updates.Errors.{Err}
use go_temporal_ai_sdk.Updates.Connector.{Connector}
use go_temporal_ai_sdk.Relay.Part.{Options, StreamPart, PartMeta}
use go_temporal_ai_sdk.Relay.Classify.{Chunk, classify_part, merge_scope, chunk_from_part, is_some}
use go_temporal_ai_sdk.Relay.State.{Relay, PreviewState, enabled, base_event, snapshot_due}
use go_temporal_ai_sdk.Relay.Preview.{checkpointed, new_preview_state, take_part}
use go_temporal_ai_sdk.Relay.Accept.{
  Ensured, ready, stopped, same, checkpoint_answered, put_state, begin_answered, begin_attempt,
  ensure_found, ensure_preview, checkpoint, accept_published, accept_into, accept_ensured,
  accept_classified, accept,
}
use go_temporal_ai_sdk.Relay.Rules.{Each, Each-insert, Holds}

-- The connector answers no error, and `chunks` reads off the world which chunks it has published.
pub record Publishes {W : Type 0} (chunks : W → List Chunk) (c : Connector W) : Type 0 where
  pub begins :
      (e : PreviewBeginEvent) (w : W)
      → ((c.begin_preview e w).0 ≡ none) × (chunks (c.begin_preview e w).1 ≡ chunks w)
  pub checkpoints :
      (e : PreviewSnapshotEvent) (w : W)
      → ((c.checkpoint_preview e w).0 ≡ none) × (chunks (c.checkpoint_preview e w).1 ≡ chunks w)
  pub publishes :
      (e : PreviewChunkEvent) (w : W)
      → ((c.publish_update (preview_chunk e) w).0 ≡ none)
        × (chunks (c.publish_update (preview_chunk e) w).1 ≡ chunks w ++ e.chunk ∷ [])

module _ {W : Type 0} (chunks : W → List Chunk) (o : Options) where
  -- No preview has ended, nothing has failed, and these chunks are published.
  pub record Live (l : List Chunk) (e : Option Err) (r : Relay W) (w : W) : Type 0 where
    pub quiet : e ≡ none
    pub connected : Publishes chunks r.connector
    pub clocked : (v : W) → chunks (r.now v).1 ≡ chunks v
    pub optioned : r.options ≡ o
    pub running : r.disabled ≡ false
    pub open_all : Each (λ s. s.ended ≡ false) r.attempts
    pub shown : chunks w ≡ l

  move :
      {l l₁ : List Chunk} {e : Option Err} {r : Relay W} {w : W} (w₁ : W)
      → chunks w₁ ≡ l₁
      → Live l e r w
      → Live l₁ e r w₁
  move w₁ p h = record {
    quiet = h.quiet;
    connected = h.connected;
    clocked = h.clocked;
    optioned = h.optioned;
    running = h.running;
    open_all = h.open_all;
    shown = p;
  }

  keep :
      {l : List Chunk} {e : Option Err} {r : Relay W} {w : W} (k : String) (s : PreviewState)
      → s.ended ≡ false
      → Live l e r w
      → Live l e (put_state r k s) w
  keep {r = r} k s p h = record {
    quiet = h.quiet;
    connected = h.connected;
    clocked = h.clocked;
    optioned = h.optioned;
    running = h.running;
    open_all = Each-insert (λ t. t.ended ≡ false) k s r.attempts h.open_all p;
    shown = h.shown;
  }

  tick :
      {l : List Chunk} {e : Option Err} (r : Relay W) (kind id : String) (w : W)
      → Live l e r w
      → chunks (base_event r kind id w).1 ≡ l
  unfolding base_event
  tick r kind id w h = h.clocked w ∙ h.shown

  checkpoint_answered-Live :
      (l : List Chunk) (r : Relay W) (k : String) (s : PreviewState) (w₀ : W) (x : Option Err × W)
      → s.ended ≡ false
      → x.0 ≡ none
      → chunks x.1 ≡ l
      → Live l none r w₀
      → Holds (Live l) (checkpoint_answered r k s x)
  unfolding checkpoint_answered
  checkpoint_answered-Live l r k s w₀ (some e, w) p q c h = cc
  checkpoint_answered-Live l r k s w₀ (none, w) p q c h = keep k (checkpointed s) p (move w c h)

  checkpoint-Live :
      (l : List Chunk) (r : Relay W) (k : String) (s : PreviewState) (w : W)
      → s.ended ≡ false
      → Live l none r w
      → Holds (Live l) (checkpoint r k s w)
  unfolding checkpoint
  checkpoint-Live l r k s w p h =
      if_cases (Holds (Live l)) (s.ended || r.disabled) (λ _. h)
        λ _.
          if_cases (Holds (Live l))
            (same s.ref.sequence s.last_snapshot_sequence
              && eqb s.last_snapshot_text_length (len s.text))
            (λ _. h)
            λ _.
              checkpoint_answered-Live l r k s w _ p (h.connected.checkpoints _ _).0
                ((h.connected.checkpoints _ _).1 ∙ tick r _ _ w h) h

  accept_published-Live :
      (l : List Chunk) (r : Relay W) (k : String) (s : PreviewState) (meta : PartMeta) (w₀ : W)
      (x : Option Err × W) (l₀ : List Chunk)
      → s.ended ≡ false
      → x.0 ≡ none
      → chunks x.1 ≡ l
      → Live l₀ none r w₀
      → Holds (Live l) (accept_published r k s meta x)
  unfolding accept_published
  accept_published-Live l r k s meta w₀ (some e, w) l₀ p q c h = cc
  accept_published-Live l r k s meta w₀ (none, w) l₀ p q c h =
      if_cases (Holds (Live l)) (meta.has_object || is_some meta.element || snapshot_due r s)
        (λ _. checkpoint-Live l r k s w p (move w c h)) (λ _. move w c h)

  accept_into-Live :
      (part : StreamPart) (l : List Chunk) (r : Relay W) (k : String) (s : PreviewState)
      (meta : PartMeta) (w : W)
      → s.ended ≡ false
      → meta.emit ≡ true
      → Live l none r w
      → Holds (Live (l ++ chunk_from_part part meta ∷ [])) (accept_into r k s part meta w)
  unfolding accept_into
  accept_into-Live part l r k s meta w p emits h =
      if_cases (Holds (Live (l ++ chunk_from_part part meta ∷ []))) (s.ended || not meta.emit)
        (λ e. ground arith)
        λ _.
          accept_published-Live (l ++ chunk_from_part part meta ∷ []) r₁ k s₁ meta w _ l q
            (h₁.connected.publishes _ _).0
            ((h₁.connected.publishes _ _).1
              ∙ ap (λ c. c ++ chunk_from_part part meta ∷ []) (tick r₁ _ _ w h₁))
            h₁
    where
      s₁ : PreviewState
      s₁ = take_part s meta

      q : s₁.ended ≡ false
      q = unfold take_part in p

      r₁ : Relay W
      r₁ = put_state r k s₁

      h₁ : Live l none r₁ w
      h₁ = keep k s₁ q h

  -- A state that has not ended is found.
  abbrev EnsuredLive : List Chunk → Ensured × Relay W × W → Type 0
  EnsuredLive l (ready k s, r, w) = (s.ended ≡ false) × Live l none r w
  EnsuredLive l (stopped e, r, w) = ⊥

  begin_answered-Live :
      (l : List Chunk) (r : Relay W) (k : String) (ref : PreviewRef) (w₀ : W) (x : Option Err × W)
      → x.0 ≡ none
      → chunks x.1 ≡ l
      → Live l none r w₀
      → EnsuredLive l (begin_answered r k ref x)
  unfolding begin_answered
  begin_answered-Live l r k ref w₀ (some e, w) q c h = cc
  begin_answered-Live l r k ref w₀ (none, w) q c h =
      if_cases (EnsuredLive l) r.disabled (λ e. ground (arith, h.running))
        (λ _. (refl, keep k (new_preview_state ref) refl (move w c h)))

  ensure_found-Live :
      (l : List Chunk) (r : Relay W) (k : String) (ref : PreviewRef) (w : W)
      (found : Option PreviewState)
      → lookup k r.attempts ≡ found
      → Live l none r w
      → EnsuredLive l (ensure_found r k ref w found)
  unfolding ensure_found begin_attempt
  ensure_found-Live l r k ref w none e h =
      begin_answered-Live l r k ref w _ (h.connected.begins _ _).0
        ((h.connected.begins _ _).1 ∙ tick r _ _ w h) h
  ensure_found-Live l r k ref w (some s) e h = (h.open_all k s e, h)

  accept_ensured-Live :
      (part : StreamPart) (meta : PartMeta) (l : List Chunk) (x : Ensured × Relay W × W)
      → meta.emit ≡ true
      → EnsuredLive l x
      → Holds (Live (l ++ chunk_from_part part meta ∷ [])) (accept_ensured part meta x)
  unfolding accept_ensured
  accept_ensured-Live part meta l (ready k s, r, w) e h =
      accept_into-Live part l r k s meta w h.0 e h.1
  accept_ensured-Live part meta l (stopped x, r, w) e h = absurd h

  module _ (visible : o.visible ≡ true) (streaming : (o.stream_id == "") ≡ false) where
    enabled-Live : (l : List Chunk) (r : Relay W) (w : W) → Live l none r w → enabled r ≡ true
    unfolding enabled
    enabled-Live l r w h =
        subst (λ p. (p.visible && not (p.stream_id == "") && not r.disabled) ≡ true)
          (sym h.optioned) (ground (arith, h.running))

    -- A part that classifyPart lets out is published as one chunk.
    pub accept-Live :
        (part : StreamPart) (l : List Chunk) (r : Relay W) (w : W) (lane : Lane) (found : PartMeta)
        → classify_part o.lane part ≡ some (lane, found)
        → found.emit ≡ true
        → Live l none r w
        → Holds (Live (l ++ chunk_from_part part found ∷ [])) (accept r part w)
    unfolding accept accept_classified ensure_preview chunk_from_part
    accept-Live part l r w lane found c emits h = rw (enabled-Live l r w h) (
        rw (ap (λ p. classify_part p.lane part) h.optioned ∙ c) (
          accept_ensured-Live part
            (record found { scope = merge_scope r.options.scope found.scope }) l
            (ensure_preview r lane
              (record found { scope = merge_scope r.options.scope found.scope }) w)
            emits (ensure_found-Live l r _ _ w _ refl h)))

    -- A part that classifyPart leaves out is not published.
    pub accept-left_out :
        (part : StreamPart) (l : List Chunk) (r : Relay W) (w : W)
        → classify_part o.lane part ≡ none
        → Live l none r w
        → Holds (Live l) (accept r part w)
    unfolding accept accept_classified
    accept-left_out part l r w c h =
        rw (enabled-Live l r w h) (rw (ap (λ p. classify_part p.lane part) h.optioned ∙ c) h)
