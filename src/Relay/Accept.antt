-- ===== src/Relay/Accept.antt =====
-- Accept of updates/relay.go with ensurePreview and checkpoint. A method takes the relay and the
-- world and returns its error with both. A *previewState lives in `attempts`, so a change of it is
-- written back under its key before the connector is called.
use Prim.Native.String.{len}
use go_temporal_ai_sdk.Prelude.{
  ℤ, pos, ltb_ℤ, String, Bool, not, ◌&&◌, ◌||◌, Option, none, some, eqb, lookup, insert,
  if◌then◌else◌,
}
use go_temporal_ai_sdk.Updates.Types.{
  PreviewRef, Lane, PreviewSnapshotEvent, PreviewChunkEvent, preview_chunk,
  event_type_preview_begin, event_type_preview_chunk, event_type_preview_snapshot,
}
use go_temporal_ai_sdk.Updates.Errors.{Err}
use go_temporal_ai_sdk.Relay.Part.{StreamPart, PartMeta}
use go_temporal_ai_sdk.Relay.Classify.{classify_part, merge_scope, chunk_from_part, is_some}
use go_temporal_ai_sdk.Relay.State.{
  PreviewState, Relay, enabled, snapshot, snapshot_due, base_event, handle_error, preview_event_id,
}
use go_temporal_ai_sdk.Relay.Preview.{
  attempt_key, preview_ref_for, new_preview_state, checkpointed, take_part,
}

abbrev pub Answer : Type 0 → Type 0
Answer W = Option Err × Relay W × W

-- What ensurePreview returns: a state under its key, or a nil state with an error that may be nil.
pub data Ensured : Type 0 where
  ready : String → PreviewState → Ensured
  stopped : Option Err → Ensured

abbrev pub same : ℤ → ℤ → Bool
same a b = not (ltb_ℤ a b || ltb_ℤ b a)

module _ {W : Type 0} where
  abbrev pub put_state : Relay W → String → PreviewState → Relay W
  put_state r key s = record r { attempts = insert key s r.attempts }

  -- `return r.handleError(err)`
  abbrev pub fail_with : Relay W → Err → W → Answer W
  fail_with r e w = let (e', r') = handle_error r e in (e', r', w)

  -- ensurePreview after the store's answer.
  unfoldable pub begin_answered :
      Relay W → String → PreviewRef → Option Err × W → Ensured × Relay W × W
  begin_answered r key ref (some e, w) =
      let (failed, r1, w1) = fail_with r e w in (stopped failed, r1, w1)
  begin_answered r key ref (none, w) =
      let s = new_preview_state ref in
      if r.disabled then (stopped none, r, w) else (ready key s, put_state r key s, w)

  -- The part of ensurePreview that begins a preview which is not in the map.
  unfoldable pub begin_attempt : Relay W → String → PreviewRef → W → Ensured × Relay W × W
  unfolding begin_answered
  begin_attempt r key ref w =
      let id = preview_event_id ref.attempt_id (pos 0) "begin" in
      let (base, w1) = base_event r event_type_preview_begin id w in
      begin_answered r key ref (r.connector.begin_preview (record { base = base; ref = ref }) w1)

  -- `if state := r.attempts[key]; state != nil { return state, nil }`
  unfoldable pub ensure_found :
      Relay W → String → PreviewRef → W → Option PreviewState → Ensured × Relay W × W
  unfolding begin_attempt
  ensure_found r key ref w none = begin_attempt r key ref w
  ensure_found r key ref w (some s) = (ready key s, r, w)

  unfoldable pub ensure_preview : Relay W → Lane → PartMeta → W → Ensured × Relay W × W
  unfolding ensure_found
  ensure_preview r lane meta w =
      let key = attempt_key lane meta in
      ensure_found r key (preview_ref_for r.options lane meta) w (lookup key r.attempts)

  -- checkpoint after the store's answer.
  unfoldable pub checkpoint_answered : Relay W → String → PreviewState → Option Err × W → Answer W
  checkpoint_answered r key s (some e, w) = fail_with r e w
  checkpoint_answered r key s (none, w) = (none, put_state r key (checkpointed s), w)

  unfoldable pub checkpoint : Relay W → String → PreviewState → W → Answer W
  unfolding checkpoint_answered
  checkpoint r key s w =
      if s.ended || r.disabled
      then (none, r, w)
      else if same s.ref.sequence s.last_snapshot_sequence
          && eqb s.last_snapshot_text_length (len s.text)
      then (none, r, w)
      else let id = preview_event_id s.ref.attempt_id s.ref.sequence "snapshot" in
        let (base, w1) = base_event r event_type_preview_snapshot id w in
        let event : PreviewSnapshotEvent = record {
          base = base;
          ref = s.ref;
          snapshot = snapshot s;
        } in
        checkpoint_answered r key s (r.connector.checkpoint_preview event w1)

  -- Accept after the publisher's answer.
  unfoldable pub accept_published :
      Relay W → String → PreviewState → PartMeta → Option Err × W → Answer W
  accept_published r key s meta (some e, w) = fail_with r e w
  accept_published r key s meta (none, w) =
      if meta.has_object || is_some meta.element || snapshot_due r s
      then checkpoint r key s w
      else (none, r, w)

  -- Accept once the preview's state is found.
  unfoldable pub accept_into :
      Relay W → String → PreviewState → StreamPart → PartMeta → W → Answer W
  unfolding accept_published
  accept_into r key s part meta w =
      if s.ended || not meta.emit
      then (none, r, w)
      else let s1 = take_part s meta in
        let r1 = put_state r key s1 in
        let id = preview_event_id s1.ref.attempt_id s1.ref.sequence "chunk" in
        let (base, w1) = base_event r1 event_type_preview_chunk id w in
        let event : PreviewChunkEvent = record {
          base = base;
          ref = s1.ref;
          chunk = chunk_from_part part meta;
        } in
        accept_published r1 key s1 meta (r1.connector.publish_update (preview_chunk event) w1)

  -- Accept after ensurePreview.
  unfoldable pub accept_ensured : StreamPart → PartMeta → Ensured × Relay W × W → Answer W
  accept_ensured part meta (ready key s, r, w) = accept_into r key s part meta w
  accept_ensured part meta (stopped e, r, w) = (e, r, w)

  -- Accept after classifyPart.
  unfoldable pub accept_classified : Relay W → StreamPart → W → Option (Lane × PartMeta) → Answer W
  accept_classified r part w none = (none, r, w)
  accept_classified r part w (some (lane, found)) =
      let meta = record found { scope = merge_scope r.options.scope found.scope } in
      accept_ensured part meta (ensure_preview r lane meta w)

  unfoldable pub accept : Relay W → StreamPart → W → Answer W
  unfolding accept_classified accept_ensured
  accept r part w =
      if not (enabled r)
      then (none, r, w)
      else accept_classified r part w (classify_part r.options.lane part)
