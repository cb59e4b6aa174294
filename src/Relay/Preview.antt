-- ===== src/Relay/Preview.antt =====
-- The names that ensurePreview gives to a preview in updates/relay.go, and the changes of a
-- previewState that involve no call: a new state, a part taken, a checkpoint that the store took.
use Prim.Native.String.{len}
use go_temporal_ai_sdk.Prelude.{
  pos, ◌+ℤ◌, String, true, false, not, ◌&&◌, none, some, [], ◌∷◌, ◌++◌, ◌==◌, join, if◌then◌else◌,
}
use go_temporal_ai_sdk.Updates.Types.{PreviewRef, PreviewOutcome, Lane, lane_reasoning}
use go_temporal_ai_sdk.Relay.Part.{Options, PartMeta}
use go_temporal_ai_sdk.Relay.Classify.{sanitize}
use go_temporal_ai_sdk.Relay.State.{PreviewState}

-- The key of ensurePreview's map, and the names of the preview that it begins.
unfoldable pub attempt_key : Lane → PartMeta → String
attempt_key lane meta = join (
    lane ∷ (if meta.scope.step_id == "" then [] else ":step:" ∷ meta.scope.step_id ∷ [])
    ++ (if meta.tool_call_id == "" then [] else ":tool:" ∷ meta.tool_call_id ∷ []))

unfoldable pub attempt_id_for : Options → Lane → PartMeta → String
attempt_id_for o lane meta = join (
    (if o.attempt_id == "" then "attempt" else o.attempt_id)
    ∷ ":"
    ∷ lane
    ∷ (if meta.tool_call_id == "" then [] else ":" ∷ sanitize meta.tool_call_id ∷ []))

unfoldable pub target_record_id_for : Options → Lane → PartMeta → String
target_record_id_for o lane meta =
    let target =
      if not (meta.tool_call_id == "")
      then join ("tool:" ∷ meta.tool_call_id ∷ [])
      else if not (o.target_record_id == "") && lane == lane_reasoning
      then join (o.target_record_id ∷ ":reasoning" ∷ [])
      else o.target_record_id in
    if target == "" then join ("message:" ∷ o.stream_id ∷ []) else target

unfoldable pub preview_ref_for : Options → Lane → PartMeta → PreviewRef
unfolding attempt_id_for target_record_id_for
preview_ref_for o lane meta = record {
  attempt_id = attempt_id_for o lane meta;
  target_record_id = target_record_id_for o lane meta;
  lane = lane;
  sequence = pos 0;
  scope = meta.scope;
}

abbrev pub new_preview_state : PreviewRef → PreviewState
new_preview_state ref = record {
  ref = ref;
  text = "";
  object = none;
  elements = [];
  last_snapshot_sequence = pos 0;
  last_snapshot_text_length = 0;
  ended = false;
  outcome = "";
}

-- What a checkpoint that the store took leaves in the state.
abbrev pub checkpointed : PreviewState → PreviewState
checkpointed s = record s {
  last_snapshot_sequence = s.ref.sequence;
  last_snapshot_text_length = len s.text;
}

-- `state.ref.Sequence++` and the fields that the part sets.
unfoldable pub take_part : PreviewState → PartMeta → PreviewState
take_part s meta = record s {
  ref = record s.ref { sequence = s.ref.sequence +ℤ pos 1 };
  text = if meta.delta == "" then s.text else join (s.text ∷ meta.delta ∷ []);
  object = if meta.has_object then meta.object else s.object;
  elements = elim meta.element [ none ↦ s.elements | some v ↦ s.elements ++ v ∷ [] ];
}

-- `state.ref.Sequence++` of complete.
abbrev pub next_sequence : PreviewState → PreviewState
next_sequence s = record s { ref = record s.ref { sequence = s.ref.sequence +ℤ pos 1 } }

abbrev pub end_with : PreviewState → PreviewOutcome → PreviewState
end_with s outcome = record s { ended = true; outcome = outcome }
