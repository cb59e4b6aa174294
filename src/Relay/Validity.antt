-- ===== src/Relay/Validity.antt =====
-- That the events which updates/relay.go hands to its connector pass ValidateEvent: the preview
-- references, the chunks and the bases that it builds.
use mathlib.Core.Path.{subst}
use go_temporal_ai_sdk.Prelude.{
  ℤ, ◌+ℤ◌, is_negative, String, ◌≡◌, refl, ◌∙◌, Bool, true, false, not, ◌&&◌, inl, inr, Bool-cases,
  if_cases, Option, none, some, List, [], ◌∷◌, ◌==◌, eq_iff, lookup, insert, lookup-insert,
  append-ne_empty, arith, if◌then◌else◌,
}
use go_temporal_ai_sdk.Updates.Types.{Value, str, PreviewRef, Lane, lane_object}
use go_temporal_ai_sdk.Updates.Validation.{
  is_lane, negative_step, validate_preview, validate_preview_chunk,
}
use go_temporal_ai_sdk.Relay.Part.{Options, StreamPart, PartMeta}
use go_temporal_ai_sdk.Relay.Classify.{
  classify_part, classify_text_delta, text_lane, scope_from_part, merge_scope, chunk_from_part,
  insert_text, insert_value, is_plain, is_some,
}
use go_temporal_ai_sdk.Relay.State.{preview_event_id, PreviewState}
use go_temporal_ai_sdk.Relay.Preview.{
  attempt_id_for, target_record_id_for, preview_ref_for, next_sequence,
}

-- The lane and the meta of a part, once its scope is merged: what a valid reference needs of them.
pub record MetaOk (part : StreamPart) (lane : Lane) (meta : PartMeta) : Type 0 where
  pub lane_ok : is_lane lane ≡ true
  pub step_ok : negative_step meta.scope.step_number ≡ false
  pub type_ok : (part.type == "") ≡ false

pub preview_event_id-ne_empty :
    (attempt : String) (n : ℤ) (suffix : String) → (preview_event_id attempt n suffix == "") ≡ false
unfolding preview_event_id
preview_event_id-ne_empty attempt n suffix = append-ne_empty _ _ refl

attempt_id_for-ne_empty :
    (o : Options) (lane : Lane) (meta : PartMeta) → (attempt_id_for o lane meta == "") ≡ false
unfolding attempt_id_for
attempt_id_for-ne_empty o lane meta =
    append-ne_empty _ _
      (if_cases (λ s. (s == "") ≡ false) (o.attempt_id == "") (λ _. refl) (λ p. p))

target_record_id_for-ne_empty :
    (o : Options) (lane : Lane) (meta : PartMeta) → (target_record_id_for o lane meta == "") ≡ false
unfolding target_record_id_for
target_record_id_for-ne_empty o lane meta =
    ground (arith, append-ne_empty "message:" o.stream_id refl)

pub preview_ref_for-valid :
    (o : Options) (lane : Lane) (part : StreamPart) (meta : PartMeta)
    → MetaOk part lane meta
    → validate_preview (preview_ref_for o lane meta) ≡ none
unfolding preview_ref_for validate_preview
preview_ref_for-valid o lane part meta m =
    simp (attempt_id_for-ne_empty, target_record_id_for-ne_empty, m.lane_ok, m.step_ok)

-- A reference stays valid as its sequence grows.
pub next_sequence-valid :
    (s : PreviewState)
    → validate_preview s.ref ≡ none
    → validate_preview (next_sequence s).ref ≡ none
unfolding validate_preview ◌+ℤ◌
next_sequence-valid s h = ground arith

-- Writing another key leaves the chunk's type.
module _ (k : String) (m : List (String × Value)) (other : (k == "type") ≡ false) where
  insert-keeps_type : (v : Value) → lookup "type" (insert k v m) ≡ lookup "type" m
  insert-keeps_type v = rw (lookup-insert k "type" v m, other)

  insert_text-keeps_type : (v : String) → lookup "type" (insert_text k v m) ≡ lookup "type" m
  insert_text-keeps_type v =
      if_cases (λ c. lookup "type" c ≡ lookup "type" m) (v == "") (λ _. refl)
        (λ _. insert-keeps_type (str v))

  insert_value-keeps_type :
      (v : Option Value) → lookup "type" (insert_value k v m) ≡ lookup "type" m
  insert_value-keeps_type none = refl
  insert_value-keeps_type (some v) = insert-keeps_type v

  insert_if-keeps_type :
      (b : Bool) (v : Value) → lookup "type" (if b then insert k v m else m) ≡ lookup "type" m
  insert_if-keeps_type b v =
      if_cases (λ c. lookup "type" c ≡ lookup "type" m) b (λ _. insert-keeps_type v) (λ _. refl)

  insert_unless-keeps_type :
      (b : Bool) (v : Value) → lookup "type" (if b then m else insert k v m) ≡ lookup "type" m
  insert_unless-keeps_type b v =
      if_cases (λ c. lookup "type" c ≡ lookup "type" m) b (λ _. refl) (λ _. insert-keeps_type v)

lookup_first :
    (part : StreamPart) → lookup "type" (("type", str part.type) ∷ []) ≡ some (str part.type)
unfolding lookup
lookup_first part = refl

chunk_from_part-type :
    (part : StreamPart) (meta : PartMeta)
    → lookup "type" (chunk_from_part part meta) ≡ some (str part.type)
unfolding chunk_from_part
chunk_from_part-type part meta =
    insert_value-keeps_type "content" _ refl part.content
    ∙ insert_unless-keeps_type "finishReason" _ refl _ _
    ∙ insert_text-keeps_type "toolName" _ refl part.tool_name
    ∙ insert_text-keeps_type "toolCallId" _ refl part.tool_call_id
    ∙ insert_if-keeps_type "object" _ refl _ _
    ∙ insert_value-keeps_type "element" _ refl meta.element
    ∙ insert_value-keeps_type "input" _ refl meta.input
    ∙ insert_text-keeps_type "delta" _ refl meta.delta
    ∙ lookup_first part

pub chunk-valid :
    (ref : PreviewRef) (part : StreamPart) (meta : PartMeta)
    → validate_preview ref ≡ none
    → (part.type == "") ≡ false
    → validate_preview_chunk ref (chunk_from_part part meta) ≡ none
unfolding validate_preview_chunk
chunk-valid ref part meta v t = simp (v, chunk_from_part-type, t)

-- What classifyPart finds is on one of the four lanes and keeps the part's scope.
data FoundOk (part : StreamPart) : Option (Lane × PartMeta) → Type 0 where
  absent : FoundOk part none
  present :
      {x : Lane × PartMeta}
      → is_lane x.0 ≡ true
      → x.1.scope ≡ scope_from_part part
      → FoundOk part (some x)

FoundOk-present :
    {part : StreamPart} {x : Lane × PartMeta}
    → FoundOk part (some x)
    → (is_lane x.0 ≡ true) × (x.1.scope ≡ scope_from_part part)
FoundOk-present (present a b) = (a, b)

text_lane-is_lane : (default : Lane) → is_lane (text_lane default) ≡ true
unfolding text_lane
text_lane-is_lane default =
    if_cases (λ l. is_lane l ≡ true) (default == lane_object) (λ _. refl) (λ _. refl)

classify_text_delta-FoundOk :
    (default : Lane) (part : StreamPart) → FoundOk part (classify_text_delta default part)
unfolding classify_text_delta
classify_text_delta-FoundOk default part =
    if_cases (FoundOk part) (default == lane_object && not (is_some part.partial_output))
      (λ _. absent) (λ _. present (text_lane-is_lane default) refl)

classify_part-FoundOk :
    (default : Lane) (part : StreamPart) → FoundOk part (classify_part default part)
unfolding classify_part
classify_part-FoundOk default part =
    branch "stream-start" (present (text_lane-is_lane default) refl) (
      if_cases (FoundOk part) (is_plain part.type) (λ _. present (text_lane-is_lane default) refl)
        λ _. branch "text-delta" (classify_text_delta-FoundOk default part) (
          branch "reasoning-delta" (present refl refl) (
            branch "tool-input-delta" (present refl refl) (
              branch "tool-input-end" (present refl refl) (
                branch "tool-call" (present refl refl)
                  (branch "element" (present refl refl) absent))))))
  where
    branch :
        (t : String) {x y : Option (Lane × PartMeta)}
        → FoundOk part x
        → FoundOk part y
        → FoundOk part (if part.type == t then x else y)
    branch t hx hy = if_cases (FoundOk part) (part.type == t) (λ _. hx) (λ _. hy)

-- A part with an empty type is not found.
classify_part-untyped :
    (default : Lane) (part : StreamPart) → part.type ≡ "" → classify_part default part ≡ none
unfolding classify_part
classify_part-untyped default part e = simp e

found-type :
    (default : Lane) (part : StreamPart) {x : Lane × PartMeta}
    → classify_part default part ≡ some x
    → (part.type == "") ≡ false
found-type default part c = elim (Bool-cases (part.type == "")) [
  | inl e ↦ cc (classify_part-untyped default part ((eq_iff part.type "").0 e))
  | inr e ↦ e
]

scope-step :
    (o : Options) (part : StreamPart)
    → negative_step o.scope.step_number ≡ false
    → is_negative part.step_number ≡ false
    → negative_step (merge_scope o.scope (scope_from_part part)).step_number ≡ false
unfolding merge_scope scope_from_part
scope-step o part a b = ground arith

pub classify_part-MetaOk :
    (o : Options) (part : StreamPart) (lane : Lane) (found : PartMeta)
    → negative_step o.scope.step_number ≡ false
    → is_negative part.step_number ≡ false
    → classify_part o.lane part ≡ some (lane, found)
    → MetaOk part lane (record found { scope = merge_scope o.scope found.scope })
classify_part-MetaOk o part lane found a b c =
    let ok : FoundOk part (some (lane, found)) =
      subst (FoundOk part) c (classify_part-FoundOk o.lane part) in
    let (on_lane, scoped) = FoundOk-present ok in
    record {
      lane_ok = on_lane;
      step_ok = rw scoped (scope-step o part a b);
      type_ok = found-type o.lane part c;
    }
