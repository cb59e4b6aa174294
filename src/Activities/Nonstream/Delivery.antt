-- ===== src/Activities/Nonstream/Delivery.antt =====
-- What activities/nonstream_relay.go publishes of a whole answer.
use go_temporal_ai_sdk.Prelude.{
  String, ◌≡◌, refl, sym, true, false, not, ◌||◌, ◌==◌, inl, inr, Bool-cases, Option, none, some,
  List, [], ◌∷◌, ◌++◌, arith, insert, if◌then◌else◌,
}
use mathlib.Core.List.{append_assoc, append-nil}
use mathlib.Core.Path.{subst}
use go_temporal_ai_sdk.Updates.Types.{Value, str, lane_object, Lane}
use go_temporal_ai_sdk.Relay.Part.{Options, StreamPart, PartMeta}
use go_temporal_ai_sdk.Relay.Classify.{
  Chunk, is_some, insert_text, insert_value, classify_part, classify_text_delta, chunk_from_part,
  scope_from_part, text_lane, emitting,
}
use go_temporal_ai_sdk.Relay.State.{Relay}
use go_temporal_ai_sdk.Relay.Accept.{Answer, accept}
use go_temporal_ai_sdk.Relay.Rules.{Holds}
use go_temporal_ai_sdk.Relay.Publishing.{Live, accept-Live, accept-left_out}
use go_temporal_ai_sdk.Activities.Nonstream.{
  Content, GenerateResult, GenerateObjectResult, marshalled, final_tool_input_raw,
  final_content_stream_parts, text_delta_part, reasoning_delta_part, content_part, finish_part,
  part_of, and_then, accept_all, accept_contents, relay_generate_result, accept_if,
  relay_generate_object_result, text_part, reasoning_part, tool_call_part, file_part, source_part,
  other_part,
}

-- What subscribers see of an answer, written as chunks. A text of no characters is not seen.
abbrev pub delta_chunk : String → String → List Chunk
delta_chunk type text =
    if text == "" then [] else (("type", str type) ∷ ("delta", str text) ∷ []) ∷ []

abbrev json_or : Option String → String → String
json_or none raw = raw
json_or (some text) raw = text

-- The input of a tool call: as the model wrote it, or else its JSON, or else nothing.
abbrev pub input_text : (Value → Option String) → Option Value → String → String
input_text marshal none raw = raw
input_text marshal (some v) raw = if raw == "" then json_or (marshal v) raw else raw

abbrev pub content_chunks : (Value → Option String) → Content → List Chunk
content_chunks marshal (text_part text) = delta_chunk "text-delta" text
content_chunks marshal (reasoning_part text) = delta_chunk "reasoning-delta" text
content_chunks marshal (tool_call_part id name input raw) =
    insert_text "toolName" name (
      insert_text "toolCallId" id
        (("type", str "tool-call") ∷ ("input", str (input_text marshal input raw)) ∷ []))
    ∷ []
content_chunks marshal (file_part json) =
    insert_value "content" json (("type", str "file") ∷ []) ∷ []
content_chunks marshal (source_part json) =
    insert_value "content" json (("type", str "source") ∷ []) ∷ []
content_chunks marshal other_part = []

abbrev pub contents_chunks : (Value → Option String) → List Content → List Chunk
contents_chunks marshal [] = []
contents_chunks marshal (c ∷ rest) = content_chunks marshal c ++ contents_chunks marshal rest

abbrev pub finish_chunk : String → Value → Chunk
finish_chunk unified reason =
    if unified == ""
    then ("type", str "finish") ∷ []
    else ("type", str "finish") ∷ ("finishReason", reason) ∷ []

abbrev pub object_chunk : Option Value → List Chunk
object_chunk none = []
object_chunk (some v) = (("type", str "text-delta") ∷ ("object", v) ∷ []) ∷ []

module _ (o : Options) where
  -- What classifyPart and chunkFromPart make of a part.
  abbrev Emits : StreamPart → Chunk → Type 0
  Emits part chunk =
      (lane : Lane) × (found : PartMeta) × (classify_part o.lane part ≡ some (lane, found))
      × (found.emit ≡ true)
      × (chunk_from_part part found ≡ chunk)

  text-Emits :
      (text : String)
      → (o.lane == lane_object) ≡ false
      → (text == "") ≡ false
      → Emits (text_delta_part text none) (("type", str "text-delta") ∷ ("delta", str text) ∷ [])
  unfolding classify_part classify_text_delta text_lane chunk_from_part insert
  text-Emits text h n = (
    text_lane o.lane,
    record (emitting (scope_from_part (text_delta_part text none))) { delta = text },
    rw h refl,
    refl,
    rw n refl,
  )

  -- In the lane of objects the text is left out.
  object-Emits :
      (text : String) (v : Value)
      → (o.lane == lane_object) ≡ true
      → Emits (text_delta_part text (some v)) (("type", str "text-delta") ∷ ("object", v) ∷ [])
  unfolding classify_part classify_text_delta text_lane chunk_from_part insert
  object-Emits text v h = (
    text_lane o.lane,
    record (emitting (scope_from_part (text_delta_part text (some v)))) {
      object = some v;
      has_object = true;
    },
    rw h refl,
    refl,
    refl,
  )

  no_object :
      (text : String)
      → (o.lane == lane_object) ≡ true
      → classify_part o.lane (text_delta_part text none) ≡ none
  unfolding classify_part classify_text_delta
  no_object text h = rw h refl

  reasoning-Emits :
      (text : String)
      → (text == "") ≡ false
      → Emits
          (reasoning_delta_part text)
          (("type", str "reasoning-delta") ∷ ("delta", str text) ∷ [])
  unfolding classify_part chunk_from_part insert
  reasoning-Emits text n = (_, _, refl, refl, rw n refl)

  tool-Emits :
      (id name input : String)
      → Emits
          (record (part_of "tool-call") { tool_call_id = id; tool_name = name; tool_input = input })
          (insert_text "toolName" name
            (insert_text "toolCallId" id (("type", str "tool-call") ∷ ("input", str input) ∷ [])))
  unfolding classify_part chunk_from_part insert
  tool-Emits id name input = (_, _, refl, refl, refl)

  finish-Emits :
      (unified : String) (reason : Value)
      → Emits (finish_part unified reason) (finish_chunk unified reason)
  unfolding classify_part chunk_from_part insert
  finish-Emits unified reason = (_, _, refl, refl, refl)

  file-Emits :
      (json : Option Value)
      → Emits (content_part "file" json) (insert_value "content" json (("type", str "file") ∷ []))
  unfolding classify_part chunk_from_part insert
  file-Emits json = (_, _, refl, refl, refl)

  source-Emits :
      (json : Option Value)
      → Emits
          (content_part "source" json)
          (insert_value "content" json (("type", str "source") ∷ []))
  unfolding classify_part chunk_from_part insert
  source-Emits json = (_, _, refl, refl, refl)

json_or-eq :
    (marshal : Value → Option String) (m : Option String) (raw : String)
    → marshalled marshal m raw ≡ json_or m raw
json_or-eq marshal none raw = refl
json_or-eq marshal (some text) raw = refl

input_text-eq :
    (marshal : Value → Option String) (input : Option Value) (raw : String)
    → final_tool_input_raw marshal input raw ≡ input_text marshal input raw
unfolding final_tool_input_raw
input_text-eq marshal none raw = refl
input_text-eq marshal (some v) raw = elim (Bool-cases (raw == "")) [
  | inl e ↦ rw e (json_or-eq marshal (marshal v) raw)
  | inr e ↦ rw e refl
]

module _ {W : Type 0} (chunks : W → List Chunk) (o : Options) (visible : o.visible ≡ true)
    (streaming : (o.stream_id == "") ≡ false) where
  abbrev Shows : List Chunk → Answer W → Type 0
  Shows l = Holds (Live chunks o l)

  and_then-Shows :
      {l l₁ : List Chunk} (a : Answer W) (next : Relay W → W → Answer W)
      → Shows l a
      → ((r : Relay W) (w : W) → Live chunks o l none r w → Shows l₁ (next r w))
      → Shows l₁ (and_then a next)
  and_then-Shows (some e, r, w) next h k = ground (arith, h.quiet)
  and_then-Shows (none, r, w) next h k = k r w h

  nothing-Shows : (l : List Chunk) (a : Answer W) → Shows l a → Shows (l ++ []) a
  nothing-Shows l a h = subst (λ x. Shows x a) (sym (append-nil l)) h

  one-Shows :
      (part : StreamPart) (chunk : Chunk) (l : List Chunk) (r : Relay W) (w : W)
      → Emits o part chunk
      → Live chunks o l none r w
      → Shows (l ++ chunk ∷ []) (accept r part w)
  one-Shows part chunk l r w e h =
      subst (λ c. Shows (l ++ c ∷ []) (accept r part w)) e.4
        (accept-Live chunks o visible streaming part l r w e.0 e.1 e.2 e.3 h)

  part-Shows :
      (part : StreamPart) (chunk : Chunk) (l : List Chunk) (r : Relay W) (w : W)
      → Emits o part chunk
      → Live chunks o l none r w
      → Shows (l ++ chunk ∷ []) (accept_all (part ∷ []) r w)
  unfolding accept_all
  part-Shows part chunk l r w e h =
      and_then-Shows (accept r part w) _ (one-Shows part chunk l r w e h) (λ _ _ k. k)

  module _ (marshal : Value → Option String) (texts : (o.lane == lane_object) ≡ false) where
    content-Shows :
        (c : Content) (l : List Chunk) (r : Relay W) (w : W)
        → Live chunks o l none r w
        → Shows
            (l ++ content_chunks marshal c)
            (accept_all (final_content_stream_parts marshal c) r w)
    unfolding final_content_stream_parts
    content-Shows (text_part text) l r w h = elim (Bool-cases (text == "")) [
      | inl e ↦ rw e (unfold accept_all in nothing-Shows l (none, r, w) h)
      | inr e ↦ rw e (part-Shows _ _ l r w (text-Emits o text texts e) h)
    ]
    content-Shows (reasoning_part text) l r w h = elim (Bool-cases (text == "")) [
      | inl e ↦ rw e (unfold accept_all in nothing-Shows l (none, r, w) h)
      | inr e ↦ rw e (part-Shows _ _ l r w (reasoning-Emits o text e) h)
    ]
    content-Shows (tool_call_part id name input raw) l r w h =
        rw (sym (input_text-eq marshal input raw)) (part-Shows _ _ l r w (tool-Emits o id name _) h)
    content-Shows (file_part json) l r w h = part-Shows _ _ l r w (file-Emits o json) h
    content-Shows (source_part json) l r w h = part-Shows _ _ l r w (source-Emits o json) h
    content-Shows other_part l r w h = unfold accept_all in nothing-Shows l (none, r, w) h

    contents-Shows :
        (cs : List Content) (l : List Chunk) (r : Relay W) (w : W)
        → Live chunks o l none r w
        → Shows (l ++ contents_chunks marshal cs) (accept_contents marshal cs r w)
    unfolding accept_contents
    contents-Shows [] l r w h = nothing-Shows l (none, r, w) h
    contents-Shows (c ∷ rest) l r w h =
        and_then-Shows (accept_all (final_content_stream_parts marshal c) r w) _
          (content-Shows c l r w h)
          (λ r₁ w₁ h₁.
            subst (λ x. Shows x (accept_contents marshal rest r₁ w₁))
              (append_assoc l (content_chunks marshal c) (contents_chunks marshal rest))
              (contents-Shows rest (l ++ content_chunks marshal c) r₁ w₁ h₁))

    -- Relaying an answer outside the lane of objects, through a connector that answers no error,
    -- returns no error, and publishes these chunks in the order of the answer's contents: one for each
    -- text and reasoning that is not empty, for each tool call with its name, identifier and input, and
    -- for each file and source, and last the one of the finish. It needs a visible relay with a stream
    -- that is not disabled and has ended no preview.
    pub relay_generate_result-chunks :
        (result : GenerateResult) (l : List Chunk) (r : Relay W) (w : W)
        → Live chunks o l none r w
        → ((relay_generate_result marshal r result w).0 ≡ none)
          × (chunks (relay_generate_result marshal r result w).2
              ≡ l
                ++ contents_chunks marshal result.content
                ++ finish_chunk result.finish_reason_unified result.finish_reason ∷ [])
    unfolding relay_generate_result
    relay_generate_result-chunks result l r w h = (shows.quiet, shows.shown)
      where
        shows :
            Shows
              (l
                ++ contents_chunks marshal result.content
                ++ finish_chunk result.finish_reason_unified result.finish_reason ∷ [])
              (relay_generate_result marshal r result w)
        shows =
            and_then-Shows (accept_contents marshal result.content r w) _
              (contents-Shows result.content l r w h)
              (λ r₁ w₁ h₁.
                one-Shows _ _ _ r₁ w₁
                  (finish-Emits o result.finish_reason_unified result.finish_reason) h₁)

  module _ (objects : (o.lane == lane_object) ≡ true) where
    reasoned-Shows :
        (text : String) (l : List Chunk) (r : Relay W) (w : W)
        → Live chunks o l none r w
        → Shows
            (l ++ delta_chunk "reasoning-delta" text)
            (accept_if (not (text == "")) (reasoning_delta_part text) r w)
    reasoned-Shows text l r w h = elim (Bool-cases (text == "")) [
      | inl e ↦ rw e (nothing-Shows l (none, r, w) h)
      | inr e ↦ rw e (one-Shows _ _ l r w (reasoning-Emits o text e) h)
    ]

    object-Shows :
        (text : String) (v : Option Value) (l : List Chunk) (r : Relay W) (w : W)
        → Live chunks o l none r w
        → Shows
            (l ++ object_chunk v)
            (accept_if (not (text == "") || is_some v) (text_delta_part text v) r w)
    object-Shows text (some v) l r w h = elim (Bool-cases (text == "")) [
      | inl e ↦ rw e (one-Shows _ _ l r w (object-Emits o text v objects) h)
      | inr e ↦ rw e (one-Shows _ _ l r w (object-Emits o text v objects) h)
    ]
    object-Shows text none l r w h = elim (Bool-cases (text == "")) [
      | inl e ↦ rw e (nothing-Shows l (none, r, w) h)
      | inr e ↦ rw e (
          nothing-Shows l (accept r (text_delta_part text none) w)
            (accept-left_out chunks o visible streaming _ l r w (no_object o text objects) h))
    ]

    -- Relaying an object in the lane of objects, through a connector that answers no error, returns no
    -- error, and publishes a chunk of the reasoning if there is any, then the object if there is one, and
    -- then the finish: the text of the object is never seen. It needs a visible relay with a stream
    -- that is not disabled and has ended no preview.
    pub relay_generate_object_result-chunks :
        (result : GenerateObjectResult) (l : List Chunk) (r : Relay W) (w : W)
        → Live chunks o l none r w
        → ((relay_generate_object_result r result w).0 ≡ none)
          × (chunks (relay_generate_object_result r result w).2
              ≡ l
                ++ delta_chunk "reasoning-delta" result.reasoning
                ++ object_chunk result.object
                ++ finish_chunk result.finish_reason_unified result.finish_reason ∷ [])
    unfolding relay_generate_object_result
    relay_generate_object_result-chunks result l r w h = (shows.quiet, shows.shown)
      where
        shows :
            Shows
              (l
                ++ delta_chunk "reasoning-delta" result.reasoning
                ++ object_chunk result.object
                ++ finish_chunk result.finish_reason_unified result.finish_reason ∷ [])
              (relay_generate_object_result r result w)
        shows =
            and_then-Shows
              (accept_if (not (result.reasoning == "")) (reasoning_delta_part result.reasoning) r w)
              _ (reasoned-Shows result.reasoning l r w h)
              (λ r₁ w₁ h₁.
                and_then-Shows
                  (accept_if (not (result.text == "") || is_some result.object)
                    (text_delta_part result.text result.object) r₁ w₁)
                  _ (object-Shows result.text result.object _ r₁ w₁ h₁)
                  (λ r₂ w₂ h₂.
                    one-Shows _ _ _ r₂ w₂
                      (finish-Emits o result.finish_reason_unified result.finish_reason) h₂))
