-- ===== src/Relay/Classify.antt =====
-- classifyPart, chunkFromPart, scopeFromPart, mergeScope and sanitize of updates/relay.go.
use Prim.Native.Char.{code}
use go_temporal_ai_sdk.Prelude.{
  ℕ, ℤ, pos, String, Bool, true, false, not, ◌&&◌, ◌||◌, Option, none, some, List, [], ◌∷◌, ◌==◌,
  leb, eqb, ltb_ℤ, insert, if◌then◌else◌,
}
use go_temporal_ai_sdk.Updates.Types.{
  Value, str, Scope, Lane, lane_text, lane_reasoning, lane_object, lane_tool_input,
}
use go_temporal_ai_sdk.Relay.Part.{StreamPart, PartMeta}

abbrev pub empty_scope : Scope
empty_scope = record {
  display_mode = "";
  agent_id = "";
  task_id = "";
  task_title = "";
  skill_name = "";
  step_id = "";
  step_number = none;
  step_type = "";
}

abbrev is_zero : ℤ → Bool
is_zero n = not (ltb_ℤ n (pos 0) || ltb_ℤ (pos 0) n)

unfoldable pub scope_from_part : StreamPart → Scope
scope_from_part part = record empty_scope {
  step_id = part.step_id;
  step_number =
      if not (part.step_id == "") || not (part.step_type == "") || not (is_zero part.step_number)
      then some part.step_number
      else none;
  step_type = part.step_type;
}

abbrev pub override_text : String → String → String
override_text base override = if override == "" then base else override

abbrev pub override_number : Option ℤ → Option ℤ → Option ℤ
override_number base none = base
override_number base (some n) = some n

unfoldable pub merge_scope : Scope → Scope → Scope
merge_scope base override = record {
  display_mode = override_text base.display_mode override.display_mode;
  agent_id = override_text base.agent_id override.agent_id;
  task_id = override_text base.task_id override.task_id;
  task_title = override_text base.task_title override.task_title;
  skill_name = override_text base.skill_name override.skill_name;
  step_id = override_text base.step_id override.step_id;
  step_number = override_number base.step_number override.step_number;
  step_type = override_text base.step_type override.step_type;
}

-- The case of `switch part.Type` whose parts go out on the text lane as they are.
abbrev pub is_plain : String → Bool
is_plain t =
    t == "start-step"
    || t == "response-metadata"
    || t == "finish-step"
    || t == "finish"
    || t == "abort"
    || t == "file"
    || t == "reasoning-file"
    || t == "source"

abbrev pub is_some {ℓ} : {A : Type ℓ} → Option A → Bool
is_some none = false
is_some (some _) = true

-- A partMeta with only `scope` set.
abbrev pub silent : Scope → PartMeta
silent s = record {
  tool_call_id = "";
  delta = "";
  input = none;
  element = none;
  object = none;
  has_object = false;
  scope = s;
  emit = false;
}

abbrev pub emitting : Scope → PartMeta
emitting s = record (silent s) { emit = true }

unfoldable pub text_lane : Lane → Lane
text_lane default = if default == lane_object then lane_object else lane_text

unfoldable pub classify_text_delta : Lane → StreamPart → Option (Lane × PartMeta)
unfolding text_lane scope_from_part
classify_text_delta default part =
    let in_object = default == lane_object in
    if in_object && not (is_some part.partial_output)
    then none
    else some (
      text_lane default,
      record (emitting (scope_from_part part)) {
        delta = if in_object then "" else part.text_delta;
        object = part.partial_output;
        has_object = is_some part.partial_output;
      },
    )

unfoldable pub classify_part : Lane → StreamPart → Option (Lane × PartMeta)
unfolding classify_text_delta text_lane scope_from_part
classify_part default part =
    let t = part.type in
    let s = scope_from_part part in
    let on_tool_input =
      λ (delta : String). record (emitting s) { tool_call_id = part.tool_call_id; delta = delta } in
    if t == "stream-start"
    then some (text_lane default, silent s)
    else if is_plain t
    then some (text_lane default, emitting s)
    else if t == "text-delta"
    then classify_text_delta default part
    else if t == "reasoning-delta"
    then some (lane_reasoning, record (emitting s) { delta = part.reasoning_delta })
    else if t == "tool-input-delta"
    then some (lane_tool_input, on_tool_input part.tool_input_delta)
    else if t == "tool-input-end"
    then some (lane_tool_input, on_tool_input part.tool_input)
    else if t == "tool-call"
    then some (
      lane_tool_input,
      record (emitting s) { tool_call_id = part.tool_call_id; input = some (str part.tool_input) },
    )
    else if t == "element"
    then some (lane_object, record (emitting s) { element = part.element })
    else none

abbrev pub Chunk : Type 0
Chunk = List (String × Value)

-- `if value != "" { chunk[key] = value }`, and `if value != nil { chunk[key] = value }`
abbrev pub insert_text : String → String → Chunk → Chunk
insert_text key value chunk = if value == "" then chunk else insert key (str value) chunk

abbrev pub insert_value : String → Option Value → Chunk → Chunk
insert_value key none chunk = chunk
insert_value key (some v) chunk = insert key v chunk

-- `chunk["object"] = meta.object`, where a nil object is JSON's null.
abbrev value_or_null : Option Value → Value
value_or_null none = Value.null
value_or_null (some v) = v

unfoldable pub chunk_from_part : StreamPart → PartMeta → Chunk
chunk_from_part part meta =
    let c0 : Chunk = ("type", str part.type) ∷ [] in
    let c1 = insert_text "delta" meta.delta c0 in
    let c2 = insert_value "input" meta.input c1 in
    let c3 = insert_value "element" meta.element c2 in
    let c4 = if meta.has_object then insert "object" (value_or_null meta.object) c3 else c3 in
    let c5 = insert_text "toolCallId" part.tool_call_id c4 in
    let c6 = insert_text "toolName" part.tool_name c5 in
    let c7 =
      if part.finish_reason_unified == ""
      then c6
      else insert "finishReason" part.finish_reason c6 in
    insert_value "content" part.content c7

-- The characters that sanitize keeps: a-z, A-Z, 0-9, '-' and '_'.
abbrev pub is_kept : ℕ → Bool
is_kept c =
    leb b'a' c && leb c b'z'
    || leb b'A' c && leb c b'Z'
    || leb b'0' c && leb c b'9'
    || eqb c b'-'
    || eqb c b'_'

unfoldable pub sanitize : String → String
sanitize String.[] = String.[]
sanitize (String.◌∷◌ c s) = String.◌∷◌ (if is_kept (code c) then c else "_") (sanitize s)
