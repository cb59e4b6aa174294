-- ===== src/Agents/Stream.antt =====
-- What temporalai/agent.go makes of a model's answer: the result of a stream, its tool calls and its text.
use go_temporal_ai_sdk.Prelude.{
  ℤ, String, Bool, true, false, ◌&&◌, not, ◌⊎◌, inl, inr, Option, none, some, List, [], ◌∷◌, ◌++◌,
  ◌==◌, join, lookup, insert, if◌then◌else◌,
}
use go_temporal_ai_sdk.Updates.Types.{
  Value, str, PreviewReceipt, preview_outcome_succeeded, lane_tool_input,
}
use go_temporal_ai_sdk.Agents.Types.{
  Part, GenerateResult, StreamedPart, StreamResult, AgentToolCall, InvokeToolResult,
}
use go_temporal_ai_sdk.Agents.Values.{Library}

-- A part of which only the type is set.
abbrev pub part_of : String → Part
part_of type = record {
  type = type;
  text = "";
  tool_call_id = "";
  tool_name = "";
  input = none;
  input_raw = "";
  output = none;
  result = none;
  is_error = false;
  provider_executed = false;
  dynamic = false;
  invalid = false;
  error_text = "";
  preliminary = false;
  tool_metadata = [];
  provider_metadata = [];
}

abbrev pub text_part : String → Part
text_part text = record (part_of "text") { text = text }

abbrev pub or_blank : Option String → String
or_blank none = ""
or_blank (some s) = s

-- The variables of generateResultFromStream.
pub record Gathered : Type 0 where
  pub out : GenerateResult
  pub text : String
  pub reasoning : String
  pub tool_inputs : List (String × String)

abbrev pub ToolInputs : Type 0
ToolInputs = List (String × String)

abbrev pub input_of : ToolInputs → String → String
input_of inputs id = or_blank (lookup id inputs)

abbrev pub add_content : Gathered → List Part → Gathered
add_content g parts = record g { out = record g.out { content = g.out.content ++ parts } }

abbrev pub add_carried : Gathered → Option Part → Gathered
add_carried g none = g
add_carried g (some p) = add_content g (p ∷ [])

abbrev parsed_or_nil : Value ⊎ String → Option Value
parsed_or_nil (inl v) = some v
parsed_or_nil (inr e) = none

-- `if part.Text != "" { out = prepend }`
abbrev pub prepend : String → String → List Part → List Part
prepend type text content =
    if text == "" then content else record (part_of type) { text = text } ∷ content

module _ (lib : Library) where
  -- toolCallInputFromRaw
  unfoldable pub tool_call_input_from_raw : String → Option Value
  tool_call_input_from_raw raw = if raw == "" then none else parsed_or_nil (lib.unmarshal raw)

  abbrev pub tool_call_part : StreamedPart → String → Part
  tool_call_part p input = record (part_of "tool-call") {
    tool_call_id = p.part.tool_call_id;
    tool_name = p.part.tool_name;
    input = tool_call_input_from_raw input;
    input_raw = input;
    tool_metadata = p.tool_metadata;
    provider_metadata = p.provider_metadata;
  }

  abbrev pub finished : Gathered → StreamedPart → Gathered
  finished g p = record g {
    out = record g.out {
      finish_reason = p.finish_reason;
      usage = p.usage;
      warnings = g.out.warnings ++ p.warnings;
      provider_metadata = p.provider_metadata;
    };
  }

  -- `switch part.Type`
  unfoldable pub gather : Gathered → StreamedPart → Gathered
  unfolding lookup insert tool_call_input_from_raw
  gather g p =
      let t = p.part.type in
      let id = p.part.tool_call_id in
      let so_far = input_of g.tool_inputs id in
      if t == "text-delta"
      then record g { text = join (g.text ∷ p.part.text_delta ∷ []) }
      else if t == "reasoning-delta"
      then record g { reasoning = join (g.reasoning ∷ p.part.reasoning_delta ∷ []) }
      else if t == "tool-input-delta"
      then record g {
        tool_inputs = insert id (join (so_far ∷ p.part.tool_input_delta ∷ [])) g.tool_inputs;
      }
      else if t == "tool-input-end"
      then if p.part.tool_input == ""
        then g
        else record g { tool_inputs = insert id p.part.tool_input g.tool_inputs }
      else if t == "tool-call"
      then add_content g
          (tool_call_part p (if p.part.tool_input == "" then so_far else p.part.tool_input) ∷ [])
      else if t == "reasoning-file"
      then add_carried g p.carried
      else if t == "file"
      then add_carried g p.carried
      else if t == "source"
      then add_carried g p.carried
      else if t == "finish"
      then finished g p
      else g

  unfoldable pub gather_all : Gathered → List StreamedPart → Gathered
  unfolding gather
  gather_all g [] = g
  gather_all g (p ∷ rest) = gather_all (gather g p) rest

  abbrev pub gathering : StreamResult → Gathered
  gathering s = record {
    out = record {
      content = [];
      finish_reason = record { unified = ""; raw = "" };
      usage = lib.zero_usage;
      warnings = [];
      provider_metadata = [];
      request = s.request;
      response = s.response;
      preview_receipts = s.preview_receipts;
    };
    text = "";
    reasoning = "";
    tool_inputs = [];
  }

  abbrev pub gathered : Gathered → GenerateResult
  gathered g = record g.out {
    content = prepend "reasoning" g.reasoning (prepend "text" g.text g.out.content);
  }

  abbrev pub stream_or_result : StreamResult → Option GenerateResult → GenerateResult
  stream_or_result s (some r) = record r { preview_receipts = s.preview_receipts }
  stream_or_result s none = gathered (gather_all (gathering s) s.stream_parts)

  unfoldable pub generate_result_from_stream : StreamResult → GenerateResult
  unfolding gather_all
  generate_result_from_stream s = stream_or_result s s.result

  -- The input of a call, its error text and whether it is invalid, for an input that came as raw JSON.
  abbrev pub parsed_call : AgentToolCall → String → Value ⊎ String → AgentToolCall
  parsed_call c raw (inl v) = record c { input = some v }
  parsed_call c raw (inr e) = record c { input = some (str raw); error_text = e; invalid = true }

  abbrev pub is_nil {ℓ} : {A : Type ℓ} → Option A → Bool
  is_nil none = true
  is_nil (some _) = false

  abbrev pub call_of_part : String → ℤ → String → Part → AgentToolCall
  call_of_part step_id step_number step_type p = record {
    tool_call_id = p.tool_call_id;
    tool_name = p.tool_name;
    step_id = step_id;
    step_number = step_number;
    step_type = step_type;
    input = p.input;
    input_raw = p.input_raw;
    provider_executed = p.provider_executed;
    dynamic = p.dynamic;
    invalid = p.invalid;
    error_text = p.error_text;
    tool_metadata = p.tool_metadata;
    provider_metadata = p.provider_metadata;
    accepted_attempt_id = "";
  }

  unfoldable pub extracted_call : String → ℤ → String → Part → AgentToolCall
  extracted_call step_id step_number step_type p =
      let c = call_of_part step_id step_number step_type p in
      if is_nil p.input && not (p.input_raw == "")
      then parsed_call c p.input_raw (lib.unmarshal p.input_raw)
      else c

  unfoldable pub extract_tool_calls : List Part → String → ℤ → String → List AgentToolCall
  unfolding extracted_call
  extract_tool_calls [] step_id step_number step_type = []
  extract_tool_calls (p ∷ rest) step_id step_number step_type =
      let others = extract_tool_calls rest step_id step_number step_type in
      if p.type == "tool-call"
      then extracted_call step_id step_number step_type p ∷ others
      else others

unfoldable pub text_from_wire_parts : List Part → String
text_from_wire_parts [] = ""
text_from_wire_parts (p ∷ rest) =
    let others = text_from_wire_parts rest in
    if p.type == "text" then join (p.text ∷ others ∷ []) else others

abbrev pub result_part : InvokeToolResult → Part
result_part r = record (part_of "tool-result") {
  tool_call_id = r.tool_call_id;
  tool_name = r.tool_name;
  input = r.input;
  output = some r.output;
  result = r.result;
  is_error = r.is_error;
  dynamic = r.dynamic;
  provider_executed = r.provider_executed;
  preliminary = r.preliminary;
  tool_metadata = r.tool_metadata;
  provider_metadata = r.provider_metadata;
}

unfoldable pub tool_result_parts : List InvokeToolResult → List Part
tool_result_parts [] = []
tool_result_parts (r ∷ rest) = result_part r ∷ tool_result_parts rest

-- The attempt of the first receipt that is for the call's input and succeeded, or the one it has.
unfoldable pub attempt_for : String → String → List PreviewReceipt → String
attempt_for target had [] = had
attempt_for target had (r ∷ rest) =
    let later = attempt_for target had rest in
    if r.outcome == preview_outcome_succeeded
      && r.target_record_id == target
      && r.lane == lane_tool_input
    then r.attempt_id
    else later

unfoldable pub attach_tool_preview_receipts :
    List AgentToolCall → List PreviewReceipt → List AgentToolCall
unfolding attempt_for
attach_tool_preview_receipts [] receipts = []
attach_tool_preview_receipts (c ∷ rest) receipts =
    record c {
      accepted_attempt_id =
          attempt_for (join ("tool:" ∷ c.tool_call_id ∷ [])) c.accepted_attempt_id receipts;
    }
    ∷ attach_tool_preview_receipts rest receipts
