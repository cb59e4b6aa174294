-- ===== src/Activities/Nonstream.antt =====
-- activities/nonstream_relay.go: an answer that did not come as a stream goes through the relay as
-- the parts of one. Of go-ai's results only what the relay reads is kept.
pub mod Delivery
use go_temporal_ai_sdk.Prelude.{
  pos, String, Bool, not, ◌||◌, Option, none, some, List, [], ◌∷◌, ◌==◌, if◌then◌else◌,
}
use go_temporal_ai_sdk.Updates.Types.{Value, null}
use go_temporal_ai_sdk.Updates.Errors.{Err}
use go_temporal_ai_sdk.Relay.Part.{StreamPart}
use go_temporal_ai_sdk.Relay.Classify.{is_some}
use go_temporal_ai_sdk.Relay.State.{Relay}
use go_temporal_ai_sdk.Relay.Accept.{Answer, accept}
use go_temporal_ai_sdk.Relay.Complete.{cancel, fail}

-- The kinds of ai.Part that finalContentStreamParts tells apart; a file or a source is its JSON.
pub data Content : Type 0 where
  text_part : String → Content
  reasoning_part : String → Content
  tool_call_part : String → String → Option Value → String → Content
  file_part : Option Value → Content
  source_part : Option Value → Content
  other_part : Content

pub record GenerateResult : Type 0 where
  pub content : List Content
  pub finish_reason_unified : String
  pub finish_reason : Value

pub record GenerateObjectResult : Type 0 where
  pub reasoning : String
  pub text : String
  pub object : Option Value
  pub finish_reason_unified : String
  pub finish_reason : Value

-- `ai.StreamPart{Type: ...}`
abbrev pub part_of : String → StreamPart
part_of type = record {
  type = type;
  text_delta = "";
  reasoning_delta = "";
  tool_call_id = "";
  tool_name = "";
  tool_input = "";
  tool_input_delta = "";
  element = none;
  partial_output = none;
  finish_reason_unified = "";
  finish_reason = null;
  content = none;
  step_id = "";
  step_type = "";
  step_number = pos 0;
}

abbrev pub text_delta_part : String → Option Value → StreamPart
text_delta_part text object = record (part_of "text-delta") {
  text_delta = text;
  partial_output = object;
}

abbrev pub reasoning_delta_part : String → StreamPart
reasoning_delta_part text = record (part_of "reasoning-delta") { reasoning_delta = text }

abbrev pub finish_part : String → Value → StreamPart
finish_part unified reason = record (part_of "finish") {
  finish_reason_unified = unified;
  finish_reason = reason;
}

abbrev pub content_part : String → Option Value → StreamPart
content_part type json = record (part_of type) { content = json }

-- json.Marshal, `none` where it fails.
module _ (marshal : Value → Option String) where
  abbrev pub marshalled : Option String → String → String
  marshalled none raw = raw
  marshalled (some text) raw = text

  unfoldable pub final_tool_input_raw : Option Value → String → String
  final_tool_input_raw none raw = raw
  final_tool_input_raw (some input) raw =
      let text = marshalled (marshal input) raw in if not (raw == "") then raw else text

  unfoldable pub final_content_stream_parts : Content → List StreamPart
  unfolding final_tool_input_raw
  final_content_stream_parts (text_part text) =
      if text == "" then [] else text_delta_part text none ∷ []
  final_content_stream_parts (reasoning_part text) =
      if text == "" then [] else reasoning_delta_part text ∷ []
  final_content_stream_parts (tool_call_part id name input raw) =
      record (part_of "tool-call") {
        tool_call_id = id;
        tool_name = name;
        tool_input = final_tool_input_raw input raw;
      }
      ∷ []
  final_content_stream_parts (file_part json) = content_part "file" json ∷ []
  final_content_stream_parts (source_part json) = content_part "source" json ∷ []
  final_content_stream_parts other_part = []

module _ {W : Type 0} where
  -- `if err := relay.Accept(ctx, part); err != nil { return err }` and the rest.
  abbrev pub and_then : Answer W → (Relay W → W → Answer W) → Answer W
  and_then (some e, r, w) next = (some e, r, w)
  and_then (none, r, w) next = next r w

  unfoldable pub accept_all : List StreamPart → Relay W → W → Answer W
  accept_all [] r w = (none, r, w)
  accept_all (part ∷ rest) r w = and_then (accept r part w) (accept_all rest)

  -- The two nested loops of relayGenerateResult.
  unfoldable pub accept_contents : (Value → Option String) → List Content → Relay W → W → Answer W
  unfolding accept_all
  accept_contents marshal [] r w = (none, r, w)
  accept_contents marshal (c ∷ rest) r w =
      and_then (accept_all (final_content_stream_parts marshal c) r w)
        (accept_contents marshal rest)

  unfoldable pub relay_generate_result :
      (Value → Option String) → Relay W → GenerateResult → W → Answer W
  unfolding accept_contents
  relay_generate_result marshal r result w =
      and_then (accept_contents marshal result.content r w)
        (λ r1 w1. accept r1 (finish_part result.finish_reason_unified result.finish_reason) w1)

  abbrev pub accept_if : Bool → StreamPart → Relay W → W → Answer W
  accept_if given part r w = if given then accept r part w else (none, r, w)

  unfoldable pub relay_generate_object_result : Relay W → GenerateObjectResult → W → Answer W
  relay_generate_object_result r result w =
      and_then
        (accept_if (not (result.reasoning == "")) (reasoning_delta_part result.reasoning) r w)
        (λ r1 w1.
          and_then
            (accept_if (not (result.text == "") || is_some result.object)
              (text_delta_part result.text result.object) r1 w1)
            (λ r2 w2. accept r2 (finish_part result.finish_reason_unified result.finish_reason) w2))

  -- failRelay, whose errors are dropped: `cancelled` is ctx.Err(), `none` while the context lives.
  unfoldable pub fail_relay : Relay W → Option String → Option String → W → Relay W × W
  fail_relay r cancelled none w = (r, w)
  fail_relay r none (some message) w = let (e, r1, w1) = fail r message w in (r1, w1)
  fail_relay r (some reason) (some message) w = let (e, r1, w1) = cancel r reason w in (r1, w1)
