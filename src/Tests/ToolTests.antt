-- ===== src/Tests/ToolTests.antt =====
-- The theorems of the tool activity at concrete inputs.
use go_temporal_ai_sdk.Prelude.{pos, ◌≡◌, refl, true, false, Option, none, some, [], All, ◌-ℤ◌}
use go_temporal_ai_sdk.Updates.Types.{str}
use go_temporal_ai_sdk.Relay.Classify.{empty_scope}
use go_temporal_ai_sdk.Agents.Types.{
  InvokeToolArgs, InvokeToolResult, ToolApprovalState, ToolArtifactPolicy,
}
use go_temporal_ai_sdk.Agents.Flow
use go_temporal_ai_sdk.Agents.Flow.{ok}
use go_temporal_ai_sdk.Agents.Execution.{zero_result}
use go_temporal_ai_sdk.Activities.Act as Act
use go_temporal_ai_sdk.Activities.Act.{ArtifactRef, Replies, outcome, calls_of, exchanges_of}
use go_temporal_ai_sdk.Activities.Artifacts.{
  Encoding, policy_with_defaults, truncate_bytes, characters_within,
}
use go_temporal_ai_sdk.Activities.Artifacts.Size.{Fits}
use go_temporal_ai_sdk.Activities.Tool.{Tool, Toolbox, invoke_tool}
use go_temporal_ai_sdk.Activities.Tool.Result.{
  NotExecute, invoke_tool-tool_call_id, invoke_tool-unapproved, invoke_tool-Fits,
}
use go_temporal_ai_sdk.Tests.AgentTests.{no_artifacts}

abbrev finder : Tool
finder = record {
  type = "dynamic";
  tool_metadata = [];
  provider_metadata = [];
  requires_approval = true;
  needs_approval = false;
  executable = true;
}

abbrev toolbox : Toolbox
toolbox = record {
  find = λ name. some finder;
  validate_input = λ t v. none;
  validate_output = λ t v. none;
  model_output =
      λ t id input output is_error. ok (record { type = "json"; value = output; reason = "" });
  quote = λ s. s;
}

abbrev encoding : Encoding
encoding = record { json = λ v. "[1,2,3]"; sha256_hex = λ s. "c0ffee" }

abbrev small : ToolArtifactPolicy
small = record no_artifacts { enabled = true; max_inline_bytes = pos 5 }

abbrev reply_of : Replies
reply_of n (Act.resolve_approval c) = ok (record { denied = false; blocks = false; reason = "" })
reply_of n (Act.execute c v) = record { output = some (str "a long answer"); error = none }
reply_of n (Act.put_artifact w) = ok (
    some (record {
      artifact_id = w.kind;
      kind = "";
      original_bytes = pos 0;
      content_type = "";
      sha256 = "";
    }))

abbrev asked_with : Option ToolApprovalState → InvokeToolArgs
asked_with approval = record {
  tool_call_id = "call-1";
  tool_name = "search";
  input = none;
  messages = [];
  context = none;
  tool_metadata = [];
  scope = empty_scope;
  artifacts = some small;
  approval = approval;
}

abbrev refusal : ToolApprovalState
refusal = record { approval_id = "call-1:approval"; approved = some false; reason = "not now" }

abbrev result_or_denied : Flow.Answer InvokeToolResult → InvokeToolResult
result_or_denied (ok r) = r
result_or_denied (Flow.err e) = zero_result

abbrev found_it : InvokeToolResult
found_it =
    result_or_denied (outcome reply_of 0 (invoke_tool toolbox encoding true (asked_with none)))

invoke_tool-unapproved_example :
    All NotExecute
      (calls_of reply_of 0 (invoke_tool toolbox encoding true (asked_with (some refusal))))
invoke_tool-unapproved_example =
    invoke_tool-unapproved toolbox encoding true (asked_with (some refusal)) reply_of refusal refl
      refl

invoke_tool-tool_call_id_example : found_it.tool_call_id ≡ "call-1"
unfolding outcome invoke_tool truncate_bytes characters_within
invoke_tool-tool_call_id_example =
    invoke_tool-tool_call_id toolbox encoding true (asked_with none) reply_of found_it refl

invoke_tool-Fits_example :
    Fits encoding true
      (exchanges_of reply_of 0 (invoke_tool toolbox encoding true (asked_with none)))
      (policy_with_defaults small)
      found_it
unfolding outcome invoke_tool truncate_bytes characters_within
invoke_tool-Fits_example =
    invoke_tool-Fits toolbox encoding true (asked_with none) reply_of found_it small refl refl refl
      refl refl

cuts_whole_characters : truncate_bytes "aéz" (pos 2) ≡ "a...[truncated]"
unfolding truncate_bytes characters_within ◌-ℤ◌
cuts_whole_characters = refl
