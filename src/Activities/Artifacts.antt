-- ===== src/Activities/Artifacts.antt =====
-- activities/artifacts.go: values that are too large for a workflow's history are stored outside.
pub mod Preview
pub mod Size
use Prim.Native.String
use Prim.Native.String.{len}
use go_temporal_ai_sdk.Prelude.{
  ℕ, ℤ, pos, ◌+◌, ◌-◌, ltb, leb, ltb_ℤ, eqb_ℤ, ◌-ℤ◌, String, Bool, true, false, not, ◌&&◌, ◌||◌,
  Option, none, some, List, [], ◌∷◌, ◌==◌, join, decimal, if◌then◌else◌,
}
use go_temporal_ai_sdk.Updates.Types.{Value, str, num, bool}
use go_temporal_ai_sdk.Agents.Types.{InvokeToolArgs, InvokeToolResult, ToolArtifactPolicy, Metadata}
use go_temporal_ai_sdk.Agents.Flow.{Failure, error, Answer, ok, err}
use go_temporal_ai_sdk.Agents.Values.{object}
use go_temporal_ai_sdk.Activities.Act as Act
use go_temporal_ai_sdk.Activities.Act.{Act, ArtifactRef, ArtifactWrite, done, fail, call, ◌>>=◌}

abbrev pub default_max_inline_bytes : ℤ
default_max_inline_bytes = pos 24000

abbrev pub default_max_preview_bytes : ℤ
default_max_preview_bytes = pos 4000

abbrev pub content_type_json : String
content_type_json = "application/json"

unfoldable pub policy_with_defaults : ToolArtifactPolicy → ToolArtifactPolicy
policy_with_defaults policy = record policy {
  max_inline_bytes =
      if ltb_ℤ (pos 0) policy.max_inline_bytes
      then policy.max_inline_bytes
      else default_max_inline_bytes;
  max_preview_bytes =
      if ltb_ℤ (pos 0) policy.max_preview_bytes
      then policy.max_preview_bytes
      else default_max_preview_bytes;
}

abbrev pub should_store : Option Bool → Bool
should_store none = true
should_store (some b) = b

-- The characters that fit: a text that is cut inside a character loses the whole character.
unfoldable pub characters_within : ℤ → String → String
characters_within room String.[] = String.[]
characters_within room (String.◌∷◌ c s) =
    let rest = characters_within (room -ℤ pos (len (String.◌∷◌ c ""))) s in
    if ltb_ℤ room (pos (len (String.◌∷◌ c ""))) then "" else String.◌∷◌ c rest

unfoldable pub truncate_bytes : String → ℤ → String
unfolding characters_within
truncate_bytes value most =
    if not (ltb_ℤ (pos 0) most) || not (ltb_ℤ most (pos (len value)))
    then value
    else join (characters_within most value ∷ "...[truncated]" ∷ [])

-- The JSON of a value, or its `%v` if it has none, and SHA-256 in hexadecimal.
pub record Encoding : Type 0 where
  pub json : Value → String
  pub sha256_hex : String → String

abbrev or_kind : String → String → String
or_kind s default = if s == "" then default else s

module _ (encoding : Encoding) (has_store : Bool) where
  abbrev pub artifact_write : ToolArtifactPolicy → InvokeToolArgs → String → String → ArtifactWrite
  artifact_write policy args kind contents = record {
    workflow_id = policy.workflow_id;
    run_id = policy.run_id;
    tool_call_id = args.tool_call_id;
    tool_name = args.tool_name;
    kind = kind;
    sha256 = encoding.sha256_hex contents;
    content_type = content_type_json;
    original_bytes = pos (len contents);
    preview = truncate_bytes contents policy.max_preview_bytes;
    contents = contents;
    metadata =
        ("workflowId", str policy.workflow_id)
        ∷ ("runId", str policy.run_id)
        ∷ ("toolCallId", str args.tool_call_id)
        ∷ ("toolName", str args.tool_name)
        ∷ ("kind", str kind)
        ∷ [];
  }

  abbrev pub completed_ref : ArtifactWrite → ArtifactRef → ArtifactRef
  completed_ref w r = record r {
    kind = or_kind r.kind w.kind;
    original_bytes = if eqb_ℤ r.original_bytes (pos 0) then w.original_bytes else r.original_bytes;
    content_type = or_kind r.content_type content_type_json;
    sha256 = or_kind r.sha256 w.sha256;
  }

  abbrev pub ref_value : ArtifactRef → Value
  ref_value r = object (
      ("artifactId", str r.artifact_id)
      ∷ ("kind", str r.kind)
      ∷ ("originalBytes", num r.original_bytes)
      ∷ ("contentType", str r.content_type)
      ∷ ("sha256", str r.sha256)
      ∷ [])

  -- ToolArtifactValue
  abbrev pub artifact_value : String → ArtifactRef → Value
  artifact_value preview r = object (
      ("artifactRef", ref_value r)
      ∷ ("preview", str preview)
      ∷ ("originalBytes", num r.original_bytes)
      ∷ ("contentType", str r.content_type)
      ∷ ("sha256", str r.sha256)
      ∷ ("truncated", bool true)
      ∷ [])

  abbrev pub stored : ArtifactWrite → Answer (Option ArtifactRef) → Act (Option Value)
  stored w (err e) = fail e
  stored w (ok none) =
      fail (error (join ("tool artifact store returned nil ref for " ∷ w.kind ∷ " payload" ∷ [])))
  stored w (ok (some r)) = done (some (artifact_value w.preview (completed_ref w r)))

  unfoldable pub store_contents :
      ToolArtifactPolicy → InvokeToolArgs → String → String → Act (Option Value)
  unfolding truncate_bytes
  store_contents policy args kind contents =
      if has_store
      then call (Act.put_artifact (artifact_write policy args kind contents))
          (stored (artifact_write policy args kind contents))
      else fail (
          error (
            join (
              "tool artifact store is required for "
              ∷ kind
              ∷ " payload of "
              ∷ decimal (pos (len contents))
              ∷ " bytes"
              ∷ [])))

  unfoldable pub compact_value :
      ToolArtifactPolicy → InvokeToolArgs → String → Option Value → Act (Option Value)
  unfolding store_contents
  compact_value policy args kind none = done none
  compact_value policy args kind (some v) =
      if ltb_ℤ policy.max_inline_bytes (pos (len (encoding.json v)))
      then store_contents policy args kind (encoding.json v)
      else done (some v)

  abbrev pub with_input : InvokeToolResult → Option Value → InvokeToolResult
  with_input r v = record r { input = v }

  abbrev pub with_result : InvokeToolResult → Option Value → InvokeToolResult
  with_result r v = record r { result = v }

  abbrev pub with_output : InvokeToolResult → Option Value → InvokeToolResult
  with_output r v = record r { output = record r.output { value = v } }

  unfoldable pub compact_input :
      ToolArtifactPolicy → InvokeToolArgs → InvokeToolResult → Act InvokeToolResult
  unfolding compact_value ◌>>=◌
  compact_input policy args r =
      if should_store policy.store_inputs
      then compact_value policy args "input" r.input >>= (λ v. done (with_input r v))
      else done r

  unfoldable pub compact_outputs :
      ToolArtifactPolicy → InvokeToolArgs → InvokeToolResult → Act InvokeToolResult
  unfolding compact_value ◌>>=◌
  compact_outputs policy args r =
      if should_store policy.store_outputs
      then compact_value policy args "result" r.result >>= (λ v.
        compact_value policy args "output" r.output.value
        >>= (λ o. done (with_output (with_result r v) o)))
      else done r

  unfoldable pub compact_error :
      ToolArtifactPolicy → InvokeToolArgs → InvokeToolResult → Act InvokeToolResult
  unfolding compact_value ◌>>=◌
  compact_error policy args r =
      if r.is_error && should_store policy.store_errors
      then compact_value policy args "error" r.output.value >>= (λ v. done (with_output r v))
      else done r

  abbrev pub compact_under :
      ToolArtifactPolicy → InvokeToolArgs → InvokeToolResult → Act InvokeToolResult
  compact_under policy args r =
      compact_input policy args r >>= compact_outputs policy args >>= compact_error policy args

  abbrev pub compact_if :
      InvokeToolArgs → InvokeToolResult → Option ToolArtifactPolicy → Act InvokeToolResult
  compact_if args r none = done r
  compact_if args r (some policy) =
      if policy.enabled then compact_under (policy_with_defaults policy) args r else done r

  unfoldable pub compact_tool_artifacts : InvokeToolArgs → InvokeToolResult → Act InvokeToolResult
  unfolding compact_input compact_outputs compact_error policy_with_defaults ◌>>=◌
  compact_tool_artifacts args r = compact_if args r args.artifacts
