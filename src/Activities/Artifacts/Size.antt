-- ===== src/Activities/Artifacts/Size.antt =====
-- What stays in a result after compactToolArtifacts of activities/artifacts.go.
use Prim.Native.String.{len}
use mathlib.Core.List.{Memᴰ}
use go_temporal_ai_sdk.Prelude.{
  pos, ltb_ℤ, String, ◌≡◌, refl, Bool, true, false, ◌&&◌, ◌⊎◌, inl, inr, Option, none, some, List,
  ◌+ℤ◌, if_cases, arith,
}
use go_temporal_ai_sdk.Updates.Types.{Value}
use go_temporal_ai_sdk.Agents.Types.{InvokeToolArgs, InvokeToolResult, ToolArtifactPolicy}
use go_temporal_ai_sdk.Agents.Flow.{Answer, ok, err}
use go_temporal_ai_sdk.Activities.Act as Act
use go_temporal_ai_sdk.Activities.Act.{
  Act, Acts, Contract, Exchange, bind-Acts, ArtifactRef, ArtifactWrite, Call, Decision, Output,
  Replies, Reply, ToolCall, done, fail, call, outcome, calls_of, outcome-Acts, calls_of-Acts, ◌>>=◌,
}
use go_temporal_ai_sdk.Activities.Artifacts.{
  Encoding, policy_with_defaults, should_store, artifact_write, stored, artifact_value,
  store_contents, compact_value, compact_input, compact_outputs, compact_error, compact_if,
  with_input, with_result, with_output, completed_ref,
}
use go_temporal_ai_sdk.Activities.Artifacts.Preview.{truncate_bytes-short}

module _ (encoding : Encoding) (has_store : Bool) (past : List Exchange)
    (policy : ToolArtifactPolicy) where
  -- A value that stands for a larger one: the larger one's JSON was written to the store, whose answer
  -- it refers to, and of that JSON it keeps a preview as long as the policy allows, and 14 bytes that
  -- say it is cut.
  pub record Replaced (v : Value) : Type 0 where
    pub original : Value
    pub write : ArtifactWrite
    pub ref : ArtifactRef
    pub is_large : ltb_ℤ policy.max_inline_bytes (pos (len (encoding.json original))) ≡ true
    pub contents_eq : write.contents ≡ encoding.json original
    pub sha256_eq : write.sha256 ≡ encoding.sha256_hex (encoding.json original)
    pub is_stored : Memᴰ (Act.put_artifact write, ok (some ref)) past
    pub is_short : ltb_ℤ (policy.max_preview_bytes +ℤ pos 14) (pos (len write.preview)) ≡ false
    pub value_eq :
        v
        ≡ artifact_value encoding has_store write.preview
            (completed_ref encoding has_store write ref)

  -- A value that may stay in the history: nothing, one within the bound, or one for a stored artifact.
  abbrev pub Small : Option Value → Type 0
  Small none = Unit {0}
  Small (some v) =
      (ltb_ℤ policy.max_inline_bytes (pos (len (encoding.json v))) ≡ false) ⊎ Replaced v

  abbrev pub Fits : InvokeToolResult → Type 0
  Fits r = Small r.input × (Small r.result × Small r.output.value)

abbrev pub Named : InvokeToolArgs → InvokeToolResult → Type 0
Named args r = r.tool_call_id ≡ args.tool_call_id

defaults-positive :
    (policy : ToolArtifactPolicy)
    → ltb_ℤ (pos 0) (policy_with_defaults policy).max_preview_bytes ≡ true
unfolding policy_with_defaults
defaults-positive policy =
    if_cases (λ n. ltb_ℤ (pos 0) n ≡ true) (ltb_ℤ (pos 0) policy.max_preview_bytes) (λ e. e)
      (λ _. refl)

-- A property `R` of the result that the compaction keeps; the store is the only one that is called.
module _ (encoding : Encoding) (has_store : Bool) (args : InvokeToolArgs) (P : Contract)
    (stores : (w : ArtifactWrite) → P.Promised (Act.put_artifact w)) (R : InvokeToolResult → Type 0)
    (inputs : (r : InvokeToolResult) (v : Option Value)
      → R r
      → R (with_input encoding has_store r v))
    (results : (r : InvokeToolResult) (v : Option Value)
      → R r
      → R (with_result encoding has_store r v))
    (outputs : (r : InvokeToolResult) (v : Option Value)
      → R r
      → R (with_output encoding has_store r v)) where
  abbrev Anything : Option Value → Type 0
  Anything a = Unit {0}

  stored-Anything :
      (w : ArtifactWrite) (a : Answer (Option ArtifactRef))
      → Acts P Anything (stored encoding has_store w a)
  stored-Anything w (err e) = tt
  stored-Anything w (ok none) = tt
  stored-Anything w (ok (some r)) = tt

  value-Anything :
      (policy : ToolArtifactPolicy) (kind : String) (v : Option Value)
      → Acts P Anything (compact_value encoding has_store policy args kind v)
  unfolding compact_value store_contents
  value-Anything policy kind none = tt
  value-Anything policy kind (some v) =
      if_cases (Acts P Anything) (ltb_ℤ policy.max_inline_bytes (pos (len (encoding.json v))))
        (λ _.
          if_cases (Acts P Anything) has_store
            (λ _. (
              stores _,
              λ a _.
                  stored-Anything
                    (artifact_write encoding has_store policy args kind (encoding.json v)) a,
            ))
            (λ _. tt))
        (λ _. tt)

  module _ (policy : ToolArtifactPolicy) where
    compact_input-Keeps :
        (r : InvokeToolResult) → R r → Acts P R (compact_input encoding has_store policy args r)
    unfolding compact_input
    compact_input-Keeps r h =
        if_cases (Acts P R) (should_store policy.store_inputs)
          (λ _.
            bind-Acts P Anything R (compact_value encoding has_store policy args "input" r.input) _
              (value-Anything policy "input" r.input) (λ v _. inputs r v h))
          (λ _. h)

    compact_outputs-Keeps :
        (r : InvokeToolResult) → R r → Acts P R (compact_outputs encoding has_store policy args r)
    unfolding compact_outputs
    compact_outputs-Keeps r h =
        if_cases (Acts P R) (should_store policy.store_outputs)
          (λ _.
            bind-Acts P Anything R (compact_value encoding has_store policy args "result" r.result)
              _ (value-Anything policy "result" r.result)
              (λ v _.
                bind-Acts P Anything R
                  (compact_value encoding has_store policy args "output" r.output.value) _
                  (value-Anything policy "output" r.output.value)
                  (λ o _. outputs (with_result encoding has_store r v) o (results r v h))))
          (λ _. h)

    compact_error-Keeps :
        (r : InvokeToolResult) → R r → Acts P R (compact_error encoding has_store policy args r)
    unfolding compact_error
    compact_error-Keeps r h =
        if_cases (Acts P R) (r.is_error && should_store policy.store_errors)
          (λ _.
            bind-Acts P Anything R
              (compact_value encoding has_store policy args "error" r.output.value) _
              (value-Anything policy "error" r.output.value) (λ v _. outputs r v h))
          (λ _. h)

  pub compact_if-Keeps :
      (r : InvokeToolResult) (policy : Option ToolArtifactPolicy)
      → R r
      → Acts P R (compact_if encoding has_store args r policy)
  compact_if-Keeps r none h = h
  compact_if-Keeps r (some policy) h =
      let p = policy_with_defaults policy in
      if_cases (Acts P R) policy.enabled
        (λ _.
          bind-Acts P R R
            (compact_input encoding has_store p args r
              >>= compact_outputs encoding has_store p args)
            (compact_error encoding has_store p args)
            (bind-Acts P R R (compact_input encoding has_store p args r)
              (compact_outputs encoding has_store p args) (compact_input-Keeps p r h)
              (compact_outputs-Keeps p))
            (compact_error-Keeps p))
        (λ _. h)

-- Inputs and outputs are stored, and the store's answers are those of `past`.
module _ (encoding : Encoding) (has_store : Bool) (args : InvokeToolArgs) (P : Contract)
    (stores : (w : ArtifactWrite) → P.Promised (Act.put_artifact w)) (past : List Exchange)
    (told : (w : ArtifactWrite) (a : Answer (Option ArtifactRef))
      → P.Told (Act.put_artifact w) a
      → Memᴰ (Act.put_artifact w, a) past) where
  stored-Small :
      (policy : ToolArtifactPolicy) (kind : String) (v : Value) (a : Answer (Option ArtifactRef))
      → ltb_ℤ (pos 0) policy.max_preview_bytes ≡ true
      → ltb_ℤ policy.max_inline_bytes (pos (len (encoding.json v))) ≡ true
      → Memᴰ
          (
            Act.put_artifact (artifact_write encoding has_store policy args kind (encoding.json v)),
            a,
          )
          past
      → Acts P (Small encoding has_store past policy) (
          stored encoding has_store
            (artifact_write encoding has_store policy args kind (encoding.json v))
            a)
  stored-Small policy kind v (err e) positive large m = tt
  stored-Small policy kind v (ok none) positive large m = tt
  stored-Small policy kind v (ok (some r)) positive large m = inr (record {
    original = v;
    write = artifact_write encoding has_store policy args kind (encoding.json v);
    ref = r;
    is_large = large;
    contents_eq = refl;
    sha256_eq = refl;
    is_stored = m;
    is_short = truncate_bytes-short (encoding.json v) policy.max_preview_bytes positive;
    value_eq = refl;
  })

  compact_value-Small :
      (policy : ToolArtifactPolicy)
      → ltb_ℤ (pos 0) policy.max_preview_bytes ≡ true
      → (kind : String) (v : Option Value)
      → Acts P
          (Small encoding has_store past policy)
          (compact_value encoding has_store policy args kind v)
  unfolding compact_value store_contents
  compact_value-Small policy positive kind none = tt
  compact_value-Small policy positive kind (some v) =
      if_cases (Acts P (Small encoding has_store past policy))
        (ltb_ℤ policy.max_inline_bytes (pos (len (encoding.json v))))
        (λ large.
          if_cases (Acts P (Small encoding has_store past policy)) has_store
            (λ _. (stores _, λ a t. stored-Small policy kind v a positive large (told _ a t)))
            (λ _. tt))
        (λ e. inl e)

  module _ (policy : ToolArtifactPolicy)
      (positive : ltb_ℤ (pos 0) policy.max_preview_bytes ≡ true) where
    compact_input-Small :
        (r : InvokeToolResult)
        → should_store policy.store_inputs ≡ true
        → Acts P
            (λ s. Small encoding has_store past policy s.input)
            (compact_input encoding has_store policy args r)
    unfolding compact_input
    compact_input-Small r on =
        if_cases (Acts P (λ s. Small encoding has_store past policy s.input))
          (should_store policy.store_inputs)
          (λ _.
            bind-Acts P (Small encoding has_store past policy)
              (λ s. Small encoding has_store past policy s.input)
              (compact_value encoding has_store policy args "input" r.input) _
              (compact_value-Small policy positive "input" r.input) (λ v k. k))
          (λ off. ground arith)

    compact_outputs-Fits :
        (r : InvokeToolResult)
        → should_store policy.store_outputs ≡ true
        → Small encoding has_store past policy r.input
        → Acts P
            (Fits encoding has_store past policy)
            (compact_outputs encoding has_store policy args r)
    unfolding compact_outputs
    compact_outputs-Fits r on i =
        if_cases (Acts P (Fits encoding has_store past policy)) (should_store policy.store_outputs)
          (λ _.
            bind-Acts P (Small encoding has_store past policy) (Fits encoding has_store past policy)
              (compact_value encoding has_store policy args "result" r.result) _
              (compact_value-Small policy positive "result" r.result)
              (λ v k.
                bind-Acts P (Small encoding has_store past policy)
                  (Fits encoding has_store past policy)
                  (compact_value encoding has_store policy args "output" r.output.value) _
                  (compact_value-Small policy positive "output" r.output.value)
                  (λ o l. (i, (k, l)))))
          (λ off. ground arith)

    compact_error-Fits :
        (r : InvokeToolResult)
        → Fits encoding has_store past policy r
        → Acts P
            (Fits encoding has_store past policy)
            (compact_error encoding has_store policy args r)
    unfolding compact_error
    compact_error-Fits r h =
        if_cases (Acts P (Fits encoding has_store past policy))
          (r.is_error && should_store policy.store_errors)
          (λ _.
            bind-Acts P (Small encoding has_store past policy) (Fits encoding has_store past policy)
              (compact_value encoding has_store policy args "error" r.output.value) _
              (compact_value-Small policy positive "error" r.output.value)
              (λ v k. (h.0, (h.1.0, k))))
          (λ _. h)

    compact_under-Fits :
        (r : InvokeToolResult)
        → should_store policy.store_inputs ≡ true
        → should_store policy.store_outputs ≡ true
        → Acts P (Fits encoding has_store past policy) (
            compact_input encoding has_store policy args r
            >>= compact_outputs encoding has_store policy args
            >>= compact_error encoding has_store policy args)
    compact_under-Fits r i o =
        bind-Acts P (Fits encoding has_store past policy) (Fits encoding has_store past policy)
          (compact_input encoding has_store policy args r
            >>= compact_outputs encoding has_store policy args)
          (compact_error encoding has_store policy args)
          (bind-Acts P (λ s. Small encoding has_store past policy s.input)
            (Fits encoding has_store past policy) (compact_input encoding has_store policy args r)
            (compact_outputs encoding has_store policy args) (compact_input-Small r i)
            (λ s k. compact_outputs-Fits s o k))
          compact_error-Fits

  pub compact_if-Fits :
      (r : InvokeToolResult) (policy : ToolArtifactPolicy)
      → policy.enabled ≡ true
      → should_store policy.store_inputs ≡ true
      → should_store policy.store_outputs ≡ true
      → Acts P
          (Fits encoding has_store past (policy_with_defaults policy))
          (compact_if encoding has_store args r (some policy))
  unfolding policy_with_defaults
  compact_if-Fits r policy on i o =
      if_cases (Acts P (Fits encoding has_store past (policy_with_defaults policy))) policy.enabled
        (λ _. compact_under-Fits (policy_with_defaults policy) (defaults-positive policy) r i o)
        (λ off. ground arith)
