-- ===== src/Activities/Tool/Result.antt =====
-- What InvokeTool of activities/tool.go answers: for which call, when the tool is executed, and how large
-- its values are.
use go_temporal_ai_sdk.Prelude.{
  ◌≡◌, refl, sym, Bool, true, false, not, ◌||◌, Option, none, some, ◌==◌, All, if_cases, arith,
  List,
}
use mathlib.Core.List.{Memᴰ}
use mathlib.Core.Path.{subst}
use go_temporal_ai_sdk.Updates.Types.{Value}
use go_temporal_ai_sdk.Agents.Types.{
  InvokeToolArgs, InvokeToolResult, ToolApprovalState, ToolArtifactPolicy, ToolResultOutput,
}
use go_temporal_ai_sdk.Agents.Flow.{Failure, Answer, ok, err}
use go_temporal_ai_sdk.Activities.Act as Act
use go_temporal_ai_sdk.Activities.Act.{
  Act, Acts, bind-Acts, ArtifactRef, ArtifactWrite, Call, Decision, Output, Replies, Reply,
  ToolCall, done, fail, call, Contract, Exchange, exchanges_of, outcome, calls_of, outcome-Acts,
  calls_of-Acts, ◌>>=◌,
}
use go_temporal_ai_sdk.Activities.Artifacts.{
  Encoding, policy_with_defaults, should_store, compact_if, compact_tool_artifacts,
}
use go_temporal_ai_sdk.Activities.Tool.{
  Tool, Toolbox, call_for, finish, modelled, executed_with, output_error, executed, execute_tool,
  decided_beside, decided_alone, is_approved, approve_tool, validated, found, invoke_tool,
}
use go_temporal_ai_sdk.Activities.Artifacts.Size.{Named, Fits, compact_if-Keeps, compact_if-Fits}

module _ (toolbox : Toolbox) (encoding : Encoding) (has_store : Bool) (args : InvokeToolArgs)
    (P : Contract) (Q : InvokeToolResult → Type 0)
    (finishes : (r : InvokeToolResult)
      → r.tool_call_id ≡ args.tool_call_id
      → Acts P Q (finish toolbox encoding has_store args r)) where
  modelled_id :
      (c : ToolCall) (output : Option Value) (is_error : Bool) (a : Answer ToolResultOutput)
      → (modelled toolbox encoding has_store args c output is_error a).tool_call_id
        ≡ args.tool_call_id
  modelled_id c output is_error (ok o) = refl
  modelled_id c output is_error (err e) = refl

  executed_with_id :
      (t : Tool) (c : ToolCall) (output : Option Value) (e : Option Failure)
      → (executed_with toolbox encoding has_store args t c output e).tool_call_id
        ≡ args.tool_call_id
  executed_with_id t c output none =
      modelled_id c output false (toolbox.model_output t args.tool_call_id args.input output false)
  executed_with_id t c output (some e) = modelled_id c output true _

  module _ (resolves : (c : ToolCall) → P.Promised (Act.resolve_approval c))
      (executes : (c : ToolCall) (v : Option Value) → P.Promised (Act.execute c v)) where
    execute_tool-Acts :
        (t : Tool) (c : ToolCall) → Acts P Q (execute_tool toolbox encoding has_store args t c)
    unfolding execute_tool executed
    execute_tool-Acts t c =
        if_cases (Acts P Q) t.executable
          (λ _. (
            executes c _,
            λ o _.
                finishes _ (
                  executed_with_id t c o.output (output_error toolbox encoding has_store args t o)),
          ))
          (λ _. finishes _ refl)

    decided_beside-Acts :
        (t : Tool) (c : ToolCall) (a : Answer Decision)
        → Acts P Q (decided_beside toolbox encoding has_store args t c a)
    unfolding decided_beside
    decided_beside-Acts t c (err e) = finishes _ refl
    decided_beside-Acts t c (ok d) =
        if_cases (Acts P Q) d.denied (λ _. finishes _ refl) (λ _. execute_tool-Acts t c)

    decided_alone-Acts :
        (t : Tool) (c : ToolCall) (a : Answer Decision)
        → Acts P Q (decided_alone toolbox encoding has_store args t c a)
    unfolding decided_alone
    decided_alone-Acts t c (err e) = finishes _ refl
    decided_alone-Acts t c (ok d) =
        if_cases (Acts P Q) d.blocks (λ _. finishes _ refl) (λ _. execute_tool-Acts t c)

    approve_tool-Acts :
        (t : Tool) (c : ToolCall) (a : Option ToolApprovalState)
        → Acts P Q (approve_tool toolbox encoding has_store args t c a)
    unfolding approve_tool
    approve_tool-Acts t c (some a) =
        if_cases (Acts P Q) (not (is_approved a.approved)) (λ _. finishes _ refl)
          (λ _.
            if_cases (Acts P Q) t.needs_approval
              (λ _. (resolves c, λ a _. decided_beside-Acts t c a)) (λ _. execute_tool-Acts t c))
    approve_tool-Acts t c none =
        if_cases (Acts P Q) (t.requires_approval || t.needs_approval)
          (λ _. (resolves c, λ a _. decided_alone-Acts t c a)) (λ _. execute_tool-Acts t c)

    validated-Acts :
        (t : Tool) (c : ToolCall) (e : Option Failure)
        → Acts P Q (validated toolbox encoding has_store args t c e)
    validated-Acts t c (some e) = finishes _ refl
    validated-Acts t c none = approve_tool-Acts t c args.approval

    found-Acts : (t : Option Tool) → Acts P Q (found toolbox encoding has_store args t)
    found-Acts none = finishes _ refl
    found-Acts (some t) = validated-Acts t (call_for args t) (toolbox.validate_input t args.input)

    pub invoke_tool-Acts : Acts P Q (invoke_tool toolbox encoding has_store args)
    unfolding invoke_tool
    invoke_tool-Acts =
        if_cases (Acts P Q) (args.tool_call_id == "") (λ _. tt)
          (λ _.
            if_cases (Acts P Q) (args.tool_name == "") (λ _. tt)
              (λ _. found-Acts (toolbox.find args.tool_name)))

-- The calls are as promised, whatever the replies are.
abbrev Anyhow : (Call → Type 0) → Contract
Anyhow P = record { Promised = P; Told = λ c r. Unit {0} }

abbrev Freely : Call → Type 0
Freely c = Unit {0}

-- The replies are those of a run.
abbrev Run : List Exchange → Contract
Run past = record { Promised = Freely; Told = λ c r. Memᴰ (c, r) past }

abbrev Anything : InvokeToolResult → Type 0
Anything r = Unit {0}

abbrev pub NotExecute : Call → Type 0
NotExecute (Act.execute c v) = ⊥
NotExecute c = Unit {0}

module _ (toolbox : Toolbox) (encoding : Encoding) (has_store : Bool) (args : InvokeToolArgs) where
  finish-Named :
      (r : InvokeToolResult)
      → r.tool_call_id ≡ args.tool_call_id
      → Acts (Anyhow Freely) (Named args) (finish toolbox encoding has_store args r)
  unfolding finish compact_tool_artifacts
  finish-Named r h =
      compact_if-Keeps encoding has_store args (Anyhow Freely) (λ _. tt) (Named args) (λ _ _ k. k)
        (λ _ _ k. k) (λ _ _ k. k) r args.artifacts h

  finish-Fits :
      (past : List Exchange) (policy : ToolArtifactPolicy)
      → args.artifacts ≡ some policy
      → policy.enabled ≡ true
      → should_store policy.store_inputs ≡ true
      → should_store policy.store_outputs ≡ true
      → (r : InvokeToolResult)
      → Acts
          (Run past)
          (Fits encoding has_store past (policy_with_defaults policy))
          (finish toolbox encoding has_store args r)
  unfolding finish compact_tool_artifacts
  finish-Fits past policy e on i o r =
      subst
        (λ p.
          Acts (Run past) (Fits encoding has_store past (policy_with_defaults policy))
            (compact_if encoding has_store args r p))
        (sym e)
        (compact_if-Fits encoding has_store args (Run past) (λ _. tt) past (λ _ _ m. m) r policy on
          i o)

  finish-NotExecute :
      (r : InvokeToolResult)
      → Acts (Anyhow NotExecute) Anything (finish toolbox encoding has_store args r)
  unfolding finish compact_tool_artifacts
  finish-NotExecute r =
      compact_if-Keeps encoding has_store args (Anyhow NotExecute) (λ _. tt) Anything (λ _ _ _. tt)
        (λ _ _ _. tt) (λ _ _ _. tt) r args.artifacts tt

  module _ (a : ToolApprovalState) (asked : args.approval ≡ some a)
      (not_given : is_approved a.approved ≡ false) where
    approve_tool_denied :
        (t : Tool) (c : ToolCall)
        → Acts
            (Anyhow NotExecute)
            Anything
            (approve_tool toolbox encoding has_store args t c (some a))
    unfolding approve_tool
    approve_tool_denied t c =
        if_cases (Acts (Anyhow NotExecute) Anything) (not (is_approved a.approved))
          (λ _. finish-NotExecute _) (λ e. ground arith)

    validated_denied :
        (t : Tool) (c : ToolCall) (e : Option Failure)
        → Acts (Anyhow NotExecute) Anything (validated toolbox encoding has_store args t c e)
    validated_denied t c (some e) = finish-NotExecute _
    validated_denied t c none =
        subst
          (λ o.
            Acts (Anyhow NotExecute) Anything (approve_tool toolbox encoding has_store args t c o))
          (sym asked) (approve_tool_denied t c)

    found_denied :
        (t : Option Tool)
        → Acts (Anyhow NotExecute) Anything (found toolbox encoding has_store args t)
    found_denied none = finish-NotExecute _
    found_denied (some t) =
        validated_denied t (call_for args t) (toolbox.validate_input t args.input)

    denied-Acts : Acts (Anyhow NotExecute) Anything (invoke_tool toolbox encoding has_store args)
    unfolding invoke_tool
    denied-Acts =
        if_cases (Acts (Anyhow NotExecute) Anything) (args.tool_call_id == "") (λ _. tt)
          (λ _.
            if_cases (Acts (Anyhow NotExecute) Anything) (args.tool_name == "") (λ _. tt)
              (λ _. found_denied (toolbox.find args.tool_name)))

module _ (toolbox : Toolbox) (encoding : Encoding) (has_store : Bool) (args : InvokeToolArgs) where
  -- InvokeTool answers with the identifier of the call that it was asked with, when it answers with a
  -- result: of a tool that is missing, denied or failed as of one that succeeded.
  pub invoke_tool-tool_call_id :
      (replies : Replies) (r : InvokeToolResult)
      → outcome replies 0 (invoke_tool toolbox encoding has_store args) ≡ ok r
      → r.tool_call_id ≡ args.tool_call_id
  invoke_tool-tool_call_id replies r e =
      outcome-Acts (Anyhow Freely) (Named args) (invoke_tool toolbox encoding has_store args)
        replies 0 r
        (invoke_tool-Acts toolbox encoding has_store args (Anyhow Freely) (Named args)
          (finish-Named toolbox encoding has_store args) (λ _. tt) (λ _ _. tt))
        (λ _ _ _. tt) e

  -- InvokeTool does not execute a tool whose approval was asked for and not given, whatever the tool's own
  -- rule and the store of artifacts answer.
  pub invoke_tool-unapproved :
      (replies : Replies) (a : ToolApprovalState)
      → args.approval ≡ some a
      → is_approved a.approved ≡ false
      → All NotExecute (calls_of replies 0 (invoke_tool toolbox encoding has_store args))
  invoke_tool-unapproved replies a e h =
      calls_of-Acts (Anyhow NotExecute) Anything (invoke_tool toolbox encoding has_store args)
        replies 0 (denied-Acts toolbox encoding has_store args a e h) (λ _ _. tt)

  -- In what InvokeTool answers, each of the input, the result and the output is nothing, or has a JSON
  -- within the policy's bound, or stands for a larger value: the JSON of that one was written to the
  -- store, the store answered with a reference in this run, and of the JSON itself only a preview is
  -- kept, which has at most as many bytes as the policy allows for it and 14 more. The policy has to be
  -- enabled, and to store inputs and outputs.
  pub invoke_tool-Fits :
      (replies : Replies) (r : InvokeToolResult) (policy : ToolArtifactPolicy)
      → args.artifacts ≡ some policy
      → policy.enabled ≡ true
      → should_store policy.store_inputs ≡ true
      → should_store policy.store_outputs ≡ true
      → outcome replies 0 (invoke_tool toolbox encoding has_store args) ≡ ok r
      → Fits encoding has_store
          (exchanges_of replies 0 (invoke_tool toolbox encoding has_store args))
          (policy_with_defaults policy)
          r
  invoke_tool-Fits replies r policy e on i o k =
      let past = exchanges_of replies 0 (invoke_tool toolbox encoding has_store args) in
      outcome-Acts (Run past) (Fits encoding has_store past (policy_with_defaults policy))
        (invoke_tool toolbox encoding has_store args) replies 0 r
        (invoke_tool-Acts toolbox encoding has_store args (Run past)
          (Fits encoding has_store past (policy_with_defaults policy))
          (λ s _. finish-Fits toolbox encoding has_store args past policy e on i o s) (λ _. tt)
          (λ _ _. tt))
        (λ _ _ m. m) k
