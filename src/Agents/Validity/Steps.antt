-- ===== src/Agents/Validity/Steps.antt =====
-- A step of an agent keeps its number in its calls, and the receipts of its model's answer.
use go_temporal_ai_sdk.Prelude.{
  ℕ, suc, ◌<◌, ◌⊎◌, inl, inr, ◌∙◌, +ℤ-pos, ℕ, ℤ, pos, negsuc, ◌+ℤ◌, ltb_ℤ, String, ◌≡◌, refl, sym,
  false, not, ◌&&◌, none, some, List, [], ◌∷◌, ◌==◌, All, arith, if_cases,
}
use mathlib.Core.Path.{subst}
use go_temporal_ai_sdk.Updates.Types.{Value, PreviewReceipt}
use go_temporal_ai_sdk.Agents.Types.{
  AgentInput, AgentStep, AgentToolCall, CallOptions, GenerateResult, StreamedPart, StreamResult,
  Message, Part,
}
use go_temporal_ai_sdk.Agents.Flow.{Answer, ok, err, done, give, ◌>>=◌}
use go_temporal_ai_sdk.Agents.Values.{Library}
use go_temporal_ai_sdk.Agents.Records.{stream_id_for, agent_step_id, agent_step_type}
use go_temporal_ai_sdk.Agents.Stream.{
  call_of_part, parsed_call, is_nil, Gathered, gather, gather_all, gathering, stream_or_result,
  generate_result_from_stream, extracted_call, extract_tool_calls, attach_tool_preview_receipts,
}
use go_temporal_ai_sdk.Agents.Agent.{
  wants_stream, with_agent_stream_options, invoke_agent_model, new_step, ask_model,
}
use go_temporal_ai_sdk.Agents.Monitor.{Anyway}
use go_temporal_ai_sdk.Agents.Recording.{
  Valid, ReceiptOk, ModelOk, StreamOk, StepOk, stream_id_for-Valid,
}
use go_temporal_ai_sdk.Agents.Validity.Steering.{Steered, bind-Steered, side_then-Steered}
use go_temporal_ai_sdk.Agents.Validity.{CallOk, bind-Valid}

gather-receipts :
    (lib : Library) (g : Gathered) (p : StreamedPart)
    → (gather lib g p).out.preview_receipts ≡ g.out.preview_receipts
unfolding gather
gather-receipts lib g p = ground arith

gather_all-receipts :
    (lib : Library) (g : Gathered) (parts : List StreamedPart)
    → (gather_all lib g parts).out.preview_receipts ≡ g.out.preview_receipts
unfolding gather_all
gather_all-receipts lib g [] = refl
gather_all-receipts lib g (p ∷ rest) =
    gather_all-receipts lib (gather lib g p) rest ∙ gather-receipts lib g p

stream_receipts :
    (lib : Library) (s : StreamResult)
    → (generate_result_from_stream lib s).preview_receipts ≡ s.preview_receipts
unfolding generate_result_from_stream
stream_receipts lib s =
    elim s.result as (λ r. (stream_or_result lib s r).preview_receipts ≡ s.preview_receipts) [
      | none ↦ gather_all-receipts lib (gathering lib s) s.stream_parts
      | some r ↦ refl
    ]

parsed_call-CallOk :
    (lib : Library) (c : AgentToolCall) (raw : String) (v : Value ⊎ String)
    → CallOk c
    → CallOk (parsed_call lib c raw v)
parsed_call-CallOk lib c raw (inl v) h = h
parsed_call-CallOk lib c raw (inr e) h = h

extracted_call-CallOk :
    (lib : Library) (step_id : String) (n : ℤ) (type : String) (p : Part)
    → StepOk n
    → CallOk (extracted_call lib step_id n type p)
unfolding extracted_call
extracted_call-CallOk lib step_id n type p h =
    if_cases CallOk (is_nil lib p.input && not (p.input_raw == ""))
      (λ _.
        parsed_call-CallOk lib (call_of_part lib step_id n type p) p.input_raw
          (lib.unmarshal p.input_raw) h)
      (λ _. h)

extract_tool_calls-CallOk :
    (lib : Library) (parts : List Part) (step_id : String) (n : ℤ) (type : String)
    → StepOk n
    → All CallOk (extract_tool_calls lib parts step_id n type)
unfolding extract_tool_calls
extract_tool_calls-CallOk lib [] step_id n type h = tt
extract_tool_calls-CallOk lib (p ∷ rest) step_id n type h =
    if_cases (All CallOk) (p.type == "tool-call")
      (λ _. (
        extracted_call-CallOk lib step_id n type p h,
        extract_tool_calls-CallOk lib rest step_id n type h,
      ))
      (λ _. extract_tool_calls-CallOk lib rest step_id n type h)

attach-CallOk :
    (calls : List AgentToolCall) (receipts : List PreviewReceipt)
    → All CallOk calls
    → All CallOk (attach_tool_preview_receipts calls receipts)
unfolding attach_tool_preview_receipts
attach-CallOk [] receipts h = tt
attach-CallOk (c ∷ rest) receipts h = (h.0, attach-CallOk rest receipts h.1)

pub next-StepOk : (n : ℤ) → StepOk n → StepOk (n +ℤ pos 1)
next-StepOk (pos n) h = subst StepOk (sym (+ℤ-pos n 1)) refl
next-StepOk (negsuc n) h = ground arith

pub sequence-versioned : (n : ℤ) → StepOk n → ltb_ℤ (n +ℤ pos 2) (pos 1) ≡ false
sequence-versioned (pos n) h = ground (arith, +ℤ-pos n 2)
sequence-versioned (negsuc n) h = ground arith

-- A step with its tool calls and receipts.
pub record StepKept (n : ℤ) (step : AgentStep) : Type 0 where
  pub numbered : step.step_number ≡ n
  pub counted : StepOk step.step_number
  pub calls_ok : All CallOk step.tool_calls
  pub receipts_ok : All ReceiptOk step.model_result.preview_receipts

new_step-StepKept :
    (lib : Library) (rounds : ℕ) (input : AgentInput) (n : ℤ) (r : GenerateResult)
    → StepOk n
    → All ReceiptOk r.preview_receipts
    → StepKept n (new_step lib rounds input n r)
new_step-StepKept lib rounds input n r h k = record {
  numbered = refl;
  counted = h;
  calls_ok =
      attach-CallOk (extract_tool_calls lib r.content (agent_step_id n) n (agent_step_type n))
        r.preview_receipts
        (extract_tool_calls-CallOk lib r.content (agent_step_id n) n (agent_step_type n) h);
  receipts_ok = k;
}

-- The model's part of a step, for a number of calls of models before it.
module _ (most : ℕ) (lib : Library) (rounds : ℕ) (input : AgentInput) (s : ℕ)
    (room : s < most) where
  abbrev HasReceipts : ℕ → GenerateResult → Type 0
  HasReceipts t r = (t ≡ suc s) × All ReceiptOk r.preview_receipts

  answered-Steered :
      (a : Answer GenerateResult) → ModelOk a → Steered most HasReceipts (suc s) (give a)
  answered-Steered (ok r) h = (refl, h)
  answered-Steered (err e) h = tt

  streamed-Steered :
      (a : Answer StreamResult)
      → StreamOk a
      → Steered most HasReceipts
          (suc s)
          (give a >>= (λ r. done (generate_result_from_stream lib r)))
  unfolding ◌>>=◌
  streamed-Steered (ok r) h = (refl, subst (All ReceiptOk) (sym (stream_receipts lib r)) h)
  streamed-Steered (err e) h = tt

  invoke_agent_model-Steered :
      (options : CallOptions)
      → Steered most HasReceipts s (invoke_agent_model lib rounds input options)
  unfolding invoke_agent_model ◌>>=◌
  invoke_agent_model-Steered options =
      if_cases (Steered most HasReceipts s) (wants_stream input) (λ _. (room, streamed-Steered))
        (λ _. (room, answered-Steered))

  pub ask_model-Steered :
      (n : ℤ) (messages : List Message)
      → StepOk n
      → Steered most
          (λ t step. (t ≡ suc s) × StepKept n step)
          s
          (ask_model lib rounds input n messages)
  unfolding ask_model with_agent_stream_options
  ask_model-Steered n messages h =
      side_then-Steered most (λ t step. (t ≡ suc s) × StepKept n step) s _ _
        (if_cases (Valid Anyway) (wants_stream input)
          (λ _.
            bind-Valid (stream_id_for input.stream.stream_id) _
              (stream_id_for-Valid input.stream.stream_id) (λ _. tt))
          (λ _. tt))
        (λ options.
          bind-Steered most HasReceipts (λ t step. (t ≡ suc s) × StepKept n step) s
            (invoke_agent_model lib rounds input options) _ (invoke_agent_model-Steered options)
            (λ t r k. (k.0, new_step-StepKept lib rounds input n r h k.1)))
