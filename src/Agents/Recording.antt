-- ===== src/Agents/Recording.antt =====
-- The records that the workflows of temporalai write are complete.
use go_temporal_ai_sdk.Prelude.{
  ℤ, pos, is_negative, ltb_ℤ, eqb_ℤ, String, ◌≡◌, refl, true, false, not, ◌&&◌, if_cases, Option,
  none, some, [], ◌∷◌, ◌==◌, join, All, append-ne_empty,
}
use go_temporal_ai_sdk.Updates.Types.{WorkflowRecord, PreviewReceipt, record_upsert, stream_end}
use go_temporal_ai_sdk.Updates.Validation.{validate_event, negative_step}
use go_temporal_ai_sdk.Updates.Records.Valid.{Recordable, new_record_upsert_event-valid}
use go_temporal_ai_sdk.Agents.Types.{
  AgentInput, AgentStep, AgentToolCall, GenerateResult, StreamResult, InvokeToolResult,
  ToolApprovalRequest, ToolApprovalResponse, SubagentSnapshot,
}
use go_temporal_ai_sdk.Agents.Flow
use go_temporal_ai_sdk.Agents.Flow.{
  Call, Reply, Flow, Answer, Failure, ok, err, Execution, done, fail, call, succeed,
}
use go_temporal_ai_sdk.Agents.Values.{Library}
use go_temporal_ai_sdk.Agents.Records.{
  stamped, write_record, stream_id_for, update_stream_id, agent_step_scope,
}
use go_temporal_ai_sdk.Agents.Approval.{answer_status, record_status, tool_approval_record}
use go_temporal_ai_sdk.Agents.Tools.{result_status, tool_status, agent_tool_record}
use go_temporal_ai_sdk.Agents.Progress.{
  subagent_record, receipt_record, is_message_receipt, step_record, fallback_record_id,
}
use go_temporal_ai_sdk.Agents.Monitor.{Anyway, Calls}

-- Every event that is written passes ValidateEvent.
abbrev pub WritesValid : Call → Type 0
WritesValid (Flow.write_record e) = validate_event (record_upsert e) ≡ none
WritesValid (Flow.end_stream e) = validate_event (stream_end e) ≡ none
WritesValid c = Unit {0}

-- The calls of all that is not the model's part of a step.
abbrev pub SideCall : Call → Type 0
SideCall (Flow.invoke_model id options) = ⊥
SideCall (Flow.invoke_model_stream id options) = ⊥
SideCall c = WritesValid c

-- The receipts that become records name their record and have no negative step number.
abbrev pub ReceiptOk : PreviewReceipt → Type 0
ReceiptOk r =
    is_message_receipt r ≡ true
    → ((r.target_record_id == "") ≡ false) × (negative_step r.scope.step_number ≡ false)

abbrev pub ModelOk : Answer GenerateResult → Type 0
ModelOk (ok r) = All ReceiptOk r.preview_receipts
ModelOk (err e) = Unit {0}

abbrev pub StreamOk : Answer StreamResult → Type 0
StreamOk (ok r) = All ReceiptOk r.preview_receipts
StreamOk (err e) = Unit {0}

-- What is assumed of the replies: a clock after 1970, and such receipts.
abbrev pub GoodReply : (c : Call) → Reply c → Type 0
GoodReply Flow.now t = is_negative t ≡ false
GoodReply (Flow.invoke_model id options) r = ModelOk r
GoodReply (Flow.invoke_model_stream id options) r = StreamOk r
GoodReply c r = Unit {0}

abbrev pub Valid : {A : Type 0} → (A → Type 0) → Flow A → Type 0
Valid Q m = Calls GoodReply SideCall Q Anyway m

stamped-Recordable :
    (now : ℤ) (r : WorkflowRecord)
    → is_negative now ≡ false
    → Recordable r
    → Recordable (stamped now r)
stamped-Recordable now r t h = record {
  contents_are = h.contents_are;
  named = h.named;
  versioned = h.versioned;
  of_kind = h.of_kind;
  kind_given = h.kind_given;
  with_status = h.with_status;
  filled = h.filled;
  step_ok = h.step_ok;
  not_before_epoch =
      if_cases (λ n. is_negative n ≡ false) (eqb_ℤ r.updated_at (pos 0)) (λ _. t)
        (λ _. h.not_before_epoch);
}

pub succeed-Valid : (a : Option Failure) → Valid Anyway (succeed a)
succeed-Valid none = tt
succeed-Valid (some e) = tt

pub write_record-Valid :
    (stream_id : String) (r : WorkflowRecord) (accepted : String)
    → Recordable r
    → Valid Anyway (write_record stream_id r accepted)
unfolding write_record
write_record-Valid stream_id r accepted h =
    if_cases (Valid Anyway) (stream_id == "") (λ _. tt)
      (λ s. (
        tt,
        λ now t. (
          new_record_upsert_event-valid stream_id (stamped now r) accepted now s t
              (stamped-Recordable now r t h),
          λ a _. succeed-Valid a,
        ),
      ))

pub stream_id_for-Valid : (configured : String) → Valid Anyway (stream_id_for configured)
unfolding stream_id_for
stream_id_for-Valid configured =
    if_cases (Valid Anyway) (not (configured == "")) (λ _. tt) (λ _. (tt, λ e _. tt))

pub update_stream_id-Valid : (input : AgentInput) → Valid Anyway (update_stream_id input)
unfolding update_stream_id
update_stream_id-Valid input =
    if_cases (Valid Anyway)
      (not input.stream.visible && input.stream.stream_id == "" && not input.use_streaming_model)
      (λ _. tt) (λ _. stream_id_for-Valid input.stream.stream_id)

-- A step number of a call or a step that is not negative stays so in its scope.
abbrev pub StepOk : ℤ → Type 0
StepOk n = is_negative n ≡ false

pub step_scope-ok :
    (input : AgentInput) (id : String) (n : ℤ) (type : String)
    → StepOk n
    → negative_step (agent_step_scope input id n type).step_number ≡ false
unfolding agent_step_scope
step_scope-ok input id n type h = h

abbrev Given : String → Type 0
Given s = (s == "") ≡ false

result_status-given : (r : InvokeToolResult) → (result_status r == "") ≡ false
unfolding result_status
result_status-given r =
    if_cases Given (r.output.type == "execution-denied") (λ _. refl)
      (λ _. if_cases Given r.is_error (λ _. refl) (λ _. refl))

tool_status-given : (result : Option InvokeToolResult) → (tool_status result == "") ≡ false
tool_status-given none = refl
tool_status-given (some r) = result_status-given r

pub agent_tool_record-Recordable :
    (lib : Library) (input : AgentInput) (c : AgentToolCall) (result : Option InvokeToolResult)
    (version : ℤ)
    → StepOk c.step_number
    → ltb_ℤ version (pos 1) ≡ false
    → Recordable (agent_tool_record lib input c result version)
unfolding agent_tool_record
agent_tool_record-Recordable lib input c result version s v = record {
  contents_are = _;
  named = append-ne_empty "tool:" c.tool_call_id refl;
  versioned = v;
  of_kind = refl;
  kind_given = refl;
  with_status = tool_status-given result;
  filled = refl;
  step_ok = step_scope-ok input c.step_id c.step_number c.step_type s;
  not_before_epoch = refl;
}

answer_status-given : (r : ToolApprovalResponse) → (answer_status r == "") ≡ false
unfolding answer_status
answer_status-given r =
    if_cases Given r.approved (λ _. refl)
      (λ _.
        if_cases Given r.timed_out (λ _. refl)
          (λ _. if_cases Given r.canceled (λ _. refl) (λ _. refl)))

record_status-given :
    (response : Option ToolApprovalResponse) → (record_status response == "") ≡ false
record_status-given none = refl
record_status-given (some r) = answer_status-given r

pub tool_approval_record-Recordable :
    (request : ToolApprovalRequest) (response : Option ToolApprovalResponse) (version : ℤ)
    → negative_step request.scope.step_number ≡ false
    → ltb_ℤ version (pos 1) ≡ false
    → Recordable (tool_approval_record request response version)
unfolding tool_approval_record
tool_approval_record-Recordable request response version s v = record {
  contents_are = _;
  named = append-ne_empty "interaction:" request.approval_id refl;
  versioned = v;
  of_kind = refl;
  kind_given = refl;
  with_status = record_status-given response;
  filled = refl;
  step_ok = s;
  not_before_epoch = refl;
}

pub subagent_record-Recordable :
    (input : AgentInput) (s : SubagentSnapshot)
    → negative_step input.stream.scope.step_number ≡ false
    → ltb_ℤ s.sequence (pos 1) ≡ false
    → (s.status == "") ≡ false
    → Recordable (subagent_record input s)
unfolding subagent_record
subagent_record-Recordable input s n v t = record {
  contents_are = _;
  named = append-ne_empty "subagent:" s.subagent_id refl;
  versioned = v;
  of_kind = refl;
  kind_given = refl;
  with_status = t;
  filled = refl;
  step_ok = n;
  not_before_epoch = refl;
}

pub receipt_record-Recordable :
    (r : PreviewReceipt)
    → (r.target_record_id == "") ≡ false
    → negative_step r.scope.step_number ≡ false
    → Recordable (receipt_record r)
unfolding receipt_record
receipt_record-Recordable r n s = record {
  contents_are = _;
  named = n;
  versioned = refl;
  of_kind = refl;
  kind_given = refl;
  with_status = refl;
  filled = refl;
  step_ok = s;
  not_before_epoch = refl;
}

pub step_record-Recordable :
    (input : AgentInput) (step : AgentStep) (stream_id : String)
    → StepOk step.step_number
    → Recordable (step_record input step stream_id)
unfolding step_record
step_record-Recordable input step stream_id s = record {
  contents_are = _;
  named = target_given;
  versioned = refl;
  of_kind = refl;
  kind_given = refl;
  with_status = refl;
  filled = refl;
  step_ok = step_scope-ok input step.step_id step.step_number step.step_type s;
  not_before_epoch = refl;
}
  where
    target_given : (fallback_record_id input step stream_id == "") ≡ false
    target_given =
        if_cases (λ (base : String). (join (base ∷ ":" ∷ step.step_id ∷ []) == "") ≡ false)
          (input.stream.target_record_id == "")
          (λ _.
            append-ne_empty (join ("message:" ∷ stream_id ∷ [])) _
              (append-ne_empty "message:" stream_id refl))
          (λ e. append-ne_empty input.stream.target_record_id _ e)
