-- ===== src/Agents/Approval.antt =====
-- temporalai/approval.go: a tool call waits for a person's decision. `rounds` bounds how many selections
-- of the endless loop are considered, beyond which the workflow is `waiting`.
use go_temporal_ai_sdk.Prelude.{
  ℕ, zero, suc, ℤ, pos, ltb_ℤ, String, Bool, true, false, not, ◌&&◌, Option, none, some, [], ◌∷◌,
  ◌++◌, ◌==◌, join, if◌then◌else◌,
}
use go_temporal_ai_sdk.Updates.Types.{Value, str, bool, WorkflowRecord, record_kind_interaction}
use go_temporal_ai_sdk.Agents.Types.{
  ToolApprovalRequest, ToolApprovalResponse, ToolApprovalState, Metadata,
}
use go_temporal_ai_sdk.Agents.Flow
use go_temporal_ai_sdk.Agents.Flow.{
  Flow, done, fail, waiting, call, error, Selected, timer, received, nothing, ◌>>=◌, ◌>>◌,
}
use go_temporal_ai_sdk.Agents.Values.{object, array, any_value, unless_empty}
use go_temporal_ai_sdk.Agents.Records.{write_record}

abbrev pub tool_approval_signal_name : String
tool_approval_signal_name = "go-temporal-ai-sdk.tool-approval-response"

abbrev pub tool_approval_response_signal_name : String → String
tool_approval_response_signal_name id =
    if id == "" then tool_approval_signal_name else join (tool_approval_signal_name ∷ "." ∷ id ∷ [])

abbrev pub timed_out_response : ToolApprovalRequest → ToolApprovalResponse
timed_out_response request = record {
  approval_id = request.approval_id;
  tool_call_id = request.tool_call_id;
  approved = false;
  reason = "approval timed out";
  timed_out = true;
  canceled = false;
}

abbrev pub no_response : ToolApprovalResponse
no_response = record {
  approval_id = "";
  tool_call_id = "";
  approved = false;
  reason = "";
  timed_out = false;
  canceled = false;
}

-- `if response.ToolCallID == "" { response.ToolCallID = request.ToolCallID }`
abbrev pub for_request : ToolApprovalRequest → ToolApprovalResponse → ToolApprovalResponse
for_request request r = record r {
  tool_call_id = if r.tool_call_id == "" then request.tool_call_id else r.tool_call_id;
}

-- The loop body after Select, for the response as it stands; `again` is `continue`. The timer exists
-- only if the timeout is positive.
unfoldable pub selected :
    ToolApprovalRequest
    → ToolApprovalResponse
    → (ToolApprovalResponse → Flow ToolApprovalResponse)
    → Selected
    → Flow ToolApprovalResponse
selected request current again timer =
    if ltb_ℤ (pos 0) request.timeout then done (timed_out_response request) else again current
selected request current again (received decode) =
    let response = decode current in
    if response.approval_id == request.approval_id
    then done (for_request request response)
    else again response
selected request current again nothing = again current

abbrev pub approval_signal : ToolApprovalRequest → String
approval_signal request =
    if request.signal_name == ""
    then tool_approval_response_signal_name request.approval_id
    else request.signal_name

unfoldable pub wait_loop :
    ℕ → ToolApprovalRequest → ToolApprovalResponse → Flow ToolApprovalResponse
unfolding selected
wait_loop zero request current = waiting
wait_loop (suc rounds) request current =
    call (Flow.select (approval_signal request) request.timeout)
      (selected request current (wait_loop rounds request))

abbrev pub wait_for_tool_approval_response : ℕ → ToolApprovalRequest → Flow ToolApprovalResponse
wait_for_tool_approval_response rounds request = wait_loop rounds request no_response

abbrev pub tool_approval_state : ToolApprovalResponse → ToolApprovalState
tool_approval_state r = record {
  approval_id = r.approval_id;
  approved = some r.approved;
  reason = r.reason;
}

unfoldable pub answer_status : ToolApprovalResponse → String
answer_status r =
    if r.approved
    then "approved"
    else if r.timed_out
    then "timed-out"
    else if r.canceled
    then "canceled"
    else "denied"

abbrev pub record_status : Option ToolApprovalResponse → String
record_status none = "pending"
record_status (some r) = answer_status r

abbrev pub answer_data : Option ToolApprovalResponse → Metadata
answer_data none = []
answer_data (some r) =
    (
      "answer",
      object (
          ("approved", bool r.approved)
          ∷ ("reason", str r.reason)
          ∷ ("timedOut", bool r.timed_out)
          ∷ ("canceled", bool r.canceled)
          ∷ []),
    )
    ∷ []

abbrev choice : String → String → Bool → Value
choice id label approved = object (
    ("id", str id)
    ∷ ("label", str label)
    ∷ ("value", object (("approved", bool approved) ∷ []))
    ∷ [])

unfoldable pub tool_approval_record :
    ToolApprovalRequest → Option ToolApprovalResponse → ℤ → WorkflowRecord
unfolding answer_status
tool_approval_record request response version = record {
  record_id = join ("interaction:" ∷ request.approval_id ∷ []);
  record_version = version;
  kind = record_kind_interaction;
  status = record_status response;
  contents = some (
      ("interactionId", str request.approval_id)
        ∷ ("interactionType", str "tool-approval")
        ∷ ("title", str (join ("Review " ∷ request.tool_name ∷ [])))
        ∷ (
          "questions",
          array (
              object (
                ("id", str request.approval_id)
                ∷ ("prompt", str "Allow this tool call?")
                ∷ (
                  "choices",
                  array (choice "approve" "Approve" true ∷ choice "deny" "Deny" false ∷ []),
                )
                ∷ ("required", bool true)
                ∷ [])
              ∷ []),
        )
        ∷ (
          "origin",
          object (
              ("toolCallId", str request.tool_call_id)
              ∷ ("toolName", str request.tool_name)
              ∷ ("input", any_value request.input)
              ∷ []),
        )
        ∷ unless_empty "toolMetadata" request.tool_metadata
      ++ unless_empty "metadata" request.metadata
      ++ answer_data response);
  scope = request.scope;
  updated_at = pos 0;
}

-- `if writeRecords && request.StreamID != "" { ... }`
unfoldable pub write_approval_record :
    Bool → ToolApprovalRequest → Option ToolApprovalResponse → ℤ → Flow (Unit {0})
unfolding write_record tool_approval_record
write_approval_record write_records request response version =
    if write_records && not (request.stream_id == "")
    then write_record request.stream_id (tool_approval_record request response version) ""
    else done tt

-- requestToolApproval after its checks.
unfoldable pub ask_for_approval : ℕ → ToolApprovalRequest → Bool → Flow ToolApprovalResponse
unfolding write_approval_record wait_loop ◌>>=◌
ask_for_approval rounds request write_records = do
  _ ← write_approval_record write_records request none (pos 1)
  response ← wait_for_tool_approval_response rounds request
  _ ← write_approval_record write_records request (some response) (pos 2)
  done response

unfoldable pub request_tool_approval : ℕ → ToolApprovalRequest → Bool → Flow ToolApprovalResponse
unfolding ask_for_approval
request_tool_approval rounds request write_records =
    if request.approval_id == ""
    then fail (error "approvalId is required")
    else if request.tool_call_id == ""
    then fail (error "toolCallId is required")
    else if request.tool_name == ""
    then fail (error "toolName is required")
    else ask_for_approval rounds request write_records
