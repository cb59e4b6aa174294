-- ===== src/Agents/Waiting/Timeout.antt =====
-- What the timeout of waitForToolApprovalResponse in temporalai/approval.go measures: signals arrive at
-- given times, and the timer of a selection is ready when its duration has passed since the selection
-- began.
use go_temporal_ai_sdk.Prelude.{
  ℤ, pos, ltb_ℤ, ◌≡◌, true, false, not, ◌&&◌, List, [], ◌∷◌, ◌==◌, if◌then◌else◌,
}
use go_temporal_ai_sdk.Agents.Types.{ToolApprovalRequest, ToolApprovalResponse}
use go_temporal_ai_sdk.Agents.Flow
use go_temporal_ai_sdk.Agents.Flow.{Call, Flow, Selected, timer, received, nothing}
use go_temporal_ai_sdk.Agents.Approval.{approval_signal}
use go_temporal_ai_sdk.Agents.Runs.{World, Exchange}

-- A signal: the time since the one before it, or since the first selection, and what Receive makes of
-- the variable.
pub record Arrival : Type 0 where
  pub gap : ℤ
  pub decode : ToolApprovalResponse → ToolApprovalResponse

-- A selection that begins when the signal before has arrived.
abbrev pub selected_at : ℤ → List Arrival → Selected
selected_at timeout [] = timer
selected_at timeout (a ∷ rest) =
    if ltb_ℤ (pos 0) timeout && not (ltb_ℤ a.gap timeout) then timer else received a.decode

abbrev pub but_first : List Arrival → List Arrival
but_first [] = []
but_first (a ∷ rest) = rest

abbrev pub after_call : Call → List Arrival → List Arrival
after_call (Flow.select name timeout) arrivals = but_first arrivals
after_call c arrivals = arrivals

-- The signals that have yet to arrive: each selection takes one.
abbrev pub later : List Exchange → List Arrival → List Arrival
later [] arrivals = arrivals
later (e ∷ past) arrivals = after_call e.asked (later past arrivals)

abbrev pub timed : World → List Arrival → World
timed base arrivals past (Flow.select name timeout) = selected_at timeout (later past arrivals)
timed base arrivals past c = base past c

-- The variable after the signals.
abbrev pub decoded : ToolApprovalResponse → List Arrival → ToolApprovalResponse
decoded current [] = current
decoded current (a ∷ rest) = decoded (a.decode current) rest

-- Each of them is for another approval, and arrives before the timeout has passed since the one before
-- it.
abbrev pub Foreign : ToolApprovalRequest → ToolApprovalResponse → List Arrival → Type 0
Foreign request current [] = Unit {0}
Foreign request current (a ∷ rest) =
    (ltb_ℤ a.gap request.timeout ≡ true)
    × (((a.decode current).approval_id == request.approval_id) ≡ false)
    × Foreign request (a.decode current) rest

module _ (base : World) (request : ToolApprovalRequest) (arrivals : List Arrival) where
  abbrev world : World
  world = timed base arrivals

  abbrev selecting : Call
  selecting = Flow.select (approval_signal request) request.timeout
