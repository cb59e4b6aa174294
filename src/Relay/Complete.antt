-- ===== src/Relay/Complete.antt =====
-- Succeed, Fail, Cancel and Receipts of updates/relay.go.
use Prim.Native.String.{compare}
use text.Mathlib.Text.{is_le}
use go_temporal_ai_sdk.Prelude.{
  String, Bool, true, false, not, Option, none, some, List, [], ◌∷◌, map, lookup, if◌then◌else◌,
}
use go_temporal_ai_sdk.Updates.Types.{
  PreviewReceipt, PreviewOutcome, PreviewEndEvent, event_type_preview_end,
  preview_outcome_succeeded, preview_outcome_failed, preview_outcome_canceled,
}
use go_temporal_ai_sdk.Updates.Errors.{Err}
use go_temporal_ai_sdk.Relay.State.{
  PreviewState, Relay, enabled, snapshot, base_event, preview_event_id,
}
use go_temporal_ai_sdk.Relay.Preview.{next_sequence, end_with}
use go_temporal_ai_sdk.Relay.Accept.{Answer, put_state, fail_with, checkpoint}

-- sort.Strings: in the order of their bytes, which is that of their characters.
unfoldable pub insert_sorted : String → List String → List String
insert_sorted k [] = k ∷ []
insert_sorted k (j ∷ ks) = if is_le (compare k j) then k ∷ j ∷ ks else j ∷ insert_sorted k ks

unfoldable pub sort_strings : List String → List String
unfolding insert_sorted
sort_strings [] = []
sort_strings (k ∷ ks) = insert_sorted k (sort_strings ks)

abbrev pub keys : List (String × PreviewState) → List String
keys = map (λ entry. entry.0)

-- What the loop body leaves: whether the loop goes on, beside the error to return if it does not.
abbrev pub Progress : Type 0 → Type 0
Progress V = Bool × Option Err × Relay V × V

abbrev pub receipt : PreviewState → PreviewReceipt
receipt s = record {
  attempt_id = s.ref.attempt_id;
  target_record_id = s.ref.target_record_id;
  lane = s.ref.lane;
  sequence = s.ref.sequence;
  outcome = s.outcome;
  snapshot = snapshot s;
  scope = s.ref.scope;
}

unfoldable pub receipts_loop : List String → List (String × PreviewState) → List PreviewReceipt
receipts_loop [] attempts = []
receipts_loop (key ∷ rest) attempts =
    let others = receipts_loop rest attempts in
    elim (lookup key attempts) [
      | none ↦ others
      | some s ↦ if s.ended then receipt s ∷ others else others
    ]

module _ {W : Type 0} where
  abbrev stop : Answer W → Progress W
  stop (e, r, w) = (false, e, r, w)

  -- The end of complete's loop body, after the store's answer.
  unfoldable pub end_answered :
      Relay W → String → PreviewState → PreviewOutcome → Option Err × W → Progress W
  end_answered r key s outcome (some e, w) = stop (fail_with r e w)
  end_answered r key s outcome (none, w) = (true, none, put_state r key (end_with s outcome), w)

  -- The last step of complete's loop body: `PreviewEnd` goes out, and the state is ended.
  unfoldable pub end_attempt :
      Relay W → String → PreviewState → PreviewOutcome → String → W → Progress W
  unfolding end_answered
  end_attempt r key s outcome reason w =
      let s1 = next_sequence s in
      let r1 = put_state r key s1 in
      let id = preview_event_id s1.ref.attempt_id s1.ref.sequence "end" in
      let (base, w1) = base_event r1 event_type_preview_end id w in
      let event : PreviewEndEvent = record {
        base = base;
        ref = s1.ref;
        outcome = outcome;
        reason = reason;
        snapshot = some (snapshot s1);
      } in
      end_answered r1 key s1 outcome (r1.connector.end_preview event w1)

  -- The loop body after its checkpoint, for the state as it then is in the map.
  unfoldable pub end_found :
      Relay W → String → PreviewOutcome → String → W → Option PreviewState → Progress W
  end_found r key outcome reason w none = (true, none, r, w)
  end_found r key outcome reason w (some s) = end_attempt r key s outcome reason w

  unfoldable pub complete_checkpointed : String → PreviewOutcome → String → Answer W → Progress W
  unfolding end_found end_attempt
  complete_checkpointed key outcome reason (some e, r, w) = (false, some e, r, w)
  complete_checkpointed key outcome reason (none, r, w) =
      end_found r key outcome reason w (lookup key r.attempts)

  -- The loop body for one key. Every key comes from the map, so `none` does not occur.
  unfoldable pub complete_found :
      Relay W → String → PreviewOutcome → String → W → Option PreviewState → Progress W
  unfolding complete_checkpointed
  complete_found r key outcome reason w none = (true, none, r, w)
  complete_found r key outcome reason w (some s) =
      if s.ended
      then (true, none, r, w)
      else complete_checkpointed key outcome reason (checkpoint r key s w)

  unfoldable pub complete_one : Relay W → String → PreviewOutcome → String → W → Progress W
  unfolding complete_found
  complete_one r key outcome reason w =
      complete_found r key outcome reason w (lookup key r.attempts)

  unfoldable pub proceed : (Relay W → W → Answer W) → Progress W → Answer W
  proceed next (true, e, r, w) = next r w
  proceed next (false, e, r, w) = (e, r, w)

  unfoldable pub complete_loop : List String → PreviewOutcome → String → Relay W → W → Answer W
  unfolding proceed complete_one
  complete_loop [] outcome reason r w = (none, r, w)
  complete_loop (key ∷ rest) outcome reason r w =
      proceed (complete_loop rest outcome reason) (complete_one r key outcome reason w)

  unfoldable pub complete : Relay W → PreviewOutcome → String → W → Answer W
  unfolding complete_loop
  complete r outcome reason w =
      if not (enabled r)
      then (none, r, w)
      else complete_loop (sort_strings (keys r.attempts)) outcome reason r w

  unfoldable pub succeed : Relay W → W → Answer W
  succeed r w = complete r preview_outcome_succeeded "" w

  unfoldable pub fail : Relay W → String → W → Answer W
  fail r reason w = complete r preview_outcome_failed reason w

  unfoldable pub cancel : Relay W → String → W → Answer W
  cancel r reason w = complete r preview_outcome_canceled reason w

  unfoldable pub receipts : Relay W → List PreviewReceipt
  unfolding receipts_loop
  receipts r = receipts_loop (sort_strings (keys r.attempts)) r.attempts
