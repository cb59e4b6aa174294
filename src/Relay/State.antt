-- ===== src/Relay/State.antt =====
-- The relay's state in updates/relay.go, and the methods that only read it or only fail: NewRelay,
-- snapshot, snapshotDue, baseEvent, enabled, handleError, previewEventID.
use Prim.Native.String.{len}
use go_temporal_ai_sdk.Prelude.{
  ℕ, ℤ, pos, ◌-ℤ◌, ltb_ℤ, String, Bool, true, false, not, ◌&&◌, ◌||◌, Option, none, some, List, [],
  ◌∷◌, ◌==◌, join, decimal, if◌then◌else◌,
}
use go_temporal_ai_sdk.Updates.Types.{
  Value, Snapshot, BaseEvent, PreviewRef, EventType, PreviewOutcome, protocol_version, lane_text,
}
use go_temporal_ai_sdk.Updates.Errors.{Err, is_stream_not_found}
use go_temporal_ai_sdk.Updates.Connector.{Connector, noop_connector}
use go_temporal_ai_sdk.Relay.Part.{Options, failure_policy_best_effort}

abbrev pub default_snapshot_every_chunks : ℤ
default_snapshot_every_chunks = pos 16

abbrev pub default_snapshot_every_chars : ℤ
default_snapshot_every_chars = pos 1024

pub record PreviewState : Type 0 where
  pub ref : PreviewRef
  pub text : String
  pub object : Option Value
  pub elements : List Value
  pub last_snapshot_sequence : ℤ
  pub last_snapshot_text_length : ℕ
  pub ended : Bool
  pub outcome : PreviewOutcome

-- `r.now().UnixMilli()`: reading the clock may move the world.
abbrev pub Clock : Type 0 → Type 0
Clock W = W → ℤ × W

pub record Relay (W : Type 0) : Type 0 where
  pub connector : Connector W
  pub options : Options
  pub attempts : List (String × PreviewState)
  pub snapshot_every_chunk : ℤ
  pub snapshot_every_char : ℤ
  pub now : Clock W
  pub disabled : Bool

abbrev positive_or : ℤ → ℤ → ℤ
positive_or n default = if ltb_ℤ (pos 0) n then n else default

-- NewRelayWithClock; `none` is a nil connector or clock, and `time_now` is time.Now.
unfoldable pub new_relay :
    {W : Type 0} → Clock W → Option (Connector W) → Options → Option (Clock W) → Relay W
new_relay time_now connector o clock =
    let every_chunks = positive_or o.snapshot_every_chunks default_snapshot_every_chunks in
    let every_characters = positive_or o.snapshot_every_characters default_snapshot_every_chars in
    record {
      connector = elim connector [ none ↦ noop_connector | some c ↦ c ];
      options = record o {
        lane = if o.lane == "" then lane_text else o.lane;
        snapshot_every_chunks = every_chunks;
        snapshot_every_characters = every_characters;
      };
      attempts = [];
      snapshot_every_chunk = every_chunks;
      snapshot_every_char = every_characters;
      now = elim clock [ none ↦ time_now | some c ↦ c ];
      disabled = false;
    }

unfoldable pub snapshot : PreviewState → Snapshot
snapshot s = record { text = s.text; object = s.object; elements = s.elements }

unfoldable pub preview_event_id : String → ℤ → String → String
preview_event_id attempt_id sequence suffix =
    join ("preview:" ∷ attempt_id ∷ ":" ∷ decimal sequence ∷ ":" ∷ suffix ∷ [])

module _ {W : Type 0} (r : Relay W) where
  unfoldable pub enabled : Bool
  enabled = r.options.visible && not (r.options.stream_id == "") && not r.disabled

  unfoldable pub snapshot_due : PreviewState → Bool
  snapshot_due s =
      not (ltb_ℤ (s.ref.sequence -ℤ s.last_snapshot_sequence) r.snapshot_every_chunk)
      || not (ltb_ℤ (pos (len s.text) -ℤ pos s.last_snapshot_text_length) r.snapshot_every_char)

  unfoldable pub base_event : EventType → String → W → BaseEvent × W
  base_event kind id w =
      let (at, w') = r.now w in
      (
        record {
          version = protocol_version;
          type = kind;
          event_id = id;
          cursor = "";
          stream_id = r.options.stream_id;
          occurred_at = at;
        },
        w',
      )

  unfoldable pub handle_error : Err → Option Err × Relay W
  handle_error e =
      if r.options.failure_policy == failure_policy_best_effort && is_stream_not_found e
      then (none, record r { disabled = true })
      else (some e, r)
