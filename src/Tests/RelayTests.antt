-- ===== src/Tests/RelayTests.antt =====
-- The relay at work, and the theorems of Relay at concrete relays.
use go_temporal_ai_sdk.Prelude.{
  pos, some, ◌+ℤ◌, ◌-ℤ◌, String, ◌≡◌, refl, false, none, List, [], ◌∷◌, map, lookup, insert, arith,
}
use go_temporal_ai_sdk.Updates.Types.{event_base}
use go_temporal_ai_sdk.Updates.Errors.{Err}
use go_temporal_ai_sdk.Updates.Connector.{Connector, noop_connector}
use go_temporal_ai_sdk.Relay.Classify.{classify_part, merge_scope}
use go_temporal_ai_sdk.Relay.State.{
  Relay, new_relay, enabled, snapshot_due, base_event, handle_error,
}
use go_temporal_ai_sdk.Relay.Preview.{attempt_key, preview_ref_for, take_part}
use go_temporal_ai_sdk.Relay.Accept.{accept, ensure_preview, accept_into, checkpoint}
use go_temporal_ai_sdk.Relay.Complete.{fail, cancel, succeed, complete}
use go_temporal_ai_sdk.Relay.Rules.{Holds, Each-nil}
use go_temporal_ai_sdk.Relay.Failure.{Remembers, Reported, relay_failures_surface}
use go_temporal_ai_sdk.Relay.Freshness.{Fresh, accept-Fresh}
use go_temporal_ai_sdk.Relay.Delivery.{Sound, accept-Sound, complete-Sound}
use go_temporal_ai_sdk.Tests.Fixtures.{
  Log, AllValid, recording-Respects, noon-Ticks, relay, hello, chat,
}

pub relay-Sound : Sound AllValid none relay []
unfolding new_relay
relay-Sound = record {
  connected = recording-Respects;
  clocked = noon-Ticks;
  streaming = refl;
  step_ok = refl;
  refs_ok = Each-nil _;
  world = tt;
}

accept-Sound_example : Holds (Sound AllValid) (accept relay hello [])
accept-Sound_example = accept-Sound AllValid relay hello [] refl relay-Sound

complete-Sound_example :
    Holds (Sound AllValid) (succeed relay [])
    × Holds (Sound AllValid) (fail relay "" [])
    × Holds (Sound AllValid) (cancel relay "" [])
complete-Sound_example = complete-Sound AllValid relay "" [] relay-Sound

relay-Fresh : Fresh 2 100 (omega arith) (omega arith) none relay []
unfolding new_relay
relay-Fresh = record {
  bounded = record { chunk_bound = refl; char_bound = refl };
  states_ok = Each-nil _;
  states_fresh = λ _ _. Each-nil _;
}

accept-Fresh_example : Holds (Fresh 2 100 (omega arith) (omega arith)) (accept relay hello [])
accept-Fresh_example = accept-Fresh 2 100 (omega arith) (omega arith) relay hello [] relay-Fresh

-- A connector that cannot publish.
abbrev unavailable : Err
unavailable = Err.external false "publisher unavailable"

abbrev unpublishing : Connector (List Err)
unpublishing = record noop_connector { publish_update = λ _ w. (some unavailable, unavailable ∷ w) }

unpublishing-Remembers : Remembers (λ w. w) unpublishing
unpublishing-Remembers = record {
  begins = λ _ _. refl;
  checkpoints = λ _ _. refl;
  ends = λ _ _. refl;
  publishes = λ _ _. refl;
}

abbrev lossy : Relay (List Err)
lossy = new_relay (λ w. (pos 1200, w)) (some unpublishing) chat none

relay_failures_surface_example :
    Holds (Reported (λ w. w) lossy.options) (accept lossy hello [])
    × Holds (Reported (λ w. w) lossy.options) (complete lossy "failed" "stopped" [])
unfolding new_relay
relay_failures_surface_example =
    relay_failures_surface (λ w. w) lossy hello "failed" "stopped" [] unpublishing-Remembers
      (λ _. refl) refl refl

-- The best-effort policy does not hide that the publisher fails.
publisher_error : (accept lossy hello []).0 ≡ some unavailable
unfolding accept enabled new_relay classify_part ensure_preview lookup accept_into take_part ◌+ℤ◌
    preview_ref_for insert attempt_key merge_scope base_event handle_error
publisher_error = refl

-- Two chunks are due for a checkpoint under a bound of two.
two_chunks : Relay Log × Log
two_chunks =
    let (e, r, w) = accept relay hello [] in let (e', r', w') = accept r hello w in (r', w')

types : Log → List String
types = map (λ e. (event_base e).type)

two_chunks_events :
    types two_chunks.1
    ≡ "preview-snapshot" ∷ "preview-chunk" ∷ "preview-chunk" ∷ "preview-begin" ∷ []
unfolding types two_chunks accept enabled new_relay classify_part ensure_preview lookup accept_into
    snapshot_due ◌-ℤ◌ take_part ◌+ℤ◌ preview_ref_for insert attempt_key merge_scope checkpoint
    base_event
two_chunks_events = refl
