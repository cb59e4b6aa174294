-- ===== src/Tests/ActivityTests.antt =====
-- The theorems of Activities at concrete answers.
use go_temporal_ai_sdk.Prelude.{Option, none, some, List, [], ◌∷◌, ◌++◌, String, ◌≡◌, refl, pos}
use go_temporal_ai_sdk.Updates.Types.{
  Value, null, UpdateEvent, preview_begin, preview_chunk, preview_snapshot, preview_end,
  record_upsert, stream_end,
}
use go_temporal_ai_sdk.Updates.Errors.{Err}
use go_temporal_ai_sdk.Updates.Connector.{Connector, noop_connector}
use go_temporal_ai_sdk.Relay.Part.{Options}
use go_temporal_ai_sdk.Relay.Classify.{Chunk}
use go_temporal_ai_sdk.Relay.State.{Relay, new_relay}
use go_temporal_ai_sdk.Relay.Rules.{Each-nil}
use go_temporal_ai_sdk.Relay.Publishing.{Publishes, Live}
use go_temporal_ai_sdk.Activities.Nonstream.{
  GenerateResult, GenerateObjectResult, text_part, tool_call_part, relay_generate_result,
  relay_generate_object_result,
}
use go_temporal_ai_sdk.Activities.Nonstream.Delivery.{
  contents_chunks, delta_chunk, object_chunk, finish_chunk, relay_generate_result-chunks,
  relay_generate_object_result-chunks,
}
use go_temporal_ai_sdk.Tests.Fixtures.{chat}

abbrev unmarshallable : Value → Option String
unmarshallable v = none

abbrev answer : GenerateResult
answer = record {
  content =
      text_part "hello" ∷ tool_call_part "call-1" "search" (some null) "{}" ∷ text_part "" ∷ [];
  finish_reason_unified = "stop";
  finish_reason = null;
}

abbrev object_answer : GenerateObjectResult
object_answer = record {
  reasoning = "because";
  text = "{}";
  object = some null;
  finish_reason_unified = "stop";
  finish_reason = null;
}

-- A publisher that keeps the chunks that it is given.
abbrev publish : UpdateEvent → List Chunk → Option Err × List Chunk
publish (preview_chunk e) seen = (none, seen ++ e.chunk ∷ [])
publish (preview_begin e) seen = (none, seen)
publish (preview_snapshot e) seen = (none, seen)
publish (preview_end e) seen = (none, seen)
publish (record_upsert e) seen = (none, seen)
publish (stream_end e) seen = (none, seen)

abbrev publishing : Connector (List Chunk)
publishing = record noop_connector { publish_update = publish }

publishing-Publishes : Publishes (λ seen. seen) publishing
publishing-Publishes = record {
  begins = λ _ _. (refl, refl);
  checkpoints = λ _ _. (refl, refl);
  publishes = λ _ _. (refl, refl);
}

abbrev relay_in : Options → Relay (List Chunk)
relay_in o = new_relay (λ seen. (pos 1200, seen)) (some publishing) o none

abbrev object_chat : Options
object_chat = record chat { lane = "object" }

started : Live (λ seen. seen) (relay_in chat).options [] none (relay_in chat) []
unfolding new_relay
started = record {
  quiet = refl;
  connected = publishing-Publishes;
  clocked = λ _. refl;
  optioned = refl;
  running = refl;
  open_all = Each-nil _;
  shown = refl;
}

object_started :
    Live (λ seen. seen) (relay_in object_chat).options [] none (relay_in object_chat) []
unfolding new_relay
object_started = record {
  quiet = refl;
  connected = publishing-Publishes;
  clocked = λ _. refl;
  optioned = refl;
  running = refl;
  open_all = Each-nil _;
  shown = refl;
}

relay_generate_result-chunks_example :
    ((relay_generate_result unmarshallable (relay_in chat) answer []).0 ≡ none)
    × ((relay_generate_result unmarshallable (relay_in chat) answer []).2
        ≡ contents_chunks unmarshallable answer.content ++ finish_chunk "stop" null ∷ [])
unfolding new_relay
relay_generate_result-chunks_example =
    relay_generate_result-chunks (λ seen. seen) (relay_in chat).options refl refl unmarshallable
      refl answer [] (relay_in chat) [] started

relay_generate_object_result-chunks_example :
    ((relay_generate_object_result (relay_in object_chat) object_answer []).0 ≡ none)
    × ((relay_generate_object_result (relay_in object_chat) object_answer []).2
        ≡ delta_chunk "reasoning-delta" object_answer.reasoning
          ++ object_chunk object_answer.object
          ++ finish_chunk "stop" null ∷ [])
unfolding new_relay
relay_generate_object_result-chunks_example =
    relay_generate_object_result-chunks (λ seen. seen) (relay_in object_chat).options refl refl refl
      object_answer [] (relay_in object_chat) [] object_started
