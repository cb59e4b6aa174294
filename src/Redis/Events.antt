-- ===== src/Redis/Events.antt =====
-- The durable half of connectors/redis-dynamodb/connector.go: persistDurableEvent, which gives an
-- event its cursor once, putTerminal, and the hashes by which an event is recognised.
use go_temporal_ai_sdk.Prelude.{
  ◌+ℤ◌, String, not, ◌||◌, Option, none, some, [], ◌∷◌, ◌==◌, join, lookup, insert, if◌then◌else◌,
}
use go_temporal_ai_sdk.Updates.Types.{
  UpdateEvent, preview_begin, preview_chunk, preview_snapshot, preview_end, record_upsert,
  stream_end, event_base, protocol_version,
}
use go_temporal_ai_sdk.Updates.Errors.{
  event_conflict, event_without_cursor, invalid_terminal, conditional_check_failed,
}
use go_temporal_ai_sdk.Redis.Options.{
  Options, ttl, event_entity_type, terminal_entity_type, event_stream_key_name,
  event_cursor_key_name, partition_key_name, state_sort_key,
}
use go_temporal_ai_sdk.Redis.Item.{Attr, Item, str, num, event, string_field, clean_map}
use go_temporal_ai_sdk.Redis.Prog.{
  Key, StreamRef, always, not_exists, Written, stored, condition_failed, failed, Time, Prog,
  get_item, put_item, time_now, new_event_id, return, raise, give, Encoding, ◌>>=◌,
}
use go_temporal_ai_sdk.Redis.Preview.{stable_key, resolve, base_stable_item}

-- redisEventWithCursor; a preview event is returned as it is.
abbrev pub event_with_cursor : UpdateEvent → String → UpdateEvent
event_with_cursor (record_upsert e) cursor = record_upsert (record {
  base = record {
    version = e.base.version;
    type = e.base.type;
    event_id = e.base.event_id;
    cursor = cursor;
    stream_id = e.base.stream_id;
    occurred_at = e.base.occurred_at;
  };
  accepted_attempt_id = e.accepted_attempt_id;
  upserted = e.upserted;
})
event_with_cursor (stream_end e) cursor = stream_end (record {
  base = record {
    version = e.base.version;
    type = e.base.type;
    event_id = e.base.event_id;
    cursor = cursor;
    stream_id = e.base.stream_id;
    occurred_at = e.base.occurred_at;
  };
  outcome = e.outcome;
  error = e.error;
})
event_with_cursor e cursor = e

abbrev pub event_key : Options → String → String → Key
event_key o stream_id event_id =
    stable_key (join ("event#" ∷ stream_id ∷ "#" ∷ event_id ∷ [])) (state_sort_key o)

abbrev pub terminal_key : Options → String → Key
terminal_key o stream_id = stable_key (join ("terminal#" ∷ stream_id ∷ [])) (state_sort_key o)

module _ (enc : Encoding) where
  abbrev pub event_hash : UpdateEvent → String
  event_hash e = enc.sha256_hex (enc.event_payload (event_with_cursor e ""))

  -- The hash of an event as it is read back, for an item that was stored without one.
  abbrev event_attribute_hash : Option Attr → String
  event_attribute_hash (some (event e)) = enc.sha256_hex (enc.stored_payload e)
  event_attribute_hash _ = ""

  abbrev attribute : Option Item → String → Option Attr
  attribute none key = none
  attribute (some item) key = lookup key item

  unfoldable pub stored_event_hash : Option Item → String
  stored_event_hash item =
      let hash = string_field item "eventHash" in
      if hash == "" then event_attribute_hash (attribute item "event") else hash

  module _ (o : Options) where
    -- A stored event with the same hash lends its cursor; another is a conflict.
    unfoldable pub adopt_event : UpdateEvent → Option Item → String → Prog UpdateEvent
    unfolding stored_event_hash
    adopt_event e existing cursor =
        let hash = stored_event_hash existing in
        if hash == "" || not (hash == event_hash e)
        then raise (event_conflict (event_base e).event_id)
        else return (event_with_cursor e cursor)

    unfoldable pub event_reread : UpdateEvent → Option Item → Prog UpdateEvent
    unfolding adopt_event
    event_reread e existing =
        let cursor = string_field existing "cursor" in
        if cursor == ""
        then raise (event_without_cursor (event_base e).event_id)
        else adopt_event e existing cursor

    abbrev pub event_written : Key → UpdateEvent → String → Written → Prog UpdateEvent
    event_written key e cursor stored = return (event_with_cursor e cursor)
    event_written key e cursor (failed x) = raise x
    event_written key e cursor condition_failed = get_item key give >>= event_reread e

    unfoldable pub event_item : StreamRef → Key → UpdateEvent → String → Time → Item
    unfolding base_stable_item
    event_item ref key e cursor now =
        let base = event_base e in
        let saved = event_with_cursor e cursor in
        insert "expiresAt" (num (now.unix +ℤ ttl o)) (
          insert (event_cursor_key_name o) (str cursor) (
            insert (event_stream_key_name o) (str base.stream_id) (
              insert "updateEvent" (event saved) (
                insert "event" (event saved) (
                  insert "cursor" (str cursor) (
                    insert "eventHash" (str (event_hash e)) (
                      insert "eventId" (str base.event_id) (
                        insert "streamId" (str base.stream_id) (
                          insert "protocolVersion" (num protocol_version) (
                            insert "entityType" (str (event_entity_type o))
                              (base_stable_item o ref key base.occurred_at)))))))))))

    unfoldable pub write_event : StreamRef → Key → UpdateEvent → Prog UpdateEvent
    unfolding event_item event_reread ◌>>=◌
    write_event ref key e = new_event_id λ cursor. time_now λ now.
        put_item key (clean_map (event_item ref key e cursor now))
          (not_exists (partition_key_name o)) (event_written key e cursor)

    -- persistDurableEvent once the current item is read.
    unfoldable pub persist_event_over :
        StreamRef → Key → UpdateEvent → Option Item → Prog UpdateEvent
    unfolding adopt_event write_event
    persist_event_over ref key e existing =
        let cursor = string_field existing "cursor" in
        if cursor == "" then write_event ref key e else adopt_event e existing cursor

    unfoldable pub persist_durable_event : UpdateEvent → Prog UpdateEvent
    unfolding resolve persist_event_over ◌>>=◌
    persist_durable_event e = do
      ref ← resolve o (event_base e).stream_id
      let key = event_key o (event_base e).stream_id (event_base e).event_id
      existing ← get_item key give
      persist_event_over ref key e existing

module _ (o : Options) where
  abbrev pub terminal_written : Written → Prog (Unit {0})
  terminal_written stored = return tt
  terminal_written condition_failed = raise conditional_check_failed
  terminal_written (failed x) = raise x

  unfoldable pub terminal_item : StreamRef → Key → UpdateEvent → Item
  unfolding base_stable_item
  terminal_item ref key e = insert "terminal" (event e) (
      insert "streamId" (str (event_base e).stream_id) (
        insert "protocolVersion" (num protocol_version) (
          insert "entityType" (str (terminal_entity_type o))
            (base_stable_item o ref key (event_base e).occurred_at))))

  unfoldable pub put_terminal_item : UpdateEvent → StreamRef → Prog (Unit {0})
  unfolding terminal_item
  put_terminal_item e ref =
      let key = terminal_key o (event_base e).stream_id in
      put_item key (clean_map (terminal_item ref key e)) always terminal_written

  unfoldable pub put_terminal : UpdateEvent → Prog (Unit {0})
  unfolding resolve ◌>>=◌ put_terminal_item
  put_terminal (stream_end e) = resolve o e.base.stream_id >>= put_terminal_item (stream_end e)
  put_terminal (record_upsert e) = raise (invalid_terminal "RecordUpsertEvent")
  put_terminal (preview_begin e) = raise (invalid_terminal "PreviewBeginEvent")
  put_terminal (preview_chunk e) = raise (invalid_terminal "PreviewChunkEvent")
  put_terminal (preview_snapshot e) = raise (invalid_terminal "PreviewSnapshotEvent")
  put_terminal (preview_end e) = raise (invalid_terminal "PreviewEndEvent")
