-- ===== src/Redis/Methods.antt =====
-- That the methods of connectors/redis-dynamodb/connector.go make no writes but those of Redis/Writes:
-- what goes forward under these goes forward under every method.
use go_temporal_ai_sdk.Prelude.{String, ◌==◌, not, ◌||◌, Bool, if_cases, Option, none, some}
use go_temporal_ai_sdk.Updates.Types.{
  RecordUpsertEvent, StreamEndEvent, UpdateEvent, preview_begin, preview_chunk, preview_snapshot,
  preview_end, record_upsert, stream_end, event_base,
}
use go_temporal_ai_sdk.Updates.Errors.{Err}
use go_temporal_ai_sdk.Updates.Validation.{validate_event}
use go_temporal_ai_sdk.Redis.Options.{Options, partition_key_name, mode, mode_stream, mode_both}
use go_temporal_ai_sdk.Redis.Item.{Item, string_field}
use go_temporal_ai_sdk.Redis.Prog.{
  return_error, get_item, give, Result, Key, StreamRef, Written, stored, condition_failed, failed,
  Prog, Encoding, ◌>>◌,
}
use go_temporal_ai_sdk.Redis.Preview.{
  PreviewWrite, resolve, put_preview, validate_accepted_preview_target,
}
use go_temporal_ai_sdk.Redis.Records.{put_current_record}
use go_temporal_ai_sdk.Redis.Events.{
  event_key, event_hash, stored_event_hash, adopt_event, event_reread, event_written, write_event,
  persist_event_over, persist_durable_event, terminal_written, put_terminal_item, put_terminal,
}
use go_temporal_ai_sdk.Redis.Connector.{
  when_valid, then_xadd, publish_by_mode, publish_update, begin_preview, checkpoint_preview,
  end_preview, accept_preview, upsert_current, upsert_record, end_stream,
}
use go_temporal_ai_sdk.Redis.Table.{
  Conditions, Request, begin, snapshot, end, upsert, end_of_stream, publish, method,
}
use go_temporal_ai_sdk.Redis.Guard.{Guarded, bind-Guarded}
use go_temporal_ai_sdk.Redis.Writes.{
  WritesOk, resolve-Guarded, put_preview-Guarded, mark_preview_accepted-Guarded,
  validate_target-Guarded, put_current_record-Guarded,
}

module _ (o : Options) (enc : Encoding) (dynamo : Conditions (partition_key_name o))
    (Le : Key → Option Item → Option Item → Type 0) where
  module _ (writes : WritesOk o enc dynamo Le) where
    quiet : {A : Type 0} (a : Result A) → Guarded dynamo Le (Prog.done a)
    quiet a = tt

    adopt_event-Guarded :
        (e : UpdateEvent) (existing : Option Item) (cursor : String)
        → Guarded dynamo Le (adopt_event enc o e existing cursor)
    unfolding adopt_event
    adopt_event-Guarded e existing cursor =
        if_cases (Guarded dynamo Le)
          (stored_event_hash enc existing == ""
            || not (stored_event_hash enc existing == event_hash enc e))
          (λ _. tt) (λ _. tt)

    event_written-Guarded :
        (key : Key) (e : UpdateEvent) (cursor : String) (a : Written)
        → Guarded dynamo Le (event_written enc o key e cursor a)
    unfolding event_reread
    event_written-Guarded key e cursor stored = tt
    event_written-Guarded key e cursor (failed x) = tt
    event_written-Guarded key e cursor condition_failed =
        bind-Guarded dynamo Le (get_item key give) _ quiet (λ i.
          if_cases (Guarded dynamo Le) (string_field i "cursor" == "") (λ _. tt)
            (λ _. adopt_event-Guarded e i _))

    persist_event-Guarded : (e : UpdateEvent) → Guarded dynamo Le (persist_durable_event enc o e)
    unfolding persist_durable_event persist_event_over write_event
    persist_event-Guarded e =
        bind-Guarded dynamo Le (resolve o (event_base e).stream_id) _
          (resolve-Guarded o enc dynamo Le writes (event_base e).stream_id)
          (λ ref.
            bind-Guarded dynamo Le
              (get_item (event_key o (event_base e).stream_id (event_base e).event_id) give) _ quiet
              (λ i.
                if_cases (Guarded dynamo Le) (string_field i "cursor" == "")
                  (λ _ cursor now.
                    (writes.events ref e cursor now, event_written-Guarded _ e cursor))
                  (λ _. adopt_event-Guarded e i _)))

    terminal_written-Guarded : (a : Written) → Guarded dynamo Le (terminal_written o a)
    terminal_written-Guarded stored = tt
    terminal_written-Guarded condition_failed = tt
    terminal_written-Guarded (failed e) = tt

    put_terminal-Guarded : (e : UpdateEvent) → Guarded dynamo Le (put_terminal o e)
    unfolding put_terminal put_terminal_item
    put_terminal-Guarded (stream_end e) =
        bind-Guarded dynamo Le (resolve o e.base.stream_id) _
          (resolve-Guarded o enc dynamo Le writes e.base.stream_id)
          (λ ref. (writes.terminals ref (stream_end e), terminal_written-Guarded))
    put_terminal-Guarded (record_upsert e) = tt
    put_terminal-Guarded (preview_begin e) = tt
    put_terminal-Guarded (preview_chunk e) = tt
    put_terminal-Guarded (preview_snapshot e) = tt
    put_terminal-Guarded (preview_end e) = tt

    answered : (a : Option Err) → Guarded dynamo Le (return_error a)
    answered none = tt
    answered (some e) = tt

    then_xadd-Guarded :
        (ref : StreamRef) (e : UpdateEvent) (a : Option Err)
        → Guarded dynamo Le (then_xadd o ref e a)
    then_xadd-Guarded ref e none = answered
    then_xadd-Guarded ref e (some x) = tt

    publish_by_mode-Guarded :
        (e : UpdateEvent) (ref : StreamRef) → Guarded dynamo Le (publish_by_mode o e ref)
    unfolding publish_by_mode
    publish_by_mode-Guarded e ref =
        if_cases (Guarded dynamo Le) (mode o == mode_stream) (λ _. answered)
          (λ _.
            if_cases (Guarded dynamo Le) (mode o == mode_both) (λ _. then_xadd-Guarded ref e)
              (λ _. answered))

    when_valid-Guarded :
        (v : Option Err) (p : Prog (Unit {0}))
        → Guarded dynamo Le p
        → Guarded dynamo Le (when_valid o v p)
    when_valid-Guarded none p g = g
    when_valid-Guarded (some e) p g = tt

    publish_update-Guarded : (e : UpdateEvent) → Guarded dynamo Le (publish_update o e)
    unfolding publish_update
    publish_update-Guarded e = when_valid-Guarded (validate_event e) _ (
        if_cases (Guarded dynamo Le) o.disabled (λ _. tt)
          (λ _.
            if_cases (Guarded dynamo Le) (not o.has_redis) (λ _. tt)
              (λ _.
                bind-Guarded dynamo Le (resolve o (event_base e).stream_id) _
                  (resolve-Guarded o enc dynamo Le writes (event_base e).stream_id)
                  (publish_by_mode-Guarded e))))

    put_and_publish-Guarded :
        (p : PreviewWrite) (e : UpdateEvent)
        → Guarded dynamo Le (put_preview o p >> publish_update o e)
    unfolding ◌>>◌
    put_and_publish-Guarded p e =
        bind-Guarded dynamo Le (put_preview o p) _ (put_preview-Guarded o enc dynamo Le writes p)
          (λ _. publish_update-Guarded e)

    accept_preview-Guarded : (e : RecordUpsertEvent) → Guarded dynamo Le (accept_preview o enc e)
    unfolding accept_preview
    accept_preview-Guarded e =
        if_cases (Guarded dynamo Le) (e.accepted_attempt_id == "") (λ _. tt)
          (λ _.
            mark_preview_accepted-Guarded o enc dynamo Le writes e.base.stream_id
              e.accepted_attempt_id)

    upsert_current-Guarded :
        (e : RecordUpsertEvent) (current : Bool)
        → Guarded dynamo Le (upsert_current o enc e current)
    unfolding upsert_current ◌>>◌
    upsert_current-Guarded e current =
        if_cases (Guarded dynamo Le) current
          (λ _.
            bind-Guarded dynamo Le (persist_durable_event enc o (record_upsert e)) _
              (persist_event-Guarded (record_upsert e))
              (λ saved.
                bind-Guarded dynamo Le (accept_preview o enc e) _ (accept_preview-Guarded e)
                  (λ _. publish_update-Guarded saved)))
          (λ _. tt)

    upsert_record-Guarded : (e : RecordUpsertEvent) → Guarded dynamo Le (upsert_record o enc e)
    unfolding upsert_record ◌>>◌
    upsert_record-Guarded e = when_valid-Guarded (validate_event (record_upsert e)) _ (
        bind-Guarded dynamo Le (validate_accepted_preview_target o e) _
          (validate_target-Guarded o enc dynamo Le writes e)
          (λ _.
            bind-Guarded dynamo Le (put_current_record o enc e) _
              (put_current_record-Guarded o enc dynamo Le writes e) (upsert_current-Guarded e)))

    end_stream-Guarded : (e : StreamEndEvent) → Guarded dynamo Le (end_stream o enc e)
    unfolding end_stream ◌>>◌
    end_stream-Guarded e = when_valid-Guarded (validate_event (stream_end e)) _ (
        bind-Guarded dynamo Le (persist_durable_event enc o (stream_end e)) _
          (persist_event-Guarded (stream_end e))
          (λ saved.
            bind-Guarded dynamo Le (put_terminal o saved) _ (put_terminal-Guarded saved)
              (λ _. publish_update-Guarded saved)))

    pub method-Guarded : (r : Request) → Guarded dynamo Le (method o enc r)
    unfolding begin_preview checkpoint_preview end_preview
    method-Guarded (begin e) =
        when_valid-Guarded (validate_event (preview_begin e)) _
          (put_and_publish-Guarded _ (preview_begin e))
    method-Guarded (snapshot e) =
        when_valid-Guarded (validate_event (preview_snapshot e)) _
          (put_and_publish-Guarded _ (preview_snapshot e))
    method-Guarded (end e) =
        when_valid-Guarded (validate_event (preview_end e)) _
          (put_and_publish-Guarded _ (preview_end e))
    method-Guarded (upsert e) = upsert_record-Guarded e
    method-Guarded (end_of_stream e) = end_stream-Guarded e
    method-Guarded (publish e) = publish_update-Guarded e
