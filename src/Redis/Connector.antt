-- ===== src/Redis/Connector.antt =====
-- The methods of Connector in connectors/redis-dynamodb/connector.go. A nil *Connector is not
-- modelled: only PublishUpdate survives one.
use go_temporal_ai_sdk.Prelude.{
  pos, ltb_ℤ, String, Bool, not, Option, none, some, [], ◌==◌, if◌then◌else◌,
}
use go_temporal_ai_sdk.Updates.Types.{
  Snapshot, BaseEvent, PreviewRef, PreviewBeginEvent, PreviewSnapshotEvent, PreviewEndEvent,
  RecordUpsertEvent, StreamEndEvent, UpdateEvent, preview_begin, preview_snapshot, preview_end,
  record_upsert, stream_end, event_base,
}
use go_temporal_ai_sdk.Updates.Errors.{Err, redis_client_required}
use go_temporal_ai_sdk.Updates.Validation.{validate_event}
use go_temporal_ai_sdk.Redis.Options.{Options, mode, mode_stream, mode_both}
use go_temporal_ai_sdk.Redis.Prog.{
  StreamRef, XAddArgs, Prog, redis_publish, redis_xadd, return, raise, return_error, Encoding,
  ◌>>=◌, ◌>>◌,
}
use go_temporal_ai_sdk.Redis.Preview.{
  PreviewWrite, resolve, put_preview, mark_preview_accepted, validate_accepted_preview_target,
}
use go_temporal_ai_sdk.Redis.Records.{put_current_record}
use go_temporal_ai_sdk.Redis.Events.{persist_durable_event, put_terminal}

abbrev pub empty_snapshot : Snapshot
empty_snapshot = record { text = ""; object = none; elements = [] }

-- `snapshot := Snapshot{}; if event.Snapshot != nil { snapshot = *event.Snapshot }`
abbrev pub or_empty : Option Snapshot → Snapshot
or_empty none = empty_snapshot
or_empty (some s) = s

-- The arguments that the three preview methods give putPreview.
abbrev pub preview_write : BaseEvent → PreviewRef → String → Snapshot → PreviewWrite
preview_write base ref status contents = record {
  stream_id = base.stream_id;
  attempt_id = ref.attempt_id;
  target_record_id = ref.target_record_id;
  lane = ref.lane;
  sequence = ref.sequence;
  status = status;
  contents = contents;
  within = ref.scope;
  updated_at = base.occurred_at;
}

module _ (o : Options) where
  abbrev pub xadd_args : StreamRef → UpdateEvent → XAddArgs
  xadd_args ref e = record {
    stream = ref.redis_stream;
    event_id = (event_base e).event_id;
    cursor = (event_base e).cursor;
    stream_id = (event_base e).stream_id;
    payload = e;
    max_len = if ltb_ℤ (pos 0) o.max_stream_length then some o.max_stream_length else none;
  }

  abbrev pub xadd : StreamRef → UpdateEvent → Prog (Unit {0})
  xadd ref e = redis_xadd (xadd_args ref e) return_error

  abbrev pub then_xadd : StreamRef → UpdateEvent → Option Err → Prog (Unit {0})
  then_xadd ref e none = xadd ref e
  then_xadd ref e (some x) = raise x

  -- `switch c.options.mode()`
  unfoldable pub publish_by_mode : UpdateEvent → StreamRef → Prog (Unit {0})
  publish_by_mode e ref =
      if mode o == mode_stream
      then xadd ref e
      else if mode o == mode_both
      then redis_publish ref.channel e (then_xadd ref e)
      else redis_publish ref.channel e return_error

  -- `if err := updates.ValidateEvent(event); err != nil { return err }`
  abbrev pub when_valid : Option Err → Prog (Unit {0}) → Prog (Unit {0})
  when_valid none rest = rest
  when_valid (some x) rest = raise x

  unfoldable pub publish_update : UpdateEvent → Prog (Unit {0})
  unfolding publish_by_mode resolve ◌>>=◌
  publish_update e =
      let send = resolve o (event_base e).stream_id >>= publish_by_mode e in
      when_valid (validate_event e) (
        if o.disabled
        then return tt
        else if not o.has_redis
        then raise redis_client_required
        else send)

  unfoldable pub begin_preview : PreviewBeginEvent → Prog (Unit {0})
  unfolding put_preview publish_update ◌>>◌
  begin_preview e = when_valid (validate_event (preview_begin e)) (
      put_preview o (preview_write e.base e.ref "active" empty_snapshot)
      >> publish_update (preview_begin e))

  unfoldable pub checkpoint_preview : PreviewSnapshotEvent → Prog (Unit {0})
  unfolding put_preview publish_update ◌>>◌
  checkpoint_preview e = when_valid (validate_event (preview_snapshot e)) (
      put_preview o (preview_write e.base e.ref "active" e.snapshot)
      >> publish_update (preview_snapshot e))

  unfoldable pub end_preview : PreviewEndEvent → Prog (Unit {0})
  unfolding put_preview publish_update ◌>>◌
  end_preview e = when_valid (validate_event (preview_end e)) (
      put_preview o (preview_write e.base e.ref e.outcome (or_empty e.snapshot))
      >> publish_update (preview_end e))

  module _ (enc : Encoding) where
    -- `if event.AcceptedAttemptID != "" { ... }`
    unfoldable pub accept_preview : RecordUpsertEvent → Prog (Unit {0})
    unfolding mark_preview_accepted
    accept_preview e =
        if e.accepted_attempt_id == ""
        then return tt
        else mark_preview_accepted o e.base.stream_id e.accepted_attempt_id

    -- UpsertRecord once putCurrentRecord says whether the event is current.
    unfoldable pub upsert_current : RecordUpsertEvent → Bool → Prog (Unit {0})
    unfolding persist_durable_event accept_preview publish_update ◌>>=◌ ◌>>◌
    upsert_current e current =
        let publish = persist_durable_event enc o (record_upsert e) >>= λ saved.
        accept_preview e >> publish_update saved in
        if current then publish else return tt

    unfoldable pub upsert_record : RecordUpsertEvent → Prog (Unit {0})
    unfolding validate_accepted_preview_target put_current_record upsert_current ◌>>=◌ ◌>>◌
    upsert_record e =
        when_valid (validate_event (record_upsert e)) (
          validate_accepted_preview_target o e >> (put_current_record o enc e >>= upsert_current e))

    unfoldable pub end_stream : StreamEndEvent → Prog (Unit {0})
    unfolding persist_durable_event put_terminal publish_update ◌>>=◌ ◌>>◌
    end_stream e = when_valid (validate_event (stream_end e)) (
        persist_durable_event enc o (stream_end e) >>= λ saved.
        put_terminal o saved >> publish_update saved)
