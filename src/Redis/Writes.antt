-- ===== src/Redis/Writes.antt =====
-- The writes of connectors/redis-dynamodb/connector.go, and that putPreview, markPreviewAccepted,
-- validateAcceptedPreviewTarget and putCurrentRecord make no other.
use go_temporal_ai_sdk.Prelude.{
  ℤ, String, ◌==◌, not, ◌&&◌, ◌||◌, if_cases, Option, none, some, ltb_ℤ, eqb_ℤ,
}
use go_temporal_ai_sdk.Updates.Types.{RecordUpsertEvent, UpdateEvent, event_base}
use go_temporal_ai_sdk.Redis.Options.{Options, partition_key_name}
use go_temporal_ai_sdk.Redis.Item.{Item, clean_map, string_field, int_field}
use go_temporal_ai_sdk.Redis.Prog.{
  get_item, give, Result, Key, StreamRef, always, not_exists, exists, Written, stored,
  condition_failed, failed, Time, Prog, Encoding,
}
use go_temporal_ai_sdk.Redis.Preview.{
  PreviewWrite, preview_key, preview_item, preview_condition, acceptance, greater, resolve,
  unless_condition_failed, put_preview_over, put_preview, mark_preview_accepted, check_target,
  validate_accepted_preview_target,
}
use go_temporal_ai_sdk.Redis.Records.{
  record_key, record_item, record_condition, same_write, or_zero, record_reread, record_written,
  write_record, put_record_over, put_current_record,
}
use go_temporal_ai_sdk.Redis.Events.{event_key, terminal_key, event_item, terminal_item}
use go_temporal_ai_sdk.Redis.Table.{Conditions}
use go_temporal_ai_sdk.Redis.Guard.{PutOk, UpdateOk, Guarded, bind-Guarded}

module _ (o : Options) (enc : Encoding) (dynamo : Conditions (partition_key_name o))
    (Le : Key → Option Item → Option Item → Type 0) where
  pub record WritesOk : Type 0 where
    pub previews :
        (ref : StreamRef) (p : PreviewWrite) (now : Time)
        → let key = preview_key o p.stream_id p.attempt_id in
          PutOk dynamo Le key
            (clean_map (preview_item o ref key p now))
            (preview_condition p.sequence p.status)
    pub acceptances :
        (stream_id attempt_id : String) (now later : Time)
        → UpdateOk dynamo Le
            (preview_key o stream_id attempt_id)
            (acceptance o now later)
            (exists (partition_key_name o))
    pub records :
        (ref : StreamRef) (e : RecordUpsertEvent) (hash : String)
        → let key = record_key o enc e.base.stream_id e.upserted.record_id in
          PutOk dynamo Le key
            (clean_map (record_item o enc ref key e hash))
            (record_condition e.upserted.record_version e.base.event_id hash)
    pub events :
        (ref : StreamRef) (e : UpdateEvent) (cursor : String) (now : Time)
        → let key = event_key o (event_base e).stream_id (event_base e).event_id in
          PutOk dynamo Le key
            (clean_map (event_item enc o ref key e cursor now))
            (not_exists (partition_key_name o))
    pub terminals :
        (ref : StreamRef) (e : UpdateEvent)
        → let key = terminal_key o (event_base e).stream_id in
          PutOk dynamo Le key (clean_map (terminal_item o ref key e)) always

  module _ (writes : WritesOk) where
    pub resolve-Guarded : (id : String) → Guarded dynamo Le (resolve o id)
    unfolding resolve
    resolve-Guarded id =
        if_cases (Guarded dynamo Le) (id == "") (λ _. tt)
          (λ _. if_cases (Guarded dynamo Le) o.has_resolver (λ _ a. done_ok a) (λ _. tt))
      where
        done_ok : (a : Result StreamRef) → Guarded dynamo Le (Prog.done a)
        done_ok a = tt

    quiet : {A : Type 0} (a : Result A) → Guarded dynamo Le (Prog.done a)
    quiet a = tt

    unless_failed : (a : Written) → Guarded dynamo Le (unless_condition_failed a)
    unless_failed stored = tt
    unless_failed condition_failed = tt
    unless_failed (failed e) = tt

    put_preview_over-Guarded :
        (ref : StreamRef) (p : PreviewWrite) (existing : Option Item)
        → Guarded dynamo Le
            (put_preview_over o ref (preview_key o p.stream_id p.attempt_id) p existing)
    unfolding put_preview_over
    put_preview_over-Guarded ref p existing =
        if_cases (Guarded dynamo Le)
          (not (string_field existing "targetRecordId" == "")
            && not (string_field existing "targetRecordId" == p.target_record_id))
          (λ _. tt)
          (λ _.
            if_cases (Guarded dynamo Le)
              (not (string_field existing "lane" == "")
                && not (string_field existing "lane" == p.lane))
              (λ _. tt)
              (λ _.
                if_cases (Guarded dynamo Le) (greater (int_field existing "sequence") p.sequence)
                  (λ _. tt)
                  (λ _.
                    if_cases (Guarded dynamo Le)
                      (string_field existing "status" == "accepted"
                        || string_field existing "status" == "failed"
                        || string_field existing "status" == "canceled")
                      (λ _. tt) (λ _ now. (writes.previews ref p now, unless_failed)))))

    pub put_preview-Guarded : (p : PreviewWrite) → Guarded dynamo Le (put_preview o p)
    unfolding put_preview
    put_preview-Guarded p =
        bind-Guarded dynamo Le (resolve o p.stream_id) _ (resolve-Guarded p.stream_id) (λ ref.
          bind-Guarded dynamo Le (get_item (preview_key o p.stream_id p.attempt_id) give) _ quiet
            (put_preview_over-Guarded ref p))

    pub mark_preview_accepted-Guarded :
        (stream_id attempt_id : String)
        → Guarded dynamo Le (mark_preview_accepted o stream_id attempt_id)
    unfolding mark_preview_accepted
    mark_preview_accepted-Guarded stream_id attempt_id now later =
        (writes.acceptances stream_id attempt_id now later, unless_failed)

    pub validate_target-Guarded :
        (e : RecordUpsertEvent) → Guarded dynamo Le (validate_accepted_preview_target o e)
    unfolding validate_accepted_preview_target check_target
    validate_target-Guarded e =
        if_cases (Guarded dynamo Le) (e.accepted_attempt_id == "") (λ _. tt)
          (λ _.
            bind-Guarded dynamo Le
              (get_item (preview_key o e.base.stream_id e.accepted_attempt_id) give) _ quiet
              (λ i.
                if_cases (Guarded dynamo Le)
                  (not (string_field i "targetRecordId" == "")
                    && not (string_field i "targetRecordId" == e.upserted.record_id))
                  (λ _. tt) (λ _. tt)))

    record_reread-Guarded :
        (e : RecordUpsertEvent) (hash : String) (latest : Option Item)
        → Guarded dynamo Le (record_reread e hash latest)
    unfolding record_reread
    record_reread-Guarded e hash latest =
        let version = or_zero (int_field latest "recordVersion") in
        if_cases (Guarded dynamo Le) (ltb_ℤ e.upserted.record_version version) (λ _. tt)
          (λ _.
            if_cases (Guarded dynamo Le)
              (eqb_ℤ version e.upserted.record_version && same_write e hash latest) (λ _. tt)
              (λ _. tt))

    record_written-Guarded :
        (key : Key) (e : RecordUpsertEvent) (hash : String) (a : Written)
        → Guarded dynamo Le (record_written key e hash a)
    record_written-Guarded key e hash stored = tt
    record_written-Guarded key e hash (failed x) = tt
    record_written-Guarded key e hash condition_failed =
        bind-Guarded dynamo Le (get_item key give) _ quiet (record_reread-Guarded e hash)

    put_record_over-Guarded :
        (ref : StreamRef) (e : RecordUpsertEvent) (hash : String) (existing : Option Item)
        (version : Option ℤ)
        → let key = record_key o enc e.base.stream_id e.upserted.record_id in
          Guarded dynamo Le (put_record_over o enc ref key e hash existing version)
    unfolding put_record_over write_record
    put_record_over-Guarded ref e hash existing none =
        (writes.records ref e hash, record_written-Guarded _ e hash)
    put_record_over-Guarded ref e hash existing (some current) =
        if_cases (Guarded dynamo Le) (ltb_ℤ e.upserted.record_version current) (λ _. tt)
          (λ _.
            if_cases (Guarded dynamo Le) (eqb_ℤ current e.upserted.record_version)
              (λ _. if_cases (Guarded dynamo Le) (same_write e hash existing) (λ _. tt) (λ _. tt))
              (λ _. (writes.records ref e hash, record_written-Guarded _ e hash)))

    pub put_current_record-Guarded :
        (e : RecordUpsertEvent) → Guarded dynamo Le (put_current_record o enc e)
    unfolding put_current_record
    put_current_record-Guarded e =
        bind-Guarded dynamo Le (resolve o e.base.stream_id) _ (resolve-Guarded e.base.stream_id)
          (λ ref.
            bind-Guarded dynamo Le
              (get_item (record_key o enc e.base.stream_id e.upserted.record_id) give) _ quiet
              (λ i. put_record_over-Guarded ref e _ i _))
