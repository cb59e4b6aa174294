-- ===== src/Redis/Preview.antt =====
-- The preview half of connectors/redis-dynamodb/connector.go: putPreview, markPreviewAccepted,
-- validateAcceptedPreviewTarget, and the helpers for keys and items.
use go_temporal_ai_sdk.Prelude.{
  ℤ, ◌+ℤ◌, ltb_ℤ, String, Bool, false, not, ◌&&◌, ◌||◌, Option, none, some, [], ◌∷◌, ◌==◌, join,
  insert, if◌then◌else◌,
}
use go_temporal_ai_sdk.Updates.Types.{Lane, Snapshot, Scope, RecordUpsertEvent, protocol_version}
use go_temporal_ai_sdk.Updates.Errors.{
  preview_target_conflict, preview_lane_conflict, accepted_target_conflict, stream_id_required,
}
use go_temporal_ai_sdk.Redis.Options.{
  Options, ttl, preview_entity_type, preview_stream_key_name, preview_updated_at_key_name,
  partition_key_name, sort_key_name, state_sort_key, channel_prefix, stream_prefix,
}
use go_temporal_ai_sdk.Redis.Item.{
  Item, str, num, snapshot, scope, manifest, string_field, int_field, clean_map,
}
use go_temporal_ai_sdk.Redis.Prog.{
  Key, StreamRef, Condition, not_exists, exists, less, equals, both, either, Written, stored,
  condition_failed, failed, Time, Prog, resolve_stream, get_item, put_item, update_item, time_now,
  return, raise, give, ◌>>=◌,
}

abbrev pub stable_key : String → ℤ → Key
stable_key id sort = record { id = id; sort = sort }

-- `for name, value := range attributes { item[name] = value }`
abbrev pub insert_all : Item → Item → Item
insert_all [] item = item
insert_all ((k, v) ∷ rest) item = insert_all rest (insert k v item)

-- `attribute_not_exists(#sequence) OR (#sequence < :sequence AND #status = :active)
--  OR (#sequence = :sequence AND #status = :status)`
abbrev pub preview_condition : ℤ → String → Condition
preview_condition sequence status = either (not_exists "sequence") (
    either (both (less "sequence" (num sequence)) (equals "status" (str "active")))
      (both (equals "sequence" (num sequence)) (equals "status" (str status))))

-- What putPreview is called with.
pub record PreviewWrite : Type 0 where
  pub stream_id : String
  pub attempt_id : String
  pub target_record_id : String
  pub lane : Lane
  pub sequence : ℤ
  pub status : String
  pub contents : Snapshot
  pub within : Scope
  pub updated_at : ℤ

-- A write whose failed condition is no error.
abbrev pub unless_condition_failed : Written → Prog (Unit {0})
unless_condition_failed stored = return tt
unless_condition_failed condition_failed = return tt
unless_condition_failed (failed e) = raise e

abbrev pub greater : Option ℤ → ℤ → Bool
greater none n = false
greater (some m) n = ltb_ℤ n m

module _ (o : Options) where
  unfoldable pub resolve : String → Prog StreamRef
  resolve id =
      if id == ""
      then raise stream_id_required
      else if o.has_resolver
      then resolve_stream id give
      else return (record {
        channel = join (channel_prefix o ∷ id ∷ []);
        redis_stream = join (stream_prefix o ∷ id ∷ []);
        replay_attributes = ("streamId", str id) ∷ [];
      })

  unfoldable pub base_stable_item : StreamRef → Key → ℤ → Item
  base_stable_item ref key updated_at = insert_all ref.replay_attributes (
      insert (sort_key_name o) (num key.sort) (
        insert (partition_key_name o) (str key.id)
          (("createdAt", num updated_at) ∷ ("updatedAt", num updated_at) ∷ [])))

  abbrev pub preview_key : String → String → Key
  preview_key stream_id attempt_id =
      stable_key (join ("preview#" ∷ stream_id ∷ "#" ∷ attempt_id ∷ [])) (state_sort_key o)

  unfoldable pub preview_item : StreamRef → Key → PreviewWrite → Time → Item
  unfolding base_stable_item
  preview_item ref key p now = insert "expiresAt" (num (now.unix +ℤ ttl o)) (
      insert (preview_updated_at_key_name o) (num p.updated_at) (
        insert (preview_stream_key_name o) (str p.stream_id) (
          insert "preview"
            (manifest (record {
              attempt_id = p.attempt_id;
              target_record_id = p.target_record_id;
              lane = p.lane;
              status = p.status;
              sequence = p.sequence;
              snapshot = p.contents;
              scope = p.within;
              updated_at = p.updated_at;
            }))
            (insert "scope" (scope p.within) (
              insert "snapshot" (snapshot p.contents) (
                insert "sequence" (num p.sequence) (
                  insert "status" (str p.status) (
                    insert "lane" (str p.lane) (
                      insert "targetRecordId" (str p.target_record_id) (
                        insert "attemptId" (str p.attempt_id) (
                          insert "streamId" (str p.stream_id) (
                            insert "protocolVersion" (num protocol_version) (
                              insert "entityType" (str (preview_entity_type o))
                                (base_stable_item ref key p.updated_at))))))))))))))

  -- putPreview once the current item is read.
  unfoldable pub put_preview_over : StreamRef → Key → PreviewWrite → Option Item → Prog (Unit {0})
  unfolding preview_item
  put_preview_over ref key p existing =
      let target = string_field existing "targetRecordId" in
      let current_lane = string_field existing "lane" in
      let current_status = string_field existing "status" in
      let write = time_now λ now.
        put_item key (clean_map (preview_item ref key p now))
          (preview_condition p.sequence p.status) unless_condition_failed in
      if not (target == "") && not (target == p.target_record_id)
      then raise (preview_target_conflict p.attempt_id target p.target_record_id)
      else if not (current_lane == "") && not (current_lane == p.lane)
      then raise (preview_lane_conflict p.attempt_id current_lane p.lane)
      else if greater (int_field existing "sequence") p.sequence
      then return tt
      else if current_status == "accepted"
          || current_status == "failed"
          || current_status == "canceled"
      then return tt
      else write

  unfoldable pub put_preview : PreviewWrite → Prog (Unit {0})
  unfolding resolve put_preview_over ◌>>=◌
  put_preview p = do
    ref ← resolve p.stream_id
    let key = preview_key p.stream_id p.attempt_id
    existing ← get_item key give
    put_preview_over ref key p existing

  -- `SET #status = :status, updatedAt = :updatedAt, expiresAt = :expiresAt`
  abbrev pub acceptance : Time → Time → Item
  acceptance now later =
      ("status", str "accepted")
      ∷ ("updatedAt", num now.unix_milli)
      ∷ ("expiresAt", num (later.unix +ℤ ttl o))
      ∷ []

  unfoldable pub mark_preview_accepted : String → String → Prog (Unit {0})
  mark_preview_accepted stream_id attempt_id = time_now λ now. time_now λ later.
      update_item (preview_key stream_id attempt_id) (acceptance now later)
        (exists (partition_key_name o)) unless_condition_failed

  unfoldable pub check_target : RecordUpsertEvent → Option Item → Prog (Unit {0})
  check_target e existing =
      let target = string_field existing "targetRecordId" in
      if not (target == "") && not (target == e.upserted.record_id)
      then raise (accepted_target_conflict e.accepted_attempt_id target e.upserted.record_id)
      else return tt

  unfoldable pub validate_accepted_preview_target : RecordUpsertEvent → Prog (Unit {0})
  unfolding check_target ◌>>=◌
  validate_accepted_preview_target e =
      if e.accepted_attempt_id == ""
      then return tt
      else get_item (preview_key e.base.stream_id e.accepted_attempt_id) give >>= check_target e
