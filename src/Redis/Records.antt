-- ===== src/Redis/Records.antt =====
-- putCurrentRecord of connectors/redis-dynamodb/connector.go: the current version of a record.
use go_temporal_ai_sdk.Prelude.{
  ℤ, pos, ltb_ℤ, eqb_ℤ, String, Bool, true, false, ◌&&◌, Option, none, some, [], ◌∷◌, ◌==◌, join,
  insert, if◌then◌else◌,
}
use go_temporal_ai_sdk.Updates.Types.{WorkflowRecord, RecordUpsertEvent, protocol_version}
use go_temporal_ai_sdk.Updates.Errors.{Err, record_version_conflict}
use go_temporal_ai_sdk.Redis.Options.{
  Options, record_entity_type, record_stream_key_name, record_updated_at_key_name, state_sort_key,
}
use go_temporal_ai_sdk.Redis.Item.{
  Item, str, num, workflow_record, string_field, int_field, clean_map,
}
use go_temporal_ai_sdk.Redis.Prog.{
  Key, StreamRef, Condition, not_exists, less, equals, both, either, Written, stored,
  condition_failed, failed, Prog, get_item, put_item, return, raise, give, Encoding, ◌>>=◌,
}
use go_temporal_ai_sdk.Redis.Preview.{stable_key, resolve, base_stable_item}

-- `attribute_not_exists(#version) OR #version < :version
--  OR (#version = :version AND #eventId = :eventId AND #payloadHash = :payloadHash)`
abbrev pub record_condition : ℤ → String → String → Condition
record_condition version event_id hash = either (not_exists "recordVersion") (
    either (less "recordVersion" (num version)) (
      both (equals "recordVersion" (num version))
        (both (equals "eventId" (str event_id)) (equals "payloadHash" (str hash)))))

-- `stringField(item, "eventId") == event.EventID && stringField(item, "payloadHash") == payloadHash`
abbrev pub same_write : RecordUpsertEvent → String → Option Item → Bool
same_write e hash item =
    string_field item "eventId" == e.base.event_id && string_field item "payloadHash" == hash

abbrev pub conflict : RecordUpsertEvent → Err
conflict e = record_version_conflict e.upserted.record_id e.upserted.record_version

-- `latestVersion, _ := redisIntField(...)`
abbrev pub or_zero : Option ℤ → ℤ
or_zero none = pos 0
or_zero (some n) = n

-- What the losing writer finds when it reads the item again.
unfoldable pub record_reread : RecordUpsertEvent → String → Option Item → Prog Bool
record_reread e hash latest =
    let latest_version = or_zero (int_field latest "recordVersion") in
    if ltb_ℤ e.upserted.record_version latest_version
    then return false
    else if eqb_ℤ latest_version e.upserted.record_version && same_write e hash latest
    then return true
    else raise (conflict e)

abbrev pub record_written : Key → RecordUpsertEvent → String → Written → Prog Bool
record_written key e hash stored = return true
record_written key e hash (failed x) = raise x
record_written key e hash condition_failed = get_item key give >>= record_reread e hash

module _ (o : Options) (enc : Encoding) where
  abbrev pub record_key : String → String → Key
  record_key stream_id record_id =
      stable_key (join ("record#" ∷ stream_id ∷ "#" ∷ record_id ∷ [])) (state_sort_key o)

  abbrev pub record_hash : WorkflowRecord → String → String
  record_hash r accepted_attempt_id = enc.sha256_hex (enc.record_payload r accepted_attempt_id)

  unfoldable pub record_item : StreamRef → Key → RecordUpsertEvent → String → Item
  unfolding base_stable_item
  record_item ref key e hash = insert (record_updated_at_key_name o) (num e.upserted.updated_at) (
      insert (record_stream_key_name o) (str e.base.stream_id) (
        insert "record" (workflow_record e.upserted) (
          insert "payloadHash" (str hash) (
            insert "eventId" (str e.base.event_id) (
              insert "recordVersion" (num e.upserted.record_version) (
                insert "recordId" (str e.upserted.record_id) (
                  insert "streamId" (str e.base.stream_id) (
                    insert "protocolVersion" (num protocol_version) (
                      insert "entityType" (str (record_entity_type o))
                        (base_stable_item o ref key e.upserted.updated_at))))))))))

  unfoldable pub write_record : StreamRef → Key → RecordUpsertEvent → String → Prog Bool
  unfolding record_item record_reread ◌>>=◌
  write_record ref key e hash =
      put_item key (clean_map (record_item ref key e hash))
        (record_condition e.upserted.record_version e.base.event_id hash)
        (record_written key e hash)

  -- putCurrentRecord once the current item and its version are read.
  unfoldable pub put_record_over :
      StreamRef → Key → RecordUpsertEvent → String → Option Item → Option ℤ → Prog Bool
  unfolding write_record
  put_record_over ref key e hash existing none = write_record ref key e hash
  put_record_over ref key e hash existing (some current) =
      if ltb_ℤ e.upserted.record_version current
      then return false
      else if eqb_ℤ current e.upserted.record_version
      then if same_write e hash existing then return true else raise (conflict e)
      else write_record ref key e hash

  unfoldable pub put_current_record : RecordUpsertEvent → Prog Bool
  unfolding resolve put_record_over ◌>>=◌
  put_current_record e = do
    ref ← resolve o e.base.stream_id
    let key = record_key e.base.stream_id e.upserted.record_id
    existing ← get_item key give
    let hash = record_hash e.upserted e.accepted_attempt_id
    put_record_over ref key e hash existing (int_field existing "recordVersion")
