-- ===== src/Redis/Options.antt =====
-- connectors/redis-dynamodb/options.go. The clients (AWSConfig, DynamoDB, Redis) are not part of the
-- record: their calls are the actions of Redis/Prog.antt, and `has_redis` says that Redis is not nil.
-- A TTL is a number of seconds.
use go_temporal_ai_sdk.Prelude.{ℤ, pos, ltb_ℤ, String, Bool, ◌||◌, ◌==◌, if◌then◌else◌}

pub record Options : Type 0 where
  pub has_redis : Bool
  pub has_resolver : Bool
  pub disabled : Bool
  pub partition_key : String
  pub sort_key : String
  pub state_sort : ℤ
  pub ttl_seconds : ℤ
  pub event_entity : String
  pub preview_entity : String
  pub record_entity : String
  pub terminal_entity : String
  pub event_stream_key : String
  pub event_cursor_key : String
  pub preview_stream_key : String
  pub preview_time_key : String
  pub record_stream_key : String
  pub record_time_key : String
  pub mode_name : String
  pub channel_base : String
  pub stream_base : String
  pub max_stream_length : ℤ

-- `if o.X != "" { return o.X }; return default`
abbrev pub or_default : String → String → String
or_default value default = if value == "" then default else value

abbrev pub mode_pub_sub : String
mode_pub_sub = "pubsub"

abbrev pub mode_stream : String
mode_stream = "stream"

abbrev pub mode_both : String
mode_both = "both"

module _ (o : Options) where
  abbrev pub ttl : ℤ
  ttl = if ltb_ℤ (pos 0) o.ttl_seconds then o.ttl_seconds else pos 3600

  abbrev pub partition_key_name : String
  partition_key_name = or_default o.partition_key "id"

  abbrev pub sort_key_name : String
  sort_key_name = or_default o.sort_key "createdAt"

  abbrev pub event_entity_type : String
  event_entity_type = or_default o.event_entity "STREAM_EVENT"

  abbrev pub preview_entity_type : String
  preview_entity_type = or_default o.preview_entity "STREAM_PREVIEW"

  abbrev pub record_entity_type : String
  record_entity_type = or_default o.record_entity "WORKFLOW_RECORD"

  abbrev pub terminal_entity_type : String
  terminal_entity_type = or_default o.terminal_entity "STREAM_TERMINAL"

  abbrev pub state_sort_key : ℤ
  state_sort_key = o.state_sort

  abbrev pub mode : String
  mode =
      if o.mode_name == mode_stream || o.mode_name == mode_both then o.mode_name else mode_pub_sub

  abbrev pub channel_prefix : String
  channel_prefix = or_default o.channel_base "temporal-ai:live:"

  abbrev pub stream_prefix : String
  stream_prefix = or_default o.stream_base "temporal-ai:stream:"

  abbrev pub event_stream_key_name : String
  event_stream_key_name = or_default o.event_stream_key "updateStreamId"

  abbrev pub event_cursor_key_name : String
  event_cursor_key_name = or_default o.event_cursor_key "updateCursor"

  abbrev pub preview_stream_key_name : String
  preview_stream_key_name = or_default o.preview_stream_key "previewStreamId"

  abbrev pub preview_updated_at_key_name : String
  preview_updated_at_key_name = or_default o.preview_time_key "previewUpdatedAt"

  abbrev pub record_stream_key_name : String
  record_stream_key_name = or_default o.record_stream_key "recordStreamId"

  abbrev pub record_updated_at_key_name : String
  record_updated_at_key_name = or_default o.record_time_key "recordUpdatedAt"
