-- ===== src/Updates/Types.antt =====
-- updates/types.go: the events of protocol v2 and what they carry.
-- A Go string type stays a text, since any text can stand in it; its named values are constants.
-- `any` is a JSON value, with `none` for nil.
use go_temporal_ai_sdk.Prelude.{ℤ, pos, String, Bool, Option, List}

mutual
  pub data Value : Type 0 where
    null : Value
    bool : Bool → Value
    num : ℤ → Value
    str : String → Value
    arr : Values → Value
    obj : Fields → Value

  pub data Values : Type 0 where
    nil : Values
    cons : Value → Values → Values

  pub data Fields : Type 0 where
    end : Fields
    field : String → Value → Fields → Fields

abbrev pub protocol_version : ℤ
protocol_version = pos 2

abbrev pub EventType : Type 0
EventType = String

abbrev pub event_type_preview_begin : EventType
event_type_preview_begin = "preview-begin"

abbrev pub event_type_preview_chunk : EventType
event_type_preview_chunk = "preview-chunk"

abbrev pub event_type_preview_snapshot : EventType
event_type_preview_snapshot = "preview-snapshot"

abbrev pub event_type_preview_end : EventType
event_type_preview_end = "preview-end"

abbrev pub event_type_record_upsert : EventType
event_type_record_upsert = "record-upsert"

abbrev pub event_type_stream_end : EventType
event_type_stream_end = "stream-end"

abbrev pub Lane : Type 0
Lane = String

abbrev pub lane_text : Lane
lane_text = "text"

abbrev pub lane_reasoning : Lane
lane_reasoning = "reasoning"

abbrev pub lane_object : Lane
lane_object = "object"

abbrev pub lane_tool_input : Lane
lane_tool_input = "tool-input"

abbrev pub PreviewOutcome : Type 0
PreviewOutcome = String

abbrev pub preview_outcome_succeeded : PreviewOutcome
preview_outcome_succeeded = "succeeded"

abbrev pub preview_outcome_failed : PreviewOutcome
preview_outcome_failed = "failed"

abbrev pub preview_outcome_canceled : PreviewOutcome
preview_outcome_canceled = "canceled"

abbrev pub RecordKind : Type 0
RecordKind = String

abbrev pub record_kind_message : RecordKind
record_kind_message = "message"

abbrev pub record_kind_tool : RecordKind
record_kind_tool = "tool"

abbrev pub record_kind_interaction : RecordKind
record_kind_interaction = "interaction"

abbrev pub record_kind_task : RecordKind
record_kind_task = "task"

abbrev pub record_kind_subagent : RecordKind
record_kind_subagent = "subagent"

abbrev pub StreamOutcome : Type 0
StreamOutcome = String

abbrev pub stream_outcome_completed : StreamOutcome
stream_outcome_completed = "completed"

abbrev pub stream_outcome_failed : StreamOutcome
stream_outcome_failed = "failed"

abbrev pub stream_outcome_canceled : StreamOutcome
stream_outcome_canceled = "canceled"

pub record Scope : Type 0 where
  pub display_mode : String
  pub agent_id : String
  pub task_id : String
  pub task_title : String
  pub skill_name : String
  pub step_id : String
  pub step_number : Option ℤ
  pub step_type : String

pub record Snapshot : Type 0 where
  pub text : String
  pub object : Option Value
  pub elements : List Value

pub record BaseEvent : Type 0 where
  pub version : ℤ
  pub type : EventType
  pub event_id : String
  pub cursor : String
  pub stream_id : String
  pub occurred_at : ℤ

pub record PreviewRef : Type 0 where
  pub attempt_id : String
  pub target_record_id : String
  pub lane : Lane
  pub sequence : ℤ
  pub scope : Scope

pub record PreviewBeginEvent : Type 0 where
  pub base : BaseEvent
  pub ref : PreviewRef

-- `chunk` is a map; a nil map reads like an empty one.
pub record PreviewChunkEvent : Type 0 where
  pub base : BaseEvent
  pub ref : PreviewRef
  pub chunk : List (String × Value)

pub record PreviewSnapshotEvent : Type 0 where
  pub base : BaseEvent
  pub ref : PreviewRef
  pub snapshot : Snapshot

pub record PreviewEndEvent : Type 0 where
  pub base : BaseEvent
  pub ref : PreviewRef
  pub outcome : PreviewOutcome
  pub reason : String
  pub snapshot : Option Snapshot

-- `none` is a nil data map.
pub record WorkflowRecord : Type 0 where
  pub record_id : String
  pub record_version : ℤ
  pub kind : RecordKind
  pub status : String
  pub contents : Option (List (String × Value))
  pub scope : Scope
  pub updated_at : ℤ

pub record RecordUpsertEvent : Type 0 where
  pub base : BaseEvent
  pub accepted_attempt_id : String
  pub upserted : WorkflowRecord

pub record StreamEndEvent : Type 0 where
  pub base : BaseEvent
  pub outcome : StreamOutcome
  pub error : String

-- The implementations of the interface UpdateEvent.
pub data UpdateEvent : Type 0 where
  preview_begin : PreviewBeginEvent → UpdateEvent
  preview_chunk : PreviewChunkEvent → UpdateEvent
  preview_snapshot : PreviewSnapshotEvent → UpdateEvent
  preview_end : PreviewEndEvent → UpdateEvent
  record_upsert : RecordUpsertEvent → UpdateEvent
  stream_end : StreamEndEvent → UpdateEvent

abbrev pub event_base : UpdateEvent → BaseEvent
event_base (preview_begin e) = e.base
event_base (preview_chunk e) = e.base
event_base (preview_snapshot e) = e.base
event_base (preview_end e) = e.base
event_base (record_upsert e) = e.base
event_base (stream_end e) = e.base

pub record PreviewManifest : Type 0 where
  pub attempt_id : String
  pub target_record_id : String
  pub lane : Lane
  pub status : String
  pub sequence : ℤ
  pub snapshot : Snapshot
  pub scope : Scope
  pub updated_at : ℤ

pub record PreviewReceipt : Type 0 where
  pub attempt_id : String
  pub target_record_id : String
  pub lane : Lane
  pub sequence : ℤ
  pub outcome : PreviewOutcome
  pub snapshot : Snapshot
  pub scope : Scope
