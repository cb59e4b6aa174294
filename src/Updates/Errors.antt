-- ===== src/Updates/Errors.antt =====
-- The errors of updates/errors.go and updates/types.go. A constructor carries what the message names;
-- `errors.Is` against a sentinel is a test of the constructor. `external` is an error of code outside
-- the repository, with whether it wraps ErrStreamNotFound.
use go_temporal_ai_sdk.Prelude.{ℤ, String, Bool, true, false}

pub data InvalidReason : Type 0 where
  base_fields chunk_type preview_outcome bad_record stream_outcome preview_identity step_number :
      InvalidReason
  type_mismatch : String → String → InvalidReason
  preview_lane : String → InvalidReason
  record_kind : String → InvalidReason

pub data Err : Type 0 where
  invalid_event : InvalidReason → Err
  record_version_conflict : String → ℤ → Err
  accepted_target_conflict : String → String → String → Err
  preview_target_conflict : String → String → String → Err
  preview_lane_conflict : String → String → String → Err
  event_conflict : String → Err
  event_without_cursor : String → Err
  stream_not_found : String → Err
  stream_id_required : Err
  resolver_client_required : Err
  redis_client_required : Err
  invalid_terminal : String → Err
  conditional_check_failed : Err
  external : Bool → String → Err

-- IsStreamNotFound(err)
abbrev pub is_stream_not_found : Err → Bool
is_stream_not_found (stream_not_found id) = true
is_stream_not_found (external wraps message) = wraps
is_stream_not_found _ = false

-- errors.Is(err, ErrRecordConflict)
abbrev pub is_record_conflict : Err → Bool
is_record_conflict (record_version_conflict id version) = true
is_record_conflict (accepted_target_conflict attempt target id) = true
is_record_conflict _ = false

-- errors.Is(err, ErrEventConflict)
abbrev pub is_event_conflict : Err → Bool
is_event_conflict (preview_target_conflict attempt old new) = true
is_event_conflict (preview_lane_conflict attempt old new) = true
is_event_conflict (event_conflict id) = true
is_event_conflict _ = false
