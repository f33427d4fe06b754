-- ===== src/Orchestrator/Models.antt =====
-- backend/internal/orchestrator/models.go, and the errors, the constants and the events of
-- orchestrator.go.
use po_c_go_live.Base.{ℕ, String, Bool, true, false, List, ◌==◌}

-- `StatusOnline` and `StatusOffline`: the two values that a camera's status has.
pub data Status : Type 0 where
  online offline : Status

abbrev pub is_online : Status → Bool
is_online online = true
is_online offline = false

pub record Camera : Type 0 where
  pub id : String
  pub name : String
  pub source_url : String
  pub status : Status
  pub last_seen_at : ℕ

-- `camera_id` is "" when no camera is assigned.
pub record Position : Type 0 where
  pub id : String
  pub name : String
  pub camera_id : String
  pub is_audio_source : Bool

pub record Scene : Type 0 where
  pub id : String
  pub name : String
  pub position_ids : List String

pub data LiveKind : Type 0 where
  none camera scene : LiveKind

pub record LiveState : Type 0 where
  pub preview_kind : LiveKind
  pub preview_id : String
  pub live_kind : LiveKind
  pub live_id : String

pub record SystemStatus : Type 0 where
  pub obs_connected : Bool
  pub media_server_connected : Bool
  pub streaming : Bool
  pub active_scene_name : String

-- What the position store keeps of a position.
pub record PositionDef : Type 0 where
  pub id : String
  pub name : String

-- `store_failed` stands for an error of a store, which is passed on as it is.
pub data Err : Type 0 where
  camera_not_found camera_offline obs_unreachable : Err
  position_not_found position_name_empty position_name_too_long position_name_taken : Err
  position_obs_input_missing position_empty : Err
  scene_not_found scene_name_required scene_name_taken scene_is_live : Err
  reserved_position preview_empty source_unavailable store_failed : Err

-- An event's type and payload.
pub data Event : Type 0 where
  cameras_updated : List Camera → Event
  system_status : SystemStatus → Event
  positions_updated : List Position → Event
  scenes_updated : List Scene → Event
  live_updated : LiveState → Event
  error : String → Event

abbrev pub simple_position_id : String
simple_position_id = "__simple__"

-- `p.ID == simplePositionID`
abbrev pub is_simple : String → Bool
is_simple id = id == simple_position_id

abbrev pub max_position_name_length : ℕ
max_position_name_length = 100

-- 60 seconds, in nanoseconds.
abbrev pub offline_remove_after : ℕ
offline_remove_after = 60000000000
