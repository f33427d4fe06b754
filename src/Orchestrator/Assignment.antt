-- ===== src/Orchestrator/Assignment.antt =====
-- `AssignCamera`, `UnassignPosition`, `SetAudioPosition` and `setAudioPositionInternal` of
-- backend/internal/orchestrator/orchestrator.go.
use po_c_go_live.Base.{
  String, Bool, true, false, not, ◌&&◌, Option, none, some, ◌==◌, if◌then◌else◌,
}
use po_c_go_live.Dict.{Dict, get, put, find}
use po_c_go_live.Obs.{Fault, input_not_found, failed}
use po_c_go_live.Orchestrator.Models.{
  Camera, Position, Err, is_online, obs_unreachable, camera_not_found, camera_offline,
  position_not_found, position_empty, position_obs_input_missing, reserved_position, is_simple,
}
use po_c_go_live.Orchestrator.State.{
  Orch, Deps, ok, err, M, Section, pure, locked, ◌>>=◌, ◌>>◌, reject_if, call, attempt, attempt_if,
  found,
}
use po_c_go_live.Orchestrator.Queries.{publish_positions}
use po_c_go_live.Orchestrator.Positions.{position_input_name, unreachable, with_position}

-- `offlineUnassignment`
pub record Unassignment : Type 0 where
  pub position_id : String
  pub input_name : String
  pub was_audio : Bool

-- The loop's body, in `clearCameraFromPositionsLocked` and in `AssignCamera`, at the entry that it
-- stops at.
unfoldable pub vacate : String → Position → Orch → Unassignment × Orch
unfolding position_input_name
vacate id p o = (
  record { position_id = id; input_name = position_input_name id; was_audio = p.is_audio_source },
  record (with_position id (record p { camera_id = ""; is_audio_source = false }) o) {
    audio_position_id = if p.is_audio_source then "" else o.audio_position_id;
  },
)

unfoldable pub held_by : String → String → Position → Bool
held_by camera_id id p = p.camera_id == camera_id

unfoldable pub held_by_other : String → String → String → Position → Bool
held_by_other except camera_id id p = not (id == except) && p.camera_id == camera_id

-- Vacates the first position that passes the test.
unfoldable pub vacate_first : (String → Position → Bool) → Orch → Option Unassignment × Orch
unfolding vacate
vacate_first test o = elim (find test o.positions) [
  | none ↦ (none, o)
  | some (id, p) ↦ let (u, o') = vacate id p o in (some u, o')
]

-- `clearCameraFromPositionsLocked`
unfoldable pub clear_camera_from_positions : String → Orch → Option Unassignment × Orch
unfolding vacate_first held_by
clear_camera_from_positions camera_id = vacate_first (held_by camera_id)

-- The last section of `AssignCamera`.
unfoldable pub commit_assign : String → String → Section (Position × Option Unassignment)
unfolding vacate_first held_by_other
commit_assign position_id camera_id o = elim (get position_id o.positions) [
  | none ↦ (err position_not_found, o)
  | some p ↦
      let q : Position = record p { camera_id = camera_id } in
      let (bumped, o') = vacate_first (held_by_other position_id camera_id) o in
      (ok (q, bumped), with_position position_id q o')
]

-- The first section of `AssignCamera`.
unfoldable pub check_assign : String → String → Section (Position × Camera)
check_assign position_id camera_id o = elim (get position_id o.positions) [
  | none ↦ (err position_not_found, o)
  | some p ↦ elim (get camera_id o.cameras) [
    | none ↦ (err camera_not_found, o)
    | some c ↦ if is_online c.status then (ok (p, c), o) else (err camera_offline, o)
  ]
]

-- The last section of `UnassignPosition`, with whether the position was the audio source.
unfoldable pub commit_unassign : String → Section (Position × Bool)
commit_unassign position_id o = elim (get position_id o.positions) [
  | none ↦ (err position_not_found, o)
  | some p ↦
      let q : Position = record p { camera_id = ""; is_audio_source = false } in
      (
        ok (q, p.is_audio_source),
        record (with_position position_id q o) {
          audio_position_id = if p.is_audio_source then "" else o.audio_position_id;
        },
      )
]

-- The first section of `SetAudioPosition`, which reads the previous source.
unfoldable pub check_audio : String → Section String
check_audio position_id o = elim (get position_id o.positions) [
  | none ↦ (err position_not_found, o)
  | some p ↦ if p.camera_id == "" then (err position_empty, o) else (ok o.audio_position_id, o)
]

abbrev pub is_other : String → String → Bool
is_other previous position_id = not (previous == "") && not (previous == position_id)

-- The previous source is one no more.
unfoldable pub demote : String → String → Dict Position → Dict Position
demote previous position_id m = elim (get previous m) [
  | none ↦ m
  | some p ↦
      if is_other previous position_id
      then put previous (record p { is_audio_source = false }) m
      else m
]

-- The last section of `SetAudioPosition`.
unfoldable pub commit_audio : String → String → Section Position
unfolding demote
commit_audio position_id previous o = elim (get position_id o.positions) [
  | none ↦ (err position_not_found, o)
  | some p ↦
      let q : Position = record p { is_audio_source = true } in
      (
        ok q,
        record o {
          positions = put position_id q (demote previous position_id o.positions);
          audio_position_id = position_id;
        },
      )
]

-- The last section of `setAudioPositionInternal`.
unfoldable pub commit_audio_internal : String → String → Section (Unit {0})
unfolding demote
commit_audio_internal position_id previous o =
    let m = demote previous position_id o.positions in
    (
      ok tt,
      record o {
        positions = elim (get position_id m) [
          | none ↦ m
          | some p ↦ put position_id (record p { is_audio_source = true }) m
        ];
        audio_position_id = position_id;
      },
    )

abbrev pub source_error : Fault → Err
source_error input_not_found = position_obs_input_missing
source_error failed = obs_unreachable

module _ {W : Type 0} (d : Deps W) where
  -- What OBS is told of a position that lost its camera.
  unfoldable pub silence : Unassignment → M W (Unit {0})
  silence u = do
    attempt (d.obs.set_position_enabled d.program_scene u.input_name false)
    attempt_if u.was_audio (d.obs.set_input_audio_muted u.input_name true)

  unfoldable pub silence_bumped : Option Unassignment → M W (Unit {0})
  unfolding silence
  silence_bumped none = pure tt
  silence_bumped (some u) = silence u

  unfoldable pub assign_camera : String → String → M W Position
  assign_camera position_id camera_id = do
    reject_if (is_simple position_id) reserved_position
    r ← locked (check_assign position_id camera_id)
    if r.0.camera_id == camera_id then pure r.0 else do
      call (d.obs.update_position_source (position_input_name position_id) r.1.source_url)
          source_error
      c ← locked (commit_assign position_id camera_id)
      silence_bumped c.1
      publish_positions
      pure c.0

  unfoldable pub unassign_position : String → M W Position
  unassign_position position_id = do
    reject_if (is_simple position_id) reserved_position
    p ← locked (λ o. (found (get position_id o.positions) position_not_found, o))
    if p.camera_id == "" then pure p else do
      attempt (d.obs.set_position_enabled d.program_scene (position_input_name position_id) false)
      c ← locked (commit_unassign position_id)
      attempt_if c.1 (d.obs.set_input_audio_muted (position_input_name position_id) true)
      publish_positions
      pure c.0

  -- The two calls that move the sound from the previous source.
  unfoldable pub move_sound : String → String → M W (Unit {0})
  move_sound previous position_id = do
    attempt_if (is_other previous position_id)
        (d.obs.set_input_audio_muted (position_input_name previous) true)
    call (d.obs.set_input_audio_muted (position_input_name position_id) false) unreachable

  unfoldable pub set_audio_position : String → M W Position
  set_audio_position position_id = do
    reject_if (is_simple position_id) reserved_position
    previous ← locked (check_audio position_id)
    move_sound previous position_id
    p ← locked (commit_audio position_id previous)
    publish_positions
    pure p

  unfoldable pub set_audio_position_internal : String → M W (Unit {0})
  set_audio_position_internal position_id = do
    previous ← locked (λ o. (ok o.audio_position_id, o))
    move_sound previous position_id
    locked (commit_audio_internal position_id previous)
