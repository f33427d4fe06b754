-- ===== src/Orchestrator/Live.antt =====
-- `SetPreviewCamera`, `SetPreviewScene` and `Cut` of backend/internal/orchestrator/orchestrator.go.
use po_c_go_live.Base.{
  String, Bool, true, false, not, ◌&&◌, ◌||◌, Option, none, some, List, [], ◌∷◌, ◌==◌,
  if◌then◌else◌,
}
use po_c_go_live.Dict.{Dict, get, put, update_all}
use po_c_go_live.Orchestrator.Models.{
  Camera, Position, Scene, LiveKind, LiveState, is_online, is_simple, simple_position_id,
  obs_unreachable, camera_not_found, scene_not_found, preview_empty, source_unavailable,
}
use po_c_go_live.Orchestrator.State.{
  Orch, Deps, Result, ok, err, M, Section, pure, fail, locked, ◌>>=◌, ◌>>◌, on_error, call,
  ignore_error,
}
use po_c_go_live.Orchestrator.Queries.{
  is_none, publish_positions, publish_live_state, publish_status,
}
use po_c_go_live.Orchestrator.Positions.{position_input_name, ensure_hidden_position}
use po_c_go_live.Orchestrator.Assignment.{source_error, set_audio_position_internal}
use po_c_go_live.Orchestrator.Visibility.{apply_exclusive_visibility}

unfoldable pub preview_camera : String → Section LiveState
preview_camera id o =
    let l : LiveState = record o.live { preview_kind = LiveKind.camera; preview_id = id } in
    elim (get id o.cameras) [
      | none ↦ (err camera_not_found, o)
      | some c ↦ (ok l, record o { live = l })
    ]

unfoldable pub preview_scene : String → Section LiveState
preview_scene id o =
    let l : LiveState = record o.live { preview_kind = LiveKind.scene; preview_id = id } in
    elim (get id o.scenes) [
      | none ↦ (err scene_not_found, o)
      | some sc ↦ (ok l, record o { live = l })
    ]

abbrev pub same_kind : LiveKind → LiveKind → Bool
same_kind LiveKind.none LiveKind.none = true
same_kind LiveKind.camera LiveKind.camera = true
same_kind LiveKind.scene LiveKind.scene = true
same_kind _ _ = false

-- What the first section of `Cut` decides: nothing to do, a camera by its source URL and its ID,
-- or a scene by the positions to enable and its ID.
pub data Plan : Type 0 where
  keep : LiveState → Plan
  to_camera : String → String → Plan
  to_scene : List String → String → Plan

-- `p.CameraID != ""`, and that camera is known and not online.
unfoldable pub is_unavailable : Position → Dict Camera → Bool
is_unavailable p cameras =
    not (p.camera_id == "")
    && elim (get p.camera_id cameras) [ none ↦ false | some c ↦ not (is_online c.status) ]

abbrev add_id : String → Result (List String) → Result (List String)
add_id id (ok ids) = ok (id ∷ ids)
add_id id (err e) = err e

-- The loop over the scene's positions.
unfoldable pub collect_enabled : List String → Orch → Result (List String)
unfolding is_unavailable
collect_enabled [] o = ok []
collect_enabled (id ∷ ids) o =
    let rest = collect_enabled ids o in
    elim (get id o.positions) [
      | none ↦ rest
      | some p ↦
          if is_simple id
          then rest
          else if is_unavailable p o.cameras
          then err source_unavailable
          else add_id id rest
    ]

plan_camera : Option Camera → Result Plan
plan_camera none = err camera_not_found
plan_camera (some c) =
    if is_online c.status then ok (to_camera c.source_url c.id) else err source_unavailable

abbrev to_scene_of : String → Result (List String) → Result Plan
to_scene_of id (ok ids) = ok (to_scene ids id)
to_scene_of id (err e) = err e

plan_scene : Option Scene → Orch → Result Plan
plan_scene none o = err scene_not_found
plan_scene (some sc) o = to_scene_of sc.id (collect_enabled sc.position_ids o)

plan_preview : LiveKind → String → Orch → Result Plan
unfolding plan_camera plan_scene
plan_preview LiveKind.none id o = err preview_empty
plan_preview LiveKind.camera id o = plan_camera (get id o.cameras)
plan_preview LiveKind.scene id o = plan_scene (get id o.scenes) o

-- The first section of `Cut`.
unfoldable pub plan_cut : Section Plan
unfolding plan_preview
plan_cut o =
    if is_none o.live.preview_kind || o.live.preview_id == ""
    then (err preview_empty, o)
    else if same_kind o.live.live_kind o.live.preview_kind && o.live.live_id == o.live.preview_id
    then (ok (keep o.live), o)
    else (plan_preview o.live.preview_kind o.live.preview_id o, o)

-- Takes the camera from a position that is not the hidden one.
unfoldable pub give_up : String → String → Position → Position
give_up camera_id id p =
    if not (is_simple id) && p.camera_id == camera_id then record p { camera_id = "" } else p

on_air : LiveKind → String → Orch → Orch
on_air kind id o = record o { live = record o.live { live_kind = kind; live_id = id } }

-- The last section of `Cut` with a camera.
unfoldable pub commit_camera : String → Section LiveState
unfolding give_up on_air
commit_camera camera_id o =
    let given = update_all (give_up camera_id) o.positions in
    let o' : Orch = elim (get simple_position_id o.positions) [
      | none ↦ on_air LiveKind.camera camera_id o
      | some p ↦ on_air LiveKind.camera camera_id (record o {
        positions = put simple_position_id (record p { camera_id = camera_id }) given;
      })
    ] in
    (ok o'.live, o')

-- The last section of `Cut` with a scene.
unfoldable pub commit_scene : String → Section LiveState
unfolding on_air
commit_scene id o = let o' = on_air LiveKind.scene id o in (ok o'.live, o')

module _ {W : Type 0} (d : Deps W) where
  unfoldable pub set_preview_camera : String → M W LiveState
  set_preview_camera id = do l ← locked (preview_camera id); publish_live_state; pure l

  unfoldable pub set_preview_scene : String → M W LiveState
  set_preview_scene id = do l ← locked (preview_scene id); publish_live_state; pure l

  unfoldable pub show : List String → M W (Unit {0})
  show ids = on_error (apply_exclusive_visibility d ids) (λ e. fail obs_unreachable)

  -- What `Cut` asks of OBS for a camera, and the sound.
  unfoldable pub prepare_camera : String → M W (Unit {0})
  unfolding show
  prepare_camera source_url = do
    call (d.obs.update_position_source (position_input_name simple_position_id) source_url)
        source_error
    show (simple_position_id ∷ [])
    ignore_error (set_audio_position_internal d simple_position_id)

  unfoldable pub cut_camera : String → String → M W LiveState
  cut_camera source_url camera_id = do
    prepare_camera source_url
    l ← locked (commit_camera camera_id)
    publish_positions
    publish_live_state
    publish_status d
    pure l

  unfoldable pub cut_scene : List String → String → M W LiveState
  cut_scene ids scene_id = do
    show ids
    l ← locked (commit_scene scene_id)
    publish_live_state
    publish_status d
    pure l

  unfoldable pub carry_out : Plan → M W LiveState
  carry_out (keep l) = pure l
  carry_out (to_camera source_url camera_id) = cut_camera source_url camera_id
  carry_out (to_scene ids scene_id) = cut_scene ids scene_id

  unfoldable pub cut : M W LiveState
  cut = do
    on_error (ensure_hidden_position d) (λ e. fail obs_unreachable)
    plan ← locked plan_cut
    carry_out plan
