-- ===== src/Http/Handlers.antt =====
-- The handlers of backend/internal/httpapi that ask something of the orchestrator: those of httpapi.go,
-- scenes_handlers.go and live_handlers.go.
use po_c_go_live.Base.{ℕ, String, Option, none, some, List, [], ◌∷◌, ◌==◌, if◌then◌else◌}
use po_c_go_live.Orchestrator.Models.{
  Camera, Position, Scene, SystemStatus, LiveState, Err, scene_not_found,
}
use po_c_go_live.Orchestrator.State.{Deps, Sys, Result, ok, err}
use po_c_go_live.Orchestrator.Queries.{cameras, positions, scenes, status}
use po_c_go_live.Orchestrator.Positions.{create_position, rename_position, delete_position}
use po_c_go_live.Orchestrator.Assignment.{assign_camera, unassign_position, set_audio_position}
use po_c_go_live.Orchestrator.Scenes.{
  create_scene, rename_scene, update_scene_positions, delete_scene,
}
use po_c_go_live.Orchestrator.Live.{set_preview_camera, set_preview_scene, cut}
use po_c_go_live.Orchestrator.Sync.{sync_once}
use po_c_go_live.Http.Reply.{Reply, write_json, write_error, write_header}
use po_c_go_live.Http.Problems.{write_position_error, write_scene_error, write_live_error}

-- What a reply has as JSON.
pub data Payload : Type 0 where
  health : Payload
  all_cameras : List Camera → Payload
  system : SystemStatus → Payload
  all_positions : List Position → Payload
  one_position : Position → Payload
  all_scenes : List Scene → Payload
  one_scene : Scene → Payload
  live_state : LiveState → Payload

-- A PATCH of a scene; a field is `none` where it is nil.
pub record PatchSceneRequest : Type 0 where
  pub name : Option String
  pub position_ids : Option (List String)

-- `json.Decoder.Decode` into the request of each handler, where `none` is an error.
pub record Json : Type 0 where
  pub name : String → Option String
  pub camera_id : String → Option String
  pub scene : String → Option (String × List String)
  pub patch_scene : String → Option PatchSceneRequest
  pub preview : String → Option (String × String)

abbrev pub Answer : Type 0 → Type 0
Answer W = Sys W → Reply Payload × Sys W

abbrev bad_body : Reply Payload
bad_body = write_error 400 "corpo da requisição inválido"

-- The loop over the scenes of `handlePatchScene`.
unfoldable pub scene_with_id : String → List Scene → Option Scene
scene_with_id id [] = none
scene_with_id id (sc ∷ scs) = if sc.id == id then some sc else scene_with_id id scs

module _ {W : Type 0} where
  -- What a method returned, as a reply.
  abbrev pub reply_with :
      {A : Type 0}
      → (A → Reply Payload)
      → (Err → Reply Payload)
      → Result A × Sys W
      → Reply Payload × Sys W
  reply_with good bad (ok a, s) = (good a, s)
  reply_with good bad (err e, s) = (bad e, s)

  abbrev pub with_body : {A : Type 0} → Option A → (A → Answer W) → Answer W
  with_body none f s = (bad_body, s)
  with_body (some a) f s = f a s

  unfoldable pub handle_list_cameras : Answer W
  handle_list_cameras s = (write_json 200 (all_cameras (cameras s.orch)), s)

  unfoldable pub handle_list_positions : Answer W
  handle_list_positions s = (write_json 200 (all_positions (positions s.orch)), s)

  unfoldable pub handle_list_scenes : Answer W
  handle_list_scenes s = (write_json 200 (all_scenes (scenes s.orch)), s)

  unfoldable pub handle_get_live : Answer W
  handle_get_live s = (write_json 200 (live_state s.orch.live), s)

  unfoldable pub handle_health : Answer W
  handle_health s = (write_json 200 health, s)

  abbrev pub current_scene : String → Answer W
  current_scene id s = elim (scene_with_id id (scenes s.orch)) [
    | none ↦ (write_scene_error scene_not_found, s)
    | some sc ↦ (write_json 200 (one_scene sc), s)
  ]

  abbrev scene_reply : Result Scene × Sys W → Reply Payload × Sys W
  scene_reply = reply_with (λ sc. write_json 200 (one_scene sc)) write_scene_error

  module _ (d : Deps W) where
    unfoldable pub handle_status : Answer W
    handle_status s = (write_json 200 (system (status d s)), s)

    -- `SyncOnce` returns no error: its cameras are those that it leaves.
    unfoldable pub handle_sync : Answer W
    handle_sync s =
        let s' = (sync_once d s).1 in (write_json 200 (all_cameras (cameras s'.orch)), s')

    abbrev position_reply : ℕ → Result Position × Sys W → Reply Payload × Sys W
    position_reply code = reply_with (λ p. write_json code (one_position p)) write_position_error

    unfoldable pub handle_create_position : Option String → Answer W
    handle_create_position req =
        with_body req λ name s. position_reply 201 (create_position d name s)

    unfoldable pub handle_rename_position : String → Option String → Answer W
    handle_rename_position id req =
        with_body req λ name s. position_reply 200 (rename_position d id name s)

    unfoldable pub handle_delete_position : String → Answer W
    handle_delete_position id s =
        reply_with (λ u. write_header 204) write_position_error (delete_position d id s)

    unfoldable pub handle_assign_camera : String → Option String → Answer W
    handle_assign_camera id req =
        with_body req λ camera s. position_reply 200 (assign_camera d id camera s)

    unfoldable pub handle_unassign_position : String → Answer W
    handle_unassign_position id s = position_reply 200 (unassign_position d id s)

    unfoldable pub handle_set_audio_position : String → Answer W
    handle_set_audio_position id s = position_reply 200 (set_audio_position d id s)

    unfoldable pub handle_create_scene : Option (String × List String) → Answer W
    handle_create_scene req = with_body req λ r s.
        reply_with (λ sc. write_json 201 (one_scene sc)) write_scene_error
          (create_scene d r.0 r.1 s)

    -- `handlePatchScene` with both fields: the second is not tried if the first fails.
    abbrev pub then_positions : String → List String → Result Scene × Sys W → Reply Payload × Sys W
    then_positions id ids (err e, s) = (write_scene_error e, s)
    then_positions id ids (ok sc, s) = scene_reply (update_scene_positions d id ids s)

    abbrev pub patch_scene : String → Option String → Option (List String) → Answer W
    patch_scene id none none s = current_scene id s
    patch_scene id (some name) none s = scene_reply (rename_scene d id name s)
    patch_scene id none (some ids) s = scene_reply (update_scene_positions d id ids s)
    patch_scene id (some name) (some ids) s = then_positions id ids (rename_scene d id name s)

    unfoldable pub handle_patch_scene : String → Option PatchSceneRequest → Answer W
    handle_patch_scene id req = with_body req λ r. patch_scene id r.name r.position_ids

    unfoldable pub handle_delete_scene : String → Answer W
    handle_delete_scene id s =
        reply_with (λ u. write_header 204) write_scene_error (delete_scene d id s)

    abbrev pub live_reply : Result LiveState × Sys W → Reply Payload × Sys W
    live_reply = reply_with (λ l. write_json 200 (live_state l)) write_live_error

    unfoldable pub handle_set_preview : Option (String × String) → Answer W
    handle_set_preview req = with_body req λ r s.
        if r.0 == "camera"
        then live_reply (set_preview_camera d r.1 s)
        else if r.0 == "scene"
        then live_reply (set_preview_scene d r.1 s)
        else (write_error 422 "kind inválido", s)

    unfoldable pub handle_cut : Answer W
    handle_cut s = live_reply (cut d s)
