-- ===== src/Orchestrator/Refines/Methods.antt =====
-- The writes of a command.
use po_c_go_live.Base.{none, ◌≢◌}
use po_c_go_live.Dict.{IsDistinct, get}
use po_c_go_live.Orchestrator.Ids.{new_id}
use po_c_go_live.Orchestrator.State.{Deps, Sys}
use po_c_go_live.Orchestrator.Commands.{
  Command, starts, syncs, creates_position, renames_position, deletes_position, assigns, unassigns,
  sets_audio, creates_scene, renames_scene, updates_scene, deletes_scene, previews_camera,
  previews_scene, cuts, execute,
}
use po_c_go_live.Orchestrator.Step.{Steps}
use po_c_go_live.Orchestrator.Refines.Positions.{
  start-Steps, create_position-Steps, rename_position-Steps, delete_position-Steps,
}
use po_c_go_live.Orchestrator.Refines.Assignment.{
  assign_camera-Steps, unassign_position-Steps, set_audio_position-Steps,
}
use po_c_go_live.Orchestrator.Refines.Scenes.{
  create_scene-Steps, rename_scene-Steps, update_scene_positions-Steps, delete_scene-Steps,
}
use po_c_go_live.Orchestrator.Refines.Live.{
  set_preview_camera-Steps, set_preview_scene-Steps, cut-Steps,
}
use po_c_go_live.Orchestrator.Refines.Sync.{sync_once-Steps}

module _ {W : Type 0} (d : Deps W) where
  -- Whatever a command returns, and whatever the collaborators answer, what it leaves in the struct
  -- is reached by writes of `Step`, each under the condition that the method has checked. The cameras
  -- are kept one entry to a key, and `C` follows if the drawn identifier is a scene's already.
  pub execute-Steps :
      {C : Type 0} (c : Command) (s : Sys W)
      → IsDistinct s.orch.cameras
      → (get (new_id (d.rand_read s.world).0) s.orch.scenes ≢ none → C)
      → Steps C s.orch (execute d c s).orch
  unfolding execute
  execute-Steps starts s m u = start-Steps d s
  execute-Steps syncs s m u = sync_once-Steps d s m
  execute-Steps (creates_position name) s m u = create_position-Steps d name s
  execute-Steps (renames_position id name) s m u = rename_position-Steps d id name s
  execute-Steps (deletes_position id) s m u = delete_position-Steps d id s
  execute-Steps (assigns id camera_id) s m u = assign_camera-Steps d id camera_id s
  execute-Steps (unassigns id) s m u = unassign_position-Steps d id s
  execute-Steps (sets_audio id) s m u = set_audio_position-Steps d id s
  execute-Steps (creates_scene name ids) s m u = create_scene-Steps d name ids s u
  execute-Steps (renames_scene id name) s m u = rename_scene-Steps d id name s
  execute-Steps (updates_scene id ids) s m u = update_scene_positions-Steps d id ids s
  execute-Steps (deletes_scene id) s m u = delete_scene-Steps d id s
  execute-Steps (previews_camera id) s m u = set_preview_camera-Steps d id s
  execute-Steps (previews_scene id) s m u = set_preview_scene-Steps d id s
  execute-Steps cuts s m u = cut-Steps d s
