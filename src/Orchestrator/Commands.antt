-- ===== src/Orchestrator/Commands.antt =====
-- The methods of the orchestrator as one data type: what a caller may ask of it.
use po_c_go_live.Base.{String, List, [], ◌∷◌}
use po_c_go_live.Orchestrator.State.{Deps, Sys}
use po_c_go_live.Orchestrator.Positions.{create_position, rename_position, delete_position}
use po_c_go_live.Orchestrator.Start.{start}
use po_c_go_live.Orchestrator.Assignment.{assign_camera, unassign_position, set_audio_position}
use po_c_go_live.Orchestrator.Scenes.{
  create_scene, rename_scene, update_scene_positions, delete_scene,
}
use po_c_go_live.Orchestrator.Live.{set_preview_camera, set_preview_scene, cut}
use po_c_go_live.Orchestrator.Sync.{sync_once}

pub data Command : Type 0 where
  starts : Command
  syncs : Command
  creates_position : String → Command
  renames_position : String → String → Command
  deletes_position : String → Command
  assigns : String → String → Command
  unassigns : String → Command
  sets_audio : String → Command
  creates_scene : String → List String → Command
  renames_scene : String → String → Command
  updates_scene : String → List String → Command
  deletes_scene : String → Command
  previews_camera : String → Command
  previews_scene : String → Command
  cuts : Command

-- The state that a command leaves, whether it returned an error or not. `starts` is what `Run` does
-- to the struct before its loop.
unfoldable pub execute : {W : Type 0} → Deps W → Command → Sys W → Sys W
execute d starts s = (start d s).1
execute d syncs s = (sync_once d s).1
execute d (creates_position name) s = (create_position d name s).1
execute d (renames_position id name) s = (rename_position d id name s).1
execute d (deletes_position id) s = (delete_position d id s).1
execute d (assigns position_id camera_id) s = (assign_camera d position_id camera_id s).1
execute d (unassigns id) s = (unassign_position d id s).1
execute d (sets_audio id) s = (set_audio_position d id s).1
execute d (creates_scene name ids) s = (create_scene d name ids s).1
execute d (renames_scene id name) s = (rename_scene d id name s).1
execute d (updates_scene id ids) s = (update_scene_positions d id ids s).1
execute d (deletes_scene id) s = (delete_scene d id s).1
execute d (previews_camera id) s = (set_preview_camera d id s).1
execute d (previews_scene id) s = (set_preview_scene d id s).1
execute d cuts s = (cut d s).1

unfoldable pub run : {W : Type 0} → Deps W → List Command → Sys W → Sys W
run d [] s = s
run d (c ∷ cs) s = run d cs (execute d c s)
