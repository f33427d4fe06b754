-- ===== src/Orchestrator/Occupancy/Keeping.antt =====
-- The invariant on who holds a camera, through every write and every command of
-- backend/internal/orchestrator/orchestrator.go.
use po_c_go_live.Base.{◌≡◌, refl, List, [], ◌∷◌}
use po_c_go_live.Orchestrator.State.{Orch, Deps, Sys}
use po_c_go_live.Orchestrator.Commands.{Command, execute, run}
use po_c_go_live.Orchestrator.Step.{
  Step, Steps_induction, online_at-some, hides, adds, undoes_add, renames, removes, assigns,
  unassigns, sounds, sounds_hidden, adds_scene, undoes_scene, renames_scene, replaces,
  removes_scene, previews_camera, previews_scene, airs_camera, airs_scene, hears, sees, loses,
  forgets,
}
use po_c_go_live.Orchestrator.Refines.Methods.{execute-Steps}
use po_c_go_live.Orchestrator.Occupancy.{IsOccupied}
use po_c_go_live.Orchestrator.Occupancy.Tame
use po_c_go_live.Orchestrator.Occupancy.Tame.{IsTame, IsTame-IsOccupied, IsTame-refl}
use po_c_go_live.Orchestrator.Occupancy.Gaining.{
  commit_assign-IsOccupied, commit_camera-IsOccupied, see_stream-IsOccupied,
}
use po_c_go_live.Orchestrator.Occupancy.Losing.{take_offline-IsOccupied, forget-IsOccupied}

-- A tame write, given as an equation.
tame : {o o' p : Orch} → IsTame o p → o' ≡ p → IsOccupied o → IsOccupied o'
tame t e h = rw e (IsTame-IsOccupied _ _ t h)

Step-IsOccupied : (o o' : Orch) → Step (Unit {0}) o o' → IsOccupied o → IsOccupied o'
Step-IsOccupied o o' (hides e) h = tame (Tame.register_hidden-IsTame o) e h
Step-IsOccupied o o' (adds id name n i e) h = tame (Tame.add_position-IsTame o id name) e h
Step-IsOccupied o o' (undoes_add id name n i e) h = rw e (
    IsTame-IsOccupied _ _ (Tame.without_position-IsTame _ id)
      (IsTame-IsOccupied _ _ (Tame.add_position-IsTame o id name) h))
Step-IsOccupied o o' (renames id name i e) h = tame (Tame.rename_position_to-IsTame o id name) e h
Step-IsOccupied o o' (removes id i e) h = tame (Tame.remove_position-IsTame o id) e h
Step-IsOccupied o o' (assigns id camera_id n i e) h =
    rw e (commit_assign-IsOccupied id camera_id o n h)
Step-IsOccupied o o' (unassigns id i e) h = tame (Tame.commit_unassign-IsTame o id) e h
Step-IsOccupied o o' (sounds id i e) h = tame (Tame.commit_audio-IsTame o id _) e h
Step-IsOccupied o o' (sounds_hidden id e) h = tame (Tame.commit_audio_internal-IsTame o id _) e h
Step-IsOccupied o o' (adds_scene sc c e) h = tame (IsTame-refl o _ refl refl) e h
Step-IsOccupied o o' (undoes_scene sc u e) h = tame (IsTame-refl o _ refl refl) e h
Step-IsOccupied o o' (renames_scene id name e) h = tame (Tame.rename_scene_to-IsTame o id name) e h
Step-IsOccupied o o' (replaces id ids e) h = tame (Tame.replace_positions-IsTame o id ids) e h
Step-IsOccupied o o' (removes_scene id e) h = tame (Tame.remove_scene-IsTame o id) e h
Step-IsOccupied o o' (previews_camera id e) h = tame (Tame.preview_camera-IsTame o id) e h
Step-IsOccupied o o' (previews_scene id e) h = tame (Tame.preview_scene-IsTame o id) e h
Step-IsOccupied o o' (airs_camera key c g n e) h = rw e (
    commit_camera-IsOccupied c.id o (online_at-some key c.id c o.cameras g n (h.camera_key key c g))
      h)
Step-IsOccupied o o' (airs_scene key sc g e) h = tame (Tame.commit_scene-IsTame o sc.id) e h
Step-IsOccupied o o' (hears b e) h = tame (IsTame-refl o _ refl refl) e h
Step-IsOccupied o o' (sees base now name e) h = rw e (see_stream-IsOccupied base now name o h)
Step-IsOccupied o o' (loses now id c g e) h = rw e (take_offline-IsOccupied now id c o g h)
Step-IsOccupied o o' (forgets id f e) h = rw e (forget-IsOccupied id o f h)

module _ {W : Type 0} (d : Deps W) where
  pub execute-IsOccupied :
      (c : Command) (s : Sys W) → IsOccupied s.orch → IsOccupied (execute d c s).orch
  execute-IsOccupied c s h =
      Steps_induction IsOccupied Step-IsOccupied (execute-Steps d c s h.cameras_distinct (λ n. tt))
        h

  -- Whatever commands are given, and whatever OBS, the media server and the stores answer: no camera
  -- is ever in two positions, and a position holds only a camera that is known and online. This
  -- goes on from any state where it holds, and the cameras are stored under their identifiers.
  pub run-IsOccupied :
      (cs : List Command) (s : Sys W) → IsOccupied s.orch → IsOccupied (run d cs s).orch
  unfolding run
  run-IsOccupied [] s h = h
  run-IsOccupied (c ∷ cs) s h = run-IsOccupied cs (execute d c s) (execute-IsOccupied c s h)
