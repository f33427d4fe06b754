-- ===== src/Orchestrator/OnAir/Keeping.antt =====
-- The invariant on what is in preview and on air, through every write and every command of
-- backend/internal/orchestrator/orchestrator.go.
use po_c_go_live.Base.{◌≡◌, inl, inr, none, List, [], ◌∷◌, arith, Option-cases}
use po_c_go_live.Dict.{get, IsDistinct}
use po_c_go_live.Orchestrator.Ids.{new_id}
use po_c_go_live.Orchestrator.State.{Orch, Deps, Sys}
use po_c_go_live.Orchestrator.Commands.{Command, execute, run}
use po_c_go_live.Orchestrator.Positions.{
  register_hidden, add_position, rename_position_to, remove_position,
}
use po_c_go_live.Orchestrator.Assignment.{
  commit_assign, commit_unassign, commit_audio, commit_audio_internal, vacate, vacate_first,
  clear_camera_from_positions,
}
use po_c_go_live.Orchestrator.Live.{commit_camera, commit_scene}
use po_c_go_live.Orchestrator.Sync.{see_stream, take_offline}
use po_c_go_live.Orchestrator.Step.{
  Step, Steps_induction, hides, adds, undoes_add, renames, removes, assigns, unassigns, sounds,
  sounds_hidden, adds_scene, undoes_scene, renames_scene, replaces, removes_scene, previews_camera,
  previews_scene, airs_camera, airs_scene, hears, sees, loses, forgets,
}
use po_c_go_live.Orchestrator.Refines.Methods.{execute-Steps}
use po_c_go_live.Orchestrator.Occupancy.{IsOccupied}
use po_c_go_live.Orchestrator.Occupancy.Keeping.{execute-IsOccupied}
use po_c_go_live.Orchestrator.OnAir.{IsOnAir}
use po_c_go_live.Orchestrator.OnAir.Sections.{
  rest_IsOnAir, with_scene-IsOnAir, undo_scene-IsOnAir, remove_scene-IsOnAir, preview_scene-IsOnAir,
  preview_camera-IsOnAir, rename_scene_to-IsOnAir, replace_positions-IsOnAir, commit_camera-IsOnAir,
  commit_scene-IsOnAir,
}

Step-IsOnAir : (o o' : Orch) → Step ⊥ o o' → IsOnAir o → IsOnAir o'
unfolding register_hidden add_position rename_position_to remove_position commit_assign
    commit_unassign commit_audio commit_audio_internal commit_camera commit_scene see_stream
    take_offline clear_camera_from_positions vacate_first vacate
Step-IsOnAir o o' (hides e) h = rest_IsOnAir o o' (ground arith) (ground arith) h
Step-IsOnAir o o' (adds id name n i e) h = rest_IsOnAir o o' (ground arith) (ground arith) h
Step-IsOnAir o o' (undoes_add id name n i e) h = rest_IsOnAir o o' (ground arith) (ground arith) h
Step-IsOnAir o o' (renames id name i e) h = rest_IsOnAir o o' (ground arith) (ground arith) h
Step-IsOnAir o o' (removes id i e) h = rest_IsOnAir o o' (ground arith) (ground arith) h
Step-IsOnAir o o' (assigns id camera_id n i e) h = rest_IsOnAir o o' (ground arith) (ground arith) h
Step-IsOnAir o o' (unassigns id i e) h = rest_IsOnAir o o' (ground arith) (ground arith) h
Step-IsOnAir o o' (sounds id i e) h = rest_IsOnAir o o' (ground arith) (ground arith) h
Step-IsOnAir o o' (sounds_hidden id e) h = rest_IsOnAir o o' (ground arith) (ground arith) h
Step-IsOnAir o o' (adds_scene sc c e) h = rw e (with_scene-IsOnAir o sc h)
Step-IsOnAir o o' (undoes_scene sc u e) h = elim (Option-cases (get sc.id o.scenes)) [
  | inl z ↦ rw e (undo_scene-IsOnAir o sc z h)
  | inr (x, z) ↦ absurd (u (ground arith))
]
Step-IsOnAir o o' (renames_scene id name e) h = rw e (rename_scene_to-IsOnAir o id name h)
Step-IsOnAir o o' (replaces id ids e) h = rw e (replace_positions-IsOnAir o id ids h)
Step-IsOnAir o o' (removes_scene id e) h = rw e (remove_scene-IsOnAir o id h)
Step-IsOnAir o o' (previews_camera id e) h = rw e (preview_camera-IsOnAir o id h)
Step-IsOnAir o o' (previews_scene id e) h = rw e (preview_scene-IsOnAir o id h)
Step-IsOnAir o o' (airs_camera key c g n e) h = rw e (commit_camera-IsOnAir o c.id h)
Step-IsOnAir o o' (airs_scene key sc g e) h = rw e (commit_scene-IsOnAir o key sc g h)
Step-IsOnAir o o' (hears b e) h = rest_IsOnAir o o' (ground arith) (ground arith) h
Step-IsOnAir o o' (sees base now name e) h = rest_IsOnAir o o' (ground arith) (ground arith) h
Step-IsOnAir o o' (loses now id c g e) h = rest_IsOnAir o o' (ground arith) (ground arith) h
Step-IsOnAir o o' (forgets id f e) h = rest_IsOnAir o o' (ground arith) (ground arith) h

module _ {W : Type 0} (d : Deps W) where
  -- `NewID` returns no identifier that a scene has, each time that a command may ask for one.
  unfoldable pub AreFresh : List Command → Sys W → Type 0
  AreFresh [] s = Unit
  AreFresh (c ∷ cs) s =
      (get (new_id (d.rand_read s.world).0) s.orch.scenes ≡ none) × AreFresh cs (execute d c s)

  execute-IsOnAir :
      (c : Command) (s : Sys W)
      → IsDistinct s.orch.cameras
      → get (new_id (d.rand_read s.world).0) s.orch.scenes ≡ none
      → IsOnAir s.orch
      → IsOnAir (execute d c s).orch
  execute-IsOnAir c s m f h =
      Steps_induction IsOnAir Step-IsOnAir (execute-Steps d c s m (λ n. n f)) h

  -- If `NewID` never returns an identifier that a scene has, then after any commands, whatever the
  -- collaborators answer, a scene that is on air or in preview is one of the scenes, and each scene
  -- is stored under its identifier. This goes on from a state where it holds and where the cameras
  -- keep the invariant of `IsOccupied`.
  pub run-IsOnAir :
      (cs : List Command) (s : Sys W)
      → IsOccupied s.orch
      → IsOnAir s.orch
      → AreFresh cs s
      → IsOnAir (run d cs s).orch
  unfolding run AreFresh
  run-IsOnAir [] s m h f = h
  run-IsOnAir (c ∷ cs) s m h (f, k) =
      run-IsOnAir cs (execute d c s) (execute-IsOccupied d c s m)
        (execute-IsOnAir c s m.cameras_distinct f h) k
