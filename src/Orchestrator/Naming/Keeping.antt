-- ===== src/Orchestrator/Naming/Keeping.antt =====
-- The invariant on names, through every write and every command of
-- backend/internal/orchestrator/orchestrator.go.
use po_c_go_live.Base.{◌≡◌, refl, List, [], ◌∷◌, arith}
use po_c_go_live.Dict.{IsDistinct}
use po_c_go_live.Orchestrator.State.{Orch, Deps, Sys}
use po_c_go_live.Orchestrator.Positions.{
  register_hidden, add_position, rename_position_to, remove_position,
}
use po_c_go_live.Orchestrator.Scenes.{rename_scene_to, replace_positions, remove_scene}
use po_c_go_live.Orchestrator.Assignment.{
  commit_assign, commit_unassign, commit_audio, commit_audio_internal, clear_camera_from_positions,
  vacate_first, vacate,
}
use po_c_go_live.Orchestrator.Live.{preview_camera, preview_scene, commit_camera, commit_scene}
use po_c_go_live.Orchestrator.Sync.{see_stream, take_offline}
use po_c_go_live.Orchestrator.Commands.{Command, execute, run}
use po_c_go_live.Orchestrator.Step.{
  Step, Steps_induction, hides, adds, undoes_add, renames, removes, assigns, unassigns, sounds,
  sounds_hidden, adds_scene, undoes_scene, renames_scene, replaces, removes_scene, previews_camera,
  previews_scene, airs_camera, airs_scene, hears, sees, loses, forgets,
}
use po_c_go_live.Orchestrator.Refines.Methods.{execute-Steps}
use po_c_go_live.Orchestrator.Sound.{IsSounding}
use po_c_go_live.Orchestrator.Sound.Keeping.{Step-IsSounding}
use po_c_go_live.Orchestrator.Naming.{AreNamed, AreTitled, IsNamed}
use po_c_go_live.Orchestrator.Naming.Same
use po_c_go_live.Orchestrator.Naming.Sections
use po_c_go_live.Orchestrator.Naming.Written.{
  register_hidden-AreNamed, add_position-AreNamed, rename_position_to-AreNamed,
  remove_position-AreNamed, check_scene_none, rename_scene_to-AreTitled,
  replace_positions-AreTitled, remove_scene-AreTitled,
}

-- What a write of one of the two maps keeps.
named : (o o' : Orch) → AreNamed o'.positions → o'.scenes ≡ o.scenes → IsNamed o → IsNamed o'
named o o' p e h = record { positions = p; scenes = rw e h.scenes }

titled : (o o' : Orch) → o'.positions ≡ o.positions → AreTitled o'.scenes → IsNamed o → IsNamed o'
titled o o' e p h = record { positions = rw e h.positions; scenes = p }

rest : (o o' : Orch) → o'.positions ≡ o.positions → o'.scenes ≡ o.scenes → IsNamed o → IsNamed o'
rest o o' e f h = record { positions = rw e h.positions; scenes = rw f h.scenes }

-- A section that changes no name of a position.
same :
    (o o' p : Orch)
    → o' ≡ p
    → Same.AreSame o.positions p.positions
    → p.scenes ≡ o.scenes
    → IsNamed o
    → IsNamed o'
same o o' p e s f h =
    rw e (named o p (Sections.same-AreNamed o.positions p.positions s h.positions) f h)

Step-IsNamed :
    (o o' : Orch) → Step (Unit {0}) o o' → IsDistinct o.positions → IsNamed o → IsNamed o'
unfolding register_hidden add_position rename_position_to remove_position commit_assign
    commit_unassign commit_audio commit_audio_internal commit_camera commit_scene preview_camera
    preview_scene see_stream take_offline clear_camera_from_positions vacate_first vacate
    rename_scene_to replace_positions remove_scene
Step-IsNamed o o' (hides e) m h =
    rw e (named o _ (register_hidden-AreNamed o h.positions) (ground arith) h)
Step-IsNamed o o' (adds id name n i e) m h =
    rw e (named o _ (add_position-AreNamed id name o h.positions) (ground arith) h)
Step-IsNamed o o' (undoes_add id name n i e) m h = rw e (
    named o _ (Sections.del-AreNamed id _ (add_position-AreNamed id name o h.positions))
      (ground arith) h)
Step-IsNamed o o' (renames id name i e) m h =
    rw e (named o _ (rename_position_to-AreNamed id name o h.positions) (ground arith) h)
Step-IsNamed o o' (removes id i e) m h =
    rw e (named o _ (remove_position-AreNamed id o h.positions) (ground arith) h)
Step-IsNamed o o' (assigns id camera_id n i e) m h =
    same o o' _ e (Same.commit_assign-AreSame id camera_id o m) (ground arith) h
Step-IsNamed o o' (unassigns id i e) m h =
    same o o' _ e (Same.commit_unassign-AreSame id o) (ground arith) h
Step-IsNamed o o' (sounds id i e) m h =
    same o o' _ e (Same.commit_audio-AreSame id _ o) (ground arith) h
Step-IsNamed o o' (sounds_hidden id e) m h =
    same o o' _ e (Same.commit_audio_internal-AreSame id _ o) (ground arith) h
Step-IsNamed o o' (adds_scene sc c e) m h = rw e (
    titled o _ refl
      (Sections.add-AreTitled sc.id sc.name sc o.scenes refl
        (check_scene_none sc.name sc.position_ids o c) h.scenes)
      h)
Step-IsNamed o o' (undoes_scene sc u e) m h =
    rw e (titled o _ refl (Sections.undo-AreTitled sc.id sc o.scenes h.scenes) h)
Step-IsNamed o o' (renames_scene id name e) m h =
    rw e (titled o _ (ground arith) (rename_scene_to-AreTitled id name o h.scenes) h)
Step-IsNamed o o' (replaces id ids e) m h =
    rw e (titled o _ (ground arith) (replace_positions-AreTitled id ids o h.scenes) h)
Step-IsNamed o o' (removes_scene id e) m h =
    rw e (titled o _ (ground arith) (remove_scene-AreTitled id o h.scenes) h)
Step-IsNamed o o' (previews_camera id e) m h = rest o o' (ground arith) (ground arith) h
Step-IsNamed o o' (previews_scene id e) m h = rest o o' (ground arith) (ground arith) h
Step-IsNamed o o' (airs_camera key c g n e) m h =
    same o o' _ e (Same.commit_camera-AreSame c.id o) (ground arith) h
Step-IsNamed o o' (airs_scene key sc g e) m h = rest o o' (ground arith) (ground arith) h
Step-IsNamed o o' (hears b e) m h = rest o o' (ground arith) (ground arith) h
Step-IsNamed o o' (sees base now name e) m h = rest o o' (ground arith) (ground arith) h
Step-IsNamed o o' (loses now id c g e) m h =
    same o o' _ e (Same.take_offline-AreSame now id c o m) (ground arith) h
Step-IsNamed o o' (forgets id f e) m h = rest o o' (ground arith) (ground arith) h

-- The invariant on the audio source comes along, as it keeps the positions one entry to a key.
abbrev Holds : Orch → Type 0
Holds o = IsSounding o × IsNamed o

Step-Holds : (o o' : Orch) → Step (Unit {0}) o o' → Holds o → Holds o'
Step-Holds o o' k (s, h) = (Step-IsSounding o o' k s, Step-IsNamed o o' k s.distinct h)

module _ {W : Type 0} (d : Deps W) where
  run-Holds : (cs : List Command) (s : Sys W) → Holds s.orch → Holds (run d cs s).orch
  unfolding run
  run-Holds [] s h = h
  run-Holds (c ∷ cs) s h =
      run-Holds cs (execute d c s)
        (Steps_induction Holds Step-Holds (execute-Steps d c s h.0.cameras_distinct (λ n. tt)) h)

  -- After any commands, whatever the collaborators answer, also when a save fails: no two positions
  -- but the hidden one have one name, no two scenes have one name, and each position is stored under
  -- its identifier. This goes on from any state where it holds and where the invariant on the audio
  -- source does.
  pub run-IsNamed :
      (cs : List Command) (s : Sys W)
      → IsSounding s.orch
      → IsNamed s.orch
      → IsNamed (run d cs s).orch
  run-IsNamed cs s h n = (run-Holds cs s (h, n)).1
