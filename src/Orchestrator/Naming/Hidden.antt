-- ===== src/Orchestrator/Naming/Hidden.antt =====
-- The hidden position of backend/internal/orchestrator/orchestrator.go, which the guards of
-- `ErrReservedPosition` keep out of reach.
use po_c_go_live.Base.{String, ◌≡◌, ◌∙◌, false, inl, inr, some, List, [], ◌∷◌, arith, Option-cases}
use po_c_go_live.Dict.{Dict, get, put, del, get-put, get-del}
use po_c_go_live.Orchestrator.Models.{Position, simple_position_id, is_simple}
use po_c_go_live.Orchestrator.State.{Orch, Deps, Sys}
use po_c_go_live.Orchestrator.Positions.{
  register_hidden, add_position, rename_position_to, remove_position,
}
use po_c_go_live.Orchestrator.Scenes.{rename_scene_to, replace_positions, remove_scene}
use po_c_go_live.Orchestrator.Live.{preview_camera, preview_scene, commit_scene}
use po_c_go_live.Orchestrator.Sync.{see_stream}
use po_c_go_live.Orchestrator.Commands.{Command, execute, run}
use po_c_go_live.Orchestrator.Step.{
  Step, Steps_induction, hides, adds, undoes_add, renames, removes, assigns, unassigns, sounds,
  sounds_hidden, adds_scene, undoes_scene, renames_scene, replaces, removes_scene, previews_camera,
  previews_scene, airs_camera, airs_scene, hears, sees, loses, forgets,
}
use po_c_go_live.Orchestrator.Refines.Methods.{execute-Steps}
use po_c_go_live.Orchestrator.Sound.{IsSounding}
use po_c_go_live.Orchestrator.Sound.Keeping.{Step-IsSounding}
use po_c_go_live.Orchestrator.Naming.Same
use po_c_go_live.Orchestrator.Naming.Same.{name_at}

-- The hidden position is there, under its identifier and with its name.
abbrev pub IsHidden : Orch → Type 0
IsHidden o = name_at simple_position_id o.positions ≡ some (simple_position_id, simple_position_id)

put_other :
    (id : String) (q : Position) (m : Dict Position)
    → is_simple id ≡ false
    → name_at simple_position_id (put id q m) ≡ name_at simple_position_id m
put_other id q m n = ground (arith, get-put id simple_position_id q m)

del_other :
    (id : String) (m : Dict Position)
    → is_simple id ≡ false
    → name_at simple_position_id (del id m) ≡ name_at simple_position_id m
del_other id m n = ground (arith, get-del id simple_position_id m)

registered : (o : Orch) → IsHidden o → IsHidden (register_hidden o).1
unfolding register_hidden
registered o h = elim (Option-cases (get simple_position_id o.positions)) [
  | inl z ↦ ground arith
  | inr (p, z) ↦ ground arith
]

added :
    (id name : String) (o : Orch)
    → is_simple id ≡ false
    → IsHidden o
    → IsHidden (add_position id name o).1
unfolding add_position
added id name o n h =
    let p : Position = record { id = id; name = name; camera_id = ""; is_audio_source = false } in
    ground (arith, put_other id p o.positions n)

renamed :
    (id name : String) (o : Orch)
    → is_simple id ≡ false
    → IsHidden o
    → IsHidden (rename_position_to id name o).1
unfolding rename_position_to
renamed id name o n h = elim (Option-cases (get id o.positions)) [
  | inl z ↦ ground arith
  | inr (p, z) ↦ ground (arith, put_other id (record p { name = name }) o.positions n)
]

removed :
    (id : String) (o : Orch) → is_simple id ≡ false → IsHidden o → IsHidden (remove_position id o).1
unfolding remove_position
removed id o n h = ground (arith, del_other id o.positions n)

Step-IsHidden : (o o' : Orch) → Step (Unit {0}) o o' → IsSounding o → IsHidden o → IsHidden o'
unfolding rename_scene_to replace_positions remove_scene preview_camera preview_scene commit_scene
    see_stream
Step-IsHidden o o' (hides e) s h = rw e (registered o h)
Step-IsHidden o o' (adds id name n i e) s h = rw e (added id name o i h)
Step-IsHidden o o' (undoes_add id name n i e) s h =
    rw e (del_other id (add_position id name o).1.positions i ∙ added id name o i h)
Step-IsHidden o o' (renames id name i e) s h = rw e (renamed id name o i h)
Step-IsHidden o o' (removes id i e) s h = rw e (removed id o i h)
Step-IsHidden o o' (assigns id camera_id n i e) s h =
    rw e (Same.commit_assign-AreSame id camera_id o s.distinct simple_position_id ∙ h)
Step-IsHidden o o' (unassigns id i e) s h =
    rw e (Same.commit_unassign-AreSame id o simple_position_id ∙ h)
Step-IsHidden o o' (sounds id i e) s h =
    rw e (Same.commit_audio-AreSame id _ o simple_position_id ∙ h)
Step-IsHidden o o' (sounds_hidden id e) s h =
    rw e (Same.commit_audio_internal-AreSame id _ o simple_position_id ∙ h)
Step-IsHidden o o' (adds_scene sc c e) s h = ground arith
Step-IsHidden o o' (undoes_scene sc u e) s h = ground arith
Step-IsHidden o o' (renames_scene id name e) s h = ground arith
Step-IsHidden o o' (replaces id ids e) s h = ground arith
Step-IsHidden o o' (removes_scene id e) s h = ground arith
Step-IsHidden o o' (previews_camera id e) s h = ground arith
Step-IsHidden o o' (previews_scene id e) s h = ground arith
Step-IsHidden o o' (airs_camera key c g n e) s h =
    rw e (Same.commit_camera-AreSame c.id o simple_position_id ∙ h)
Step-IsHidden o o' (airs_scene key sc g e) s h = ground arith
Step-IsHidden o o' (hears b e) s h = ground arith
Step-IsHidden o o' (sees base now name e) s h = ground arith
Step-IsHidden o o' (loses now id c g e) s h =
    rw e (Same.take_offline-AreSame now id c o s.distinct simple_position_id ∙ h)
Step-IsHidden o o' (forgets id f e) s h = ground arith

abbrev Holds : Orch → Type 0
Holds o = IsSounding o × IsHidden o

Step-Holds : (o o' : Orch) → Step (Unit {0}) o o' → Holds o → Holds o'
Step-Holds o o' k (s, h) = (Step-IsSounding o o' k s, Step-IsHidden o o' k s h)

module _ {W : Type 0} (d : Deps W) where
  run-Holds : (cs : List Command) (s : Sys W) → Holds s.orch → Holds (run d cs s).orch
  unfolding run
  run-Holds [] s h = h
  run-Holds (c ∷ cs) s h =
      run-Holds cs (execute d c s)
        (Steps_induction Holds Step-Holds (execute-Steps d c s h.0.cameras_distinct (λ n. tt)) h)

  -- Once the hidden position is there, it stays, with its identifier and its name, whatever is asked of any
  -- identifier, whatever identifiers are drawn, and whatever the collaborators answer. This goes on from any
  -- state where the invariant on the audio source holds.
  pub run-IsHidden :
      (cs : List Command) (s : Sys W)
      → IsSounding s.orch
      → IsHidden s.orch
      → IsHidden (run d cs s).orch
  run-IsHidden cs s h n = (run-Holds cs s (h, n)).1
