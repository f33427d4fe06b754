-- ===== src/Orchestrator/Sound/Keeping.antt =====
-- The invariant on the audio source, through every write and every command of
-- backend/internal/orchestrator/orchestrator.go.
use po_c_go_live.Base.{ℕ, String, ◌≡◌, refl, ◌∙◌, sym, true, some, List, [], ◌∷◌, arith}
use po_c_go_live.Dict.{get, put-IsDistinct, del-IsDistinct, IsDistinct}
use po_c_go_live.Orchestrator.Models.{Position, Camera}
use po_c_go_live.Orchestrator.State.{Orch, Deps, Sys}
use po_c_go_live.Orchestrator.Commands.{Command, execute, run}
use po_c_go_live.Orchestrator.Assignment.{clear_camera_from_positions}
use po_c_go_live.Orchestrator.Scenes.{rename_scene_to, replace_positions, remove_scene}
use po_c_go_live.Orchestrator.Live.{preview_camera, preview_scene, commit_scene}
use po_c_go_live.Orchestrator.Sync.{see_stream, take_offline}
use po_c_go_live.Orchestrator.Step.{
  Step, Steps_induction, hides, adds, undoes_add, renames, removes, assigns, unassigns, sounds,
  sounds_hidden, adds_scene, undoes_scene, renames_scene, replaces, removes_scene, previews_camera,
  previews_scene, airs_camera, airs_scene, hears, sees, loses, forgets,
}
use po_c_go_live.Orchestrator.Refines.Methods.{execute-Steps}
use po_c_go_live.Orchestrator.Sound.{IsSounding}
use po_c_go_live.Orchestrator.Sound.Sections

see_stream-IsSounding :
    (base : String) (now : ℕ) (name : String) (o : Orch)
    → IsSounding o
    → IsSounding (see_stream base now name o).1
unfolding see_stream
see_stream-IsSounding base now name o h = grind (arith, put-IsDistinct)

take_offline-IsSounding :
    (now : ℕ) (id : String) (c : Camera) (o : Orch)
    → IsSounding o
    → IsSounding (take_offline now id c o).1
unfolding take_offline clear_camera_from_positions
take_offline-IsSounding now id c o h =
    Sections.vacate_first-IsSounding _
      (record {
        cameras_distinct = put-IsDistinct id _ o.cameras h.cameras_distinct;
        distinct = h.distinct;
        named = h.named;
        source = h.source;
      })
      _

-- The sections that write neither.
rest_IsSounding :
    (o o' : Orch)
    → o'.positions ≡ o.positions
    → o'.audio_position_id ≡ o.audio_position_id
    → IsDistinct o'.cameras
    → IsSounding o
    → IsSounding o'
rest_IsSounding o o' e f d h = record {
  cameras_distinct = d;
  distinct = rw e h.distinct;
  named = rw e h.named;
  source = λ i p a b. f ∙ h.source i p (rw e at a) b;
}

pub Step-IsSounding : (o o' : Orch) → Step (Unit {0}) o o' → IsSounding o → IsSounding o'
unfolding rename_scene_to replace_positions remove_scene preview_camera preview_scene commit_scene
Step-IsSounding o o' (hides e) h = rw e (Sections.register_hidden-IsSounding o h)
Step-IsSounding o o' (adds id name n i e) h = rw e (Sections.add_position-IsSounding o h id name n)
Step-IsSounding o o' (undoes_add id name n i e) h =
    rw e
      (Sections.without_position-IsSounding _ (Sections.add_position-IsSounding o h id name n) id)
Step-IsSounding o o' (renames id name i e) h =
    rw e (Sections.rename_position_to-IsSounding o h id name)
Step-IsSounding o o' (removes id i e) h = rw e (Sections.remove_position-IsSounding o h id)
Step-IsSounding o o' (assigns id camera_id n i e) h =
    rw e (Sections.commit_assign-IsSounding id camera_id o h)
Step-IsSounding o o' (unassigns id i e) h = rw e (Sections.commit_unassign-IsSounding o h id)
Step-IsSounding o o' (sounds id i e) h = rw e (Sections.commit_audio-IsSounding o h id)
Step-IsSounding o o' (sounds_hidden id e) h =
    rw e (Sections.commit_audio_internal-IsSounding o h id)
Step-IsSounding o o' (airs_camera key c g n e) h = rw e (Sections.commit_camera-IsSounding o h c.id)
Step-IsSounding o o' (sees base now name e) h = rw e (see_stream-IsSounding base now name o h)
Step-IsSounding o o' (loses now id c g e) h = rw e (take_offline-IsSounding now id c o h)
Step-IsSounding o o' (forgets id f e) h =
    rw e (rest_IsSounding o _ refl refl (del-IsDistinct id o.cameras h.cameras_distinct) h)
Step-IsSounding o o' (adds_scene sc c e) h =
    rw e (rest_IsSounding o _ refl refl h.cameras_distinct h)
Step-IsSounding o o' (undoes_scene sc u e) h =
    rw e (rest_IsSounding o _ refl refl h.cameras_distinct h)
Step-IsSounding o o' (airs_scene key sc g e) h =
    rw e (rest_IsSounding o _ refl refl h.cameras_distinct h)
Step-IsSounding o o' (hears b e) h = rw e (rest_IsSounding o _ refl refl h.cameras_distinct h)
Step-IsSounding o o' (renames_scene id name e) h =
    rest_IsSounding o o' (ground arith) (ground arith) (ground arith) h
Step-IsSounding o o' (replaces id ids e) h =
    rest_IsSounding o o' (ground arith) (ground arith) (ground arith) h
Step-IsSounding o o' (removes_scene id e) h =
    rest_IsSounding o o' (ground arith) (ground arith) (ground arith) h
Step-IsSounding o o' (previews_camera id e) h =
    rest_IsSounding o o' (ground arith) (ground arith) (ground arith) h
Step-IsSounding o o' (previews_scene id e) h =
    rest_IsSounding o o' (ground arith) (ground arith) (ground arith) h

module _ {W : Type 0} (d : Deps W) where
  execute-IsSounding :
      (c : Command) (s : Sys W) → IsSounding s.orch → IsSounding (execute d c s).orch
  execute-IsSounding c s h =
      Steps_induction IsSounding Step-IsSounding (execute-Steps d c s h.cameras_distinct (λ n. tt))
        h

  pub run-IsSounding :
      (cs : List Command) (s : Sys W) → IsSounding s.orch → IsSounding (run d cs s).orch
  unfolding run
  run-IsSounding [] s h = h
  run-IsSounding (c ∷ cs) s h = run-IsSounding cs (execute d c s) (execute-IsSounding c s h)

  -- After any commands that run one after the other, whatever the collaborators answer, at most one
  -- position is marked as the audio source, and it is the one that `audioPositionID` names. The
  -- state that they start from has this property and no position under the empty identifier.
  pub one_audio_source :
      (cs : List Command) (s : Sys W) (i j : String) (p q : Position)
      → IsSounding s.orch
      → get i (run d cs s).orch.positions ≡ some p
      → get j (run d cs s).orch.positions ≡ some q
      → p.is_audio_source ≡ true
      → q.is_audio_source ≡ true
      → (i ≡ j) × ((run d cs s).orch.audio_position_id ≡ i)
  one_audio_source cs s i j p q h a b x y =
      let k = run-IsSounding cs s h in (sym (k.source i p a x) ∙ k.source j q b y, k.source i p a x)
