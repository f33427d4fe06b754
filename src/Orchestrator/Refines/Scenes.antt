-- ===== src/Orchestrator/Refines/Scenes.antt =====
-- The writes of the methods on scenes.
use po_c_go_live.Base.{String, ◌≡◌, ◌≢◌, none, refl, ◌⊎◌, inl, inr, List, arith}
use po_c_go_live.Dict.{get}
use po_c_go_live.Orchestrator.Ids.{new_id}
use po_c_go_live.Orchestrator.Models.{Scene, Err}
use po_c_go_live.Orchestrator.State.{Deps, Sys, ok, err, Result-cases, locked, read}
use po_c_go_live.Orchestrator.Names.{validate_scene_name, dedupe_position_ids}
use po_c_go_live.Orchestrator.Scenes.{
  check_scene, with_scene, without_scene, rename_scene_to, replace_positions, remove_scene,
  finish_update, create_scene, rename_scene, show_update, update_scene_positions, delete_scene,
}
use po_c_go_live.Orchestrator.Queries.{persist_scenes}
use po_c_go_live.Orchestrator.Quiet.{
  IsQuiet-bind, IsQuiet-read, IsQuiet, quiet_rules, apply-IsQuiet, persist_scenes-IsQuiet,
  bind-Steps,
}
use po_c_go_live.Orchestrator.Step.{
  Steps, still, one, adds_scene, undoes_scene, renames_scene, replaces, removes_scene,
}

module _ {W : Type 0} (d : Deps W) where
  create_refused :
      (name : String) (ids : List String) (s : Sys W) {e : Err}
      → validate_scene_name name ≡ err e
      → (create_scene d name ids s).1.orch ≡ s.orch
  unfolding create_scene
  create_refused name ids s h = ground arith

  -- The scene that `CreateScene` makes.
  abbrev pub drawn_scene : String → List String → Sys W → Scene
  drawn_scene t ids s = record {
    id = new_id (d.rand_read s.world).0;
    name = t;
    position_ids = dedupe_position_ids ids;
  }

  create_cases :
      (name t : String) (ids : List String) (s : Sys W)
      → validate_scene_name name ≡ ok t
      → let sc = drawn_scene t ids s in
        let o = (create_scene d name ids s).1.orch in
        (o ≡ s.orch)
        ⊎ ((o ≡ with_scene sc.id sc s.orch)
            × (check_scene t (dedupe_position_ids ids) s.orch).0 ≡ ok tt)
        ⊎ (o ≡ without_scene sc.id (with_scene sc.id sc s.orch))
  unfolding create_scene persist_scenes check_scene
  create_cases name t ids s h = ground arith

  rename_refused :
      (id name : String) (s : Sys W) {e : Err}
      → validate_scene_name name ≡ err e
      → (rename_scene d id name s).1.orch ≡ s.orch
  unfolding rename_scene
  rename_refused id name s h = ground arith

  rename_cases :
      (id name t : String) (s : Sys W)
      → validate_scene_name name ≡ ok t
      → ((rename_scene d id name s).1.orch ≡ s.orch)
        ⊎ ((rename_scene d id name s).1.orch ≡ (rename_scene_to id t s.orch).1)
  unfolding rename_scene persist_scenes
  rename_cases id name t s h = ground arith

  delete_cases :
      (id : String) (s : Sys W)
      → ((delete_scene d id s).1.orch ≡ s.orch)
        ⊎ ((delete_scene d id s).1.orch ≡ (remove_scene id s.orch).1)
  unfolding delete_scene persist_scenes
  delete_cases id s = ground arith

  pub create_scene-Steps :
      {C : Type 0} (name : String) (ids : List String) (s : Sys W)
      → (get (new_id (d.rand_read s.world).0) s.orch.scenes ≢ none → C)
      → Steps C s.orch (create_scene d name ids s).1.orch
  create_scene-Steps name ids s u = elim (Result-cases (validate_scene_name name)) [
    | inr (e, h) ↦ still (create_refused name ids s h)
    | inl (t, h) ↦ elim (create_cases name t ids s h) [
      | inl e ↦ still e
      | inr (inl (e, c)) ↦ one (adds_scene (drawn_scene t ids s) c e)
      | inr (inr e) ↦ one (undoes_scene (drawn_scene t ids s) u e)
    ]
  ]

  pub rename_scene-Steps :
      {C : Type 0} (id name : String) (s : Sys W) → Steps C s.orch (rename_scene d id name s).1.orch
  rename_scene-Steps id name s = elim (Result-cases (validate_scene_name name)) [
    | inr (e, h) ↦ still (rename_refused id name s h)
    | inl (t, h) ↦ elim (rename_cases id name t s h) [
      | inl e ↦ still e
      | inr e ↦ one (renames_scene id t e)
    ]
  ]

  pub delete_scene-Steps :
      {C : Type 0} (id : String) (s : Sys W) → Steps C s.orch (delete_scene d id s).1.orch
  delete_scene-Steps id s = elim (delete_cases id s) [
    | inl e ↦ still e
    | inr e ↦ one (removes_scene id e)
  ]

  show_update-IsQuiet :
      {C : Type 0} (id : String) (ids : List String) (sc : Scene)
      → IsQuiet C (show_update d id ids sc)
  unfolding show_update
  show_update-IsQuiet id ids sc = IsQuiet-bind (persist_scenes d) _ (persist_scenes-IsQuiet d) λ u.
      IsQuiet-bind (read _) (finish_update d ids sc) (IsQuiet-read _)
        λ is_live. search (quiet_rules, apply-IsQuiet d)

  pub update_scene_positions-Steps :
      {C : Type 0} (id : String) (ids : List String) (s : Sys W)
      → Steps C s.orch (update_scene_positions d id ids s).1.orch
  unfolding update_scene_positions
  update_scene_positions-Steps id ids s =
      bind-Steps (locked (replace_positions id (dedupe_position_ids ids))) _ s
        (one (replaces id _ refl)) (λ sc. show_update-IsQuiet id _ sc)
