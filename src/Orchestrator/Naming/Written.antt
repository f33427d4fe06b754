-- ===== src/Orchestrator/Naming/Written.antt =====
-- The sections that write names, on the maps.
use po_c_go_live.Base.{
  String, ◌≡◌, refl, none, some, List, arith, ◌⊎◌, inl, inr, Option-cases, Bool-cases, ◌==◌, false,
}
use po_c_go_live.Dict.{get, put, find, del}
use po_c_go_live.Orchestrator.Models.{Position, Scene, simple_position_id}
use po_c_go_live.Orchestrator.State.{Orch, ok, Result-cases}
use po_c_go_live.Orchestrator.Names.{
  position_named, other_position_named, scene_named, other_scene_named, validate_scene_position_ids,
}
use po_c_go_live.Orchestrator.Positions.{
  register_hidden, add_position, rename_position_to, remove_position,
}
use po_c_go_live.Orchestrator.Scenes.{check_scene, rename_scene_to, replace_positions, remove_scene}
use po_c_go_live.Orchestrator.Naming.{AreNamed, AreTitled}
use po_c_go_live.Orchestrator.Naming.Sections

abbrev plain : String → String → Position
plain id name = record { id = id; name = name; camera_id = ""; is_audio_source = false }

register_hidden_cases :
    (o : Orch)
    → ((register_hidden o).1.positions ≡ o.positions)
      ⊎ ((register_hidden o).1.positions
          ≡ put simple_position_id (plain simple_position_id simple_position_id) o.positions)
unfolding register_hidden
register_hidden_cases o = ground arith

pub register_hidden-AreNamed :
    (o : Orch) → AreNamed o.positions → AreNamed (register_hidden o).1.positions
register_hidden-AreNamed o h = elim (register_hidden_cases o) [
  | inl e ↦ rw e h
  | inr e ↦
      rw e (Sections.hide-AreNamed (plain simple_position_id simple_position_id) o.positions refl h)
]

add_position_cases :
    (id name : String) (o : Orch)
    → ((add_position id name o).1.positions ≡ o.positions)
      ⊎ (((add_position id name o).1.positions ≡ put id (plain id name) o.positions)
          × (find (position_named name) o.positions ≡ none))
unfolding add_position
add_position_cases id name o = elim (Option-cases (find (position_named name) o.positions)) [
  | inl z ↦ inr (ground arith, z)
  | inr (e, z) ↦ inl (ground arith)
]

pub add_position-AreNamed :
    (id name : String) (o : Orch)
    → AreNamed o.positions
    → AreNamed (add_position id name o).1.positions
add_position-AreNamed id name o h = elim (add_position_cases id name o) [
  | inl e ↦ rw e h
  | inr (e, f) ↦ rw e (Sections.add-AreNamed id name (plain id name) o.positions refl refl f h)
]

rename_position_to_cases :
    (id name : String) (o : Orch)
    → ((rename_position_to id name o).1.positions ≡ o.positions)
      ⊎ ((p : Position) × (get id o.positions ≡ some p)
          × (find (other_position_named id name) o.positions ≡ none)
          × ((rename_position_to id name o).1.positions
              ≡ put id (record p { name = name }) o.positions))
unfolding rename_position_to
rename_position_to_cases id name o = elim (Option-cases (get id o.positions)) [
  | inl z ↦ inl (ground arith)
  | inr (p, z) ↦ elim (Option-cases (find (other_position_named id name) o.positions)) [
    | inr (e, f) ↦ inl (ground arith)
    | inl f ↦ elim (Bool-cases (p.name == name)) [
      | inl b ↦ inl (ground arith)
      | inr b ↦ inr (p, z, f, ground arith)
    ]
  ]
]

pub rename_position_to-AreNamed :
    (id name : String) (o : Orch)
    → AreNamed o.positions
    → AreNamed (rename_position_to id name o).1.positions
rename_position_to-AreNamed id name o h = elim (rename_position_to_cases id name o) [
  | inl e ↦ rw e h
  | inr (p, z, f, e) ↦ rw e (
      Sections.rename-AreNamed id name (record p { name = name }) o.positions (h.key id p z) refl f
        h)
]

remove_position_cases :
    (id : String) (o : Orch)
    → ((remove_position id o).1.positions ≡ o.positions)
      ⊎ ((remove_position id o).1.positions ≡ del id o.positions)
unfolding remove_position
remove_position_cases id o = ground arith

pub remove_position-AreNamed :
    (id : String) (o : Orch) → AreNamed o.positions → AreNamed (remove_position id o).1.positions
remove_position-AreNamed id o h = elim (remove_position_cases id o) [
  | inl e ↦ rw e h
  | inr e ↦ rw e (Sections.del-AreNamed id o.positions h)
]

pub check_scene_none :
    (name : String) (ids : List String) (o : Orch)
    → (check_scene name ids o).0 ≡ ok tt
    → find (scene_named name) o.scenes ≡ none
unfolding check_scene
check_scene_none name ids o e = elim (Option-cases (find (scene_named name) o.scenes)) [
  | inl z ↦ z
  | inr (x, z) ↦ absurd (ground arith)
]

rename_scene_to_cases :
    (id name : String) (o : Orch)
    → ((rename_scene_to id name o).1.scenes ≡ o.scenes)
      ⊎ ((sc : Scene) × (find (other_scene_named id name) o.scenes ≡ none)
          × ((rename_scene_to id name o).1.scenes ≡ put id (record sc { name = name }) o.scenes))
unfolding rename_scene_to
rename_scene_to_cases id name o = elim (Option-cases (get id o.scenes)) [
  | inl z ↦ inl (ground arith)
  | inr (sc, z) ↦ elim (Option-cases (find (other_scene_named id name) o.scenes)) [
    | inr (e, f) ↦ inl (ground arith)
    | inl f ↦ elim (Bool-cases (sc.name == name)) [
      | inl b ↦ inl (ground arith)
      | inr b ↦ inr (sc, f, ground arith)
    ]
  ]
]

pub rename_scene_to-AreTitled :
    (id name : String) (o : Orch)
    → AreTitled o.scenes
    → AreTitled (rename_scene_to id name o).1.scenes
rename_scene_to-AreTitled id name o h = elim (rename_scene_to_cases id name o) [
  | inl e ↦ rw e h
  | inr (sc, f, e) ↦
      rw e (Sections.rename-AreTitled id name (record sc { name = name }) o.scenes refl f h)
]

replace_positions_cases :
    (id : String) (ids : List String) (o : Orch)
    → ((replace_positions id ids o).1.scenes ≡ o.scenes)
      ⊎ ((sc : Scene) × (get id o.scenes ≡ some sc)
          × ((replace_positions id ids o).1.scenes
              ≡ put id (record sc { position_ids = ids }) o.scenes))
unfolding replace_positions
replace_positions_cases id ids o = elim (Option-cases (get id o.scenes)) [
  | inl z ↦ inl (ground arith)
  | inr (sc, z) ↦ elim (Result-cases (validate_scene_position_ids ids o.positions)) [
    | inr (e, v) ↦ inl (ground arith)
    | inl (u, v) ↦ inr (sc, z, ground arith)
  ]
]

pub replace_positions-AreTitled :
    (id : String) (ids : List String) (o : Orch)
    → AreTitled o.scenes
    → AreTitled (replace_positions id ids o).1.scenes
replace_positions-AreTitled id ids o h = elim (replace_positions_cases id ids o) [
  | inl e ↦ rw e h
  | inr (sc, z, e) ↦
      rw e (Sections.keep-AreTitled id sc (record sc { position_ids = ids }) o.scenes z refl h)
]

remove_scene_cases :
    (id : String) (o : Orch)
    → ((remove_scene id o).1.scenes ≡ o.scenes) ⊎ ((remove_scene id o).1.scenes ≡ del id o.scenes)
unfolding remove_scene
remove_scene_cases id o = ground arith

pub remove_scene-AreTitled :
    (id : String) (o : Orch) → AreTitled o.scenes → AreTitled (remove_scene id o).1.scenes
remove_scene-AreTitled id o h = elim (remove_scene_cases id o) [
  | inl e ↦ rw e h
  | inr e ↦ rw e (Sections.del-AreTitled id o.scenes h)
]
