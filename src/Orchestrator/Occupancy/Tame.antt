-- ===== src/Orchestrator/Occupancy/Tame.antt =====
-- The sections that give no position a camera and leave the cameras alone.
use po_c_go_live.Base.{
  ap, sym, ◌∙◌, String, ◌≡◌, refl, ◌⊎◌, inl, inr, true, some, List, arith, Option-cases, Bool-cases,
}
use po_c_go_live.Dict.{get, put, IsDistinct, put-IsDistinct, del-IsDistinct}
use po_c_go_live.Orchestrator.Models.{Position, simple_position_id}
use po_c_go_live.Orchestrator.State.{Orch}
use po_c_go_live.Orchestrator.Names.{position_named, exists}
use po_c_go_live.Orchestrator.Positions.{
  register_hidden, add_position, rename_position_to, remove_position, without_position,
  with_position,
}
use po_c_go_live.Orchestrator.Assignment.{
  commit_unassign, commit_audio, commit_audio_internal, demote,
}
use po_c_go_live.Orchestrator.Scenes.{rename_scene_to, replace_positions, remove_scene}
use po_c_go_live.Orchestrator.Live.{preview_camera, preview_scene, commit_scene}
use po_c_go_live.Orchestrator.Occupancy.{IsOccupied}
use po_c_go_live.Orchestrator.Occupancy.Moves.{
  Keeps, Keeps-refl, Keeps-trans, Keeps-IsOnce, put-Keeps, del-Keeps, demote-Keeps,
  demote-IsDistinct, get-demote,
}

pub record IsTame (o o' : Orch) : Type 0 where
  pub keeps : Keeps o.positions o'.positions
  pub distinct : IsDistinct o.positions → IsDistinct o'.positions
  pub cameras : o'.cameras ≡ o.cameras

pub IsTame-IsOccupied : (o o' : Orch) → IsTame o o' → IsOccupied o → IsOccupied o'
IsTame-IsOccupied o o' t h = record {
  cameras_distinct = rw t.cameras h.cameras_distinct;
  camera_key = λ k c g. h.camera_key k c (rw t.cameras at g);
  positions_once = Keeps-IsOnce t.keeps (t.distinct h.positions_once.distinct) h.positions_once;
  holds_online = λ i q a n.
      let (p, b, e) = t.keeps.at i q a n in
      rw (t.cameras, ← e) (h.holds_online i p b (λ z. n (sym e ∙ z)));
}

module _ (o : Orch) where
  pub IsTame-refl : (o' : Orch) → o'.positions ≡ o.positions → o'.cameras ≡ o.cameras → IsTame o o'
  IsTame-refl o' e c = record {
    keeps = rw e (Keeps-refl o.positions);
    distinct = λ d. rw e d;
    cameras = c;
  }

  IsTame-put :
      (id : String) (q : Position) (o' : Orch)
      → o'.positions ≡ put id q o.positions
      → o'.cameras ≡ o.cameras
      → (q.camera_id ≡ "")
        ⊎ ((p : Position) × (get id o.positions ≡ some p) × (p.camera_id ≡ q.camera_id))
      → IsTame o o'
  IsTame-put id q o' e c h = record {
    keeps = rw e (put-Keeps id q o.positions h);
    distinct = λ d. rw e (put-IsDistinct id q o.positions d);
    cameras = c;
  }

  pub register_hidden-IsTame : IsTame o (register_hidden o).1
  unfolding register_hidden
  register_hidden-IsTame = elim (Option-cases (get simple_position_id o.positions)) [
    | inl z ↦ rw (z, register_hidden) (IsTame-put simple_position_id _ _ refl refl (inl refl))
    | inr (p, z) ↦ rw (z, register_hidden) (IsTame-refl _ refl refl)
  ]

  pub add_position-IsTame : (id name : String) → IsTame o (add_position id name o).1
  unfolding add_position
  add_position-IsTame id name = elim (Bool-cases (exists (position_named name) o.positions)) [
    | inl b ↦ rw (b, add_position) (IsTame-refl o refl refl)
    | inr b ↦ rw (b, add_position) (IsTame-put id _ _ refl refl (inl refl))
  ]

  pub without_position-IsTame : (id : String) → IsTame o (without_position id o)
  without_position-IsTame id = record {
    keeps = del-Keeps id o.positions;
    distinct = del-IsDistinct id o.positions;
    cameras = refl;
  }

  pub rename_position_to-IsTame : (id name : String) → IsTame o (rename_position_to id name o).1
  unfolding rename_position_to
  rename_position_to-IsTame id name = elim (Option-cases (get id o.positions)) [
    | inl z ↦ rw (z, rename_position_to) (IsTame-refl o refl refl)
    | inr (p, z) ↦ elim (rename_cases p z) [
      | inl e ↦ IsTame-refl _ (ap (λ (x : Orch). x.positions) e) (ap (λ (x : Orch). x.cameras) e)
      | inr e ↦
          IsTame-put id _ _ (ap (λ (x : Orch). x.positions) e) (ap (λ (x : Orch). x.cameras) e)
            (inr (p, z, refl))
    ]
  ]
    where
      rename_cases :
          (p : Position)
          → get id o.positions ≡ some p
          → ((rename_position_to id name o).1 ≡ o)
            ⊎ ((rename_position_to id name o).1 ≡ with_position id (record p { name = name }) o)
      rename_cases p z = ground arith

  pub remove_position-IsTame : (id : String) → IsTame o (remove_position id o).1
  unfolding remove_position
  remove_position-IsTame id = elim (Option-cases (get id o.positions)) [
    | inl z ↦ rw (z, remove_position) (IsTame-refl o refl refl)
    | inr (p, z) ↦
        rw (z, remove_position)
          (record {
            keeps = del-Keeps id o.positions;
            distinct = del-IsDistinct id o.positions;
            cameras = refl;
          })
  ]

  pub commit_unassign-IsTame : (id : String) → IsTame o (commit_unassign id o).1
  unfolding commit_unassign
  commit_unassign-IsTame id = elim (Option-cases (get id o.positions)) [
    | inl z ↦ rw (z, commit_unassign) (IsTame-refl o refl refl)
    | inr (p, z) ↦ rw (z, commit_unassign) (IsTame-put id _ _ refl refl (inl refl))
  ]

  -- A write on top of `demote`, of a position that holds what it held.
  sounding_IsTame :
      (id previous : String) (p q : Position)
      → get id (demote previous id o.positions) ≡ some p
      → p.camera_id ≡ q.camera_id
      → (o' : Orch) → o'.positions ≡ put id q (demote previous id o.positions)
      → o'.cameras ≡ o.cameras
      → IsTame o o'
  sounding_IsTame id previous p q g e o' f c =
      let m = demote previous id o.positions in
      record {
        keeps =
            rw f (
              Keeps-trans (demote-Keeps previous id o.positions)
                (put-Keeps id q m (inr (p, g, e))));
        distinct = λ d. rw f (put-IsDistinct id q m (demote-IsDistinct previous id o.positions d));
        cameras = c;
      }

  pub commit_audio-IsTame : (id previous : String) → IsTame o (commit_audio id previous o).1
  unfolding commit_audio
  commit_audio-IsTame id previous = elim (Option-cases (get id o.positions)) [
    | inl z ↦ rw (z, commit_audio) (IsTame-refl o refl refl)
    | inr (p, z) ↦
        sounding_IsTame id previous p (record p { is_audio_source = true })
          (get-demote previous id o.positions p z) refl _ (ground arith) (ground arith)
  ]

  pub commit_audio_internal-IsTame :
      (id previous : String) → IsTame o (commit_audio_internal id previous o).1
  unfolding commit_audio_internal
  commit_audio_internal-IsTame id previous =
      elim (Option-cases (get id (demote previous id o.positions))) [
        | inl z ↦
            rw (z, commit_audio_internal)
              (record {
                keeps = demote-Keeps previous id o.positions;
                distinct = demote-IsDistinct previous id o.positions;
                cameras = refl;
              })
        | inr (p, z) ↦
            sounding_IsTame id previous p (record p { is_audio_source = true }) z refl _
              (ground arith) (ground arith)
      ]

  pub rename_scene_to-IsTame : (id name : String) → IsTame o (rename_scene_to id name o).1
  unfolding rename_scene_to
  rename_scene_to-IsTame id name = IsTame-refl _ (ground arith) (ground arith)

  pub replace_positions-IsTame :
      (id : String) (ids : List String) → IsTame o (replace_positions id ids o).1
  unfolding replace_positions
  replace_positions-IsTame id ids = IsTame-refl _ (ground arith) (ground arith)

  pub remove_scene-IsTame : (id : String) → IsTame o (remove_scene id o).1
  unfolding remove_scene
  remove_scene-IsTame id = IsTame-refl _ (ground arith) (ground arith)

  pub preview_camera-IsTame : (id : String) → IsTame o (preview_camera id o).1
  unfolding preview_camera
  preview_camera-IsTame id = IsTame-refl _ (ground arith) (ground arith)

  pub preview_scene-IsTame : (id : String) → IsTame o (preview_scene id o).1
  unfolding preview_scene
  preview_scene-IsTame id = IsTame-refl _ (ground arith) (ground arith)

  pub commit_scene-IsTame : (id : String) → IsTame o (commit_scene id o).1
  unfolding commit_scene
  commit_scene-IsTame id = IsTame-refl _ refl refl
