-- ===== src/Orchestrator/Sound/Sections.antt =====
-- The sections that write positions or the audio source.
use po_c_go_live.Base.{
  ◌∙◌, String, ◌≡◌, ◌≢◌, Bool, false, some, arith, eq_iff, Option-cases, inl, inr,
}
use po_c_go_live.Dict.{
  get, find, IsDistinct, get-put, get-del, get-update_all, find-get, put-IsDistinct, del-IsDistinct,
  update_all-IsDistinct,
}
use po_c_go_live.Orchestrator.Models.{Position}
use po_c_go_live.Orchestrator.State.{Orch}
use po_c_go_live.Orchestrator.Positions.{
  register_hidden, add_position, rename_position_to, remove_position, without_position,
  with_position,
}
use po_c_go_live.Orchestrator.Assignment.{
  vacate, vacate_first, held_by_other, commit_assign, commit_unassign, commit_audio,
  commit_audio_internal,
}
use po_c_go_live.Orchestrator.Live.{commit_camera}
use po_c_go_live.Orchestrator.Sound.{IsSounding}

module _ (o : Orch) (h : IsSounding o) where
  pub register_hidden-IsSounding : IsSounding (register_hidden o).1
  unfolding register_hidden
  register_hidden-IsSounding = grind (arith, get-put, eq_iff, put-IsDistinct)

  pub add_position-IsSounding : (id name : String) → id ≢ "" → IsSounding (add_position id name o).1
  unfolding add_position
  add_position-IsSounding id name n = grind (arith, get-put, eq_iff, put-IsDistinct)

  pub without_position-IsSounding : (id : String) → IsSounding (without_position id o)
  without_position-IsSounding id = grind (arith, get-del, eq_iff, del-IsDistinct)

  pub rename_position_to-IsSounding :
      (id name : String) → IsSounding (rename_position_to id name o).1
  unfolding rename_position_to
  rename_position_to-IsSounding id name = grind (arith, get-put, eq_iff, put-IsDistinct)

  pub remove_position-IsSounding : (id : String) → IsSounding (remove_position id o).1
  unfolding remove_position
  remove_position-IsSounding id = grind (arith, get-del, eq_iff, del-IsDistinct)

  vacate-IsSounding :
      (k : String) (q : Position) → get k o.positions ≡ some q → IsSounding (vacate k q o).1
  unfolding vacate
  vacate-IsSounding k q g = grind (arith, get-put, eq_iff, put-IsDistinct)

  pub vacate_first-IsSounding :
      (test : String → Position → Bool) → IsSounding (vacate_first test o).1
  unfolding vacate_first
  vacate_first-IsSounding test = elim (Option-cases (find test o.positions)) [
    | inl z ↦ rw (z, vacate_first) h
    | inr ((k, q), z) ↦
        rw (z, vacate_first) (vacate-IsSounding k q (find-get test o.positions k q h.distinct z).0)
  ]

  pub commit_unassign-IsSounding : (id : String) → IsSounding (commit_unassign id o).1
  unfolding commit_unassign
  commit_unassign-IsSounding id = grind (arith, get-put, eq_iff, put-IsDistinct)

  pub commit_audio-IsSounding : (id : String) → IsSounding (commit_audio id o.audio_position_id o).1
  unfolding commit_audio
  commit_audio-IsSounding id = grind (arith, get-put, eq_iff, put-IsDistinct)

  pub commit_audio_internal-IsSounding :
      (id : String) → IsSounding (commit_audio_internal id o.audio_position_id o).1
  unfolding commit_audio_internal
  commit_audio_internal-IsSounding id = grind (arith, get-put, eq_iff, put-IsDistinct)

  pub commit_camera-IsSounding : (id : String) → IsSounding (commit_camera id o).1
  unfolding commit_camera
  commit_camera-IsSounding id =
      grind (arith, get-put, get-update_all, eq_iff, put-IsDistinct, update_all-IsDistinct)

-- A position takes a camera, and keeps its mark.
with_camera_IsSounding :
    (id camera_id : String) (p : Position) (o : Orch)
    → IsSounding o
    → get id o.positions ≡ some p
    → IsSounding (with_position id (record p { camera_id = camera_id }) o)
with_camera_IsSounding id camera_id p o h g = grind (arith, get-put, eq_iff, put-IsDistinct)

-- The position that a camera is assigned to is not one that is vacated for it.
get-bump :
    (id camera_id : String) (o : Orch)
    → IsDistinct o.positions
    → get id (vacate_first (held_by_other id camera_id) o).1.positions ≡ get id o.positions
unfolding vacate_first held_by_other
get-bump id camera_id o d = elim (Option-cases (find (held_by_other id camera_id) o.positions)) [
  | inl z ↦ ground arith
  | inr ((k, q), z) ↦ ground (
    arith,
    find-get (held_by_other id camera_id) o.positions k q d,
    get-put k id (record q { camera_id = ""; is_audio_source = false }) o.positions,
    eq_iff k id,
  )
]

pub commit_assign-IsSounding :
    (id camera_id : String) (o : Orch) → IsSounding o → IsSounding (commit_assign id camera_id o).1
commit_assign-IsSounding id camera_id o h = elim (Option-cases (get id o.positions)) [
  | inl z ↦ unfold commit_assign in rw (z, commit_assign) h
  | inr (p, z) ↦
      let test = held_by_other id camera_id in
      let kept =
        with_camera_IsSounding id camera_id p (vacate_first test o).1
          (vacate_first-IsSounding o h test) (get-bump id camera_id o h.distinct ∙ z) in
      unfold commit_assign in rw (z, commit_assign) kept
]
