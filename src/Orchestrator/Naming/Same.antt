-- ===== src/Orchestrator/Naming/Same.antt =====
-- Writes that give no position another name.
use po_c_go_live.Base.{
  ℕ, String, ◌≡◌, refl, ap, true, false, Bool, inl, inr, Option, none, some, arith, ◌==◌, eq_iff,
  Option-cases, Bool-cases,
}
use po_c_go_live.Dict.{
  Dict, get, put, find, update_all, get-put, get-update_all, find-get, IsDistinct,
}
use po_c_go_live.Orchestrator.Models.{Camera, Position, simple_position_id}
use po_c_go_live.Orchestrator.State.{Orch}
use po_c_go_live.Orchestrator.Assignment.{
  commit_assign, held_by_other, commit_unassign, commit_audio, commit_audio_internal, demote,
  vacate, vacate_first, clear_camera_from_positions,
}
use po_c_go_live.Orchestrator.Sync.{take_offline}
use po_c_go_live.Orchestrator.Live.{commit_camera, give_up}

-- The identifier and the name that the map has under a key.
abbrev pub name_at : String → Dict Position → Option (String × String)
name_at k m = elim (get k m) [ none ↦ none | some p ↦ some (p.id, p.name) ]

-- The same keys, with the same identifiers and names.
abbrev pub AreSame : Dict Position → Dict Position → Type 0
AreSame m m' = (k : String) → name_at k m' ≡ name_at k m

put-AreSame :
    (id : String) (p q : Position) (m : Dict Position)
    → get id m ≡ some p
    → q.id ≡ p.id
    → q.name ≡ p.name
    → AreSame m (put id q m)
put-AreSame id p q m g x y k = elim (Bool-cases (id == k)) [
  | inl e ↦ ground (arith, get-put id k q m, ap (λ j. get j m) ((eq_iff id k).0 e))
  | inr e ↦ ground (arith, get-put id k q m)
]

give_up-AreSame :
    (camera_id : String) (m : Dict Position) → AreSame m (update_all (give_up camera_id) m)
unfolding give_up
give_up-AreSame camera_id m k = ground (arith, get-update_all (give_up camera_id) k m)

demote-AreSame : (previous id : String) (m : Dict Position) → AreSame m (demote previous id m)
unfolding demote
demote-AreSame previous id m k = elim (Option-cases (get previous m)) [
  | inl z ↦ ground arith
  | inr (p, z) ↦
      ground (arith, put-AreSame previous p (record p { is_audio_source = false }) m z refl refl k)
]

vacate_first-AreSame :
    (test : String → Position → Bool) (o : Orch)
    → IsDistinct o.positions
    → AreSame o.positions (vacate_first test o).1.positions
unfolding vacate_first vacate
vacate_first-AreSame test o h k = elim (Option-cases (find test o.positions)) [
  | inl z ↦ ground arith
  | inr ((i, p), z) ↦ ground (
    arith,
    put-AreSame i p (record p { camera_id = ""; is_audio_source = false }) o.positions
        (find-get test o.positions i p h z).0 refl refl k,
  )
]

pub take_offline-AreSame :
    (now : ℕ) (id : String) (c : Camera) (o : Orch)
    → IsDistinct o.positions
    → AreSame o.positions (take_offline now id c o).1.positions
unfolding take_offline clear_camera_from_positions
take_offline-AreSame now id c o h k = vacate_first-AreSame _ _ h k

pub commit_assign-AreSame :
    (id camera_id : String) (o : Orch)
    → IsDistinct o.positions
    → AreSame o.positions (commit_assign id camera_id o).1.positions
unfolding commit_assign
commit_assign-AreSame id camera_id o h k =
    let m = (vacate_first (held_by_other id camera_id) o).1.positions in
    let same = vacate_first-AreSame (held_by_other id camera_id) o h in
    elim (Option-cases (get id o.positions)) [
      | inl z ↦ ground arith
      | inr (p, z) ↦
          ground (
            arith,
            same k,
            same id,
            get-put id k (record p { camera_id = camera_id }) m,
            eq_iff id k,
          )
    ]

pub commit_unassign-AreSame :
    (id : String) (o : Orch) → AreSame o.positions (commit_unassign id o).1.positions
unfolding commit_unassign
commit_unassign-AreSame id o k = elim (Option-cases (get id o.positions)) [
  | inl z ↦ ground arith
  | inr (p, z) ↦ ground (
    arith,
    put-AreSame id p (record p { camera_id = ""; is_audio_source = false }) o.positions z refl refl
        k,
  )
]

pub commit_audio-AreSame :
    (id previous : String) (o : Orch) → AreSame o.positions (commit_audio id previous o).1.positions
unfolding commit_audio
commit_audio-AreSame id previous o k =
    let m = demote previous id o.positions in
    let same = demote-AreSame previous id o.positions in
    elim (Option-cases (get id o.positions)) [
      | inl z ↦ ground arith
      | inr (p, z) ↦ ground (
        arith,
        same k,
        same id,
        get-put id k (record p { is_audio_source = true }) m,
        eq_iff id k,
      )
    ]

pub commit_audio_internal-AreSame :
    (id previous : String) (o : Orch)
    → AreSame o.positions (commit_audio_internal id previous o).1.positions
unfolding commit_audio_internal
commit_audio_internal-AreSame id previous o k =
    let m = demote previous id o.positions in
    let same = demote-AreSame previous id o.positions in
    elim (Option-cases (get id m)) [
      | inl z ↦ ground (arith, same k)
      | inr (p, z) ↦
          ground
            (arith, same k, put-AreSame id p (record p { is_audio_source = true }) m z refl refl k)
    ]

pub commit_camera-AreSame :
    (id : String) (o : Orch) → AreSame o.positions (commit_camera id o).1.positions
unfolding commit_camera
commit_camera-AreSame id o k =
    let m = update_all (give_up id) o.positions in
    let same = give_up-AreSame id o.positions in
    elim (Option-cases (get simple_position_id o.positions)) [
      | inl z ↦ ground arith
      | inr (p, z) ↦ ground (
        arith,
        same k,
        same simple_position_id,
        get-put simple_position_id k (record p { camera_id = id }) m,
        eq_iff simple_position_id k,
      )
    ]
