-- ===== src/Orchestrator/Occupancy/Moves.antt =====
-- How the writes of positions move cameras.
use po_c_go_live.Base.{
  String, ◌≡◌, ◌≢◌, refl, sym, ◌∙◌, ◌⊎◌, inl, inr, Bool, false, some, arith, eq_iff, Option-cases,
  Bool-cases,
}
use po_c_go_live.Dict.{
  Dict, get, put, del, find, IsDistinct, get-put, get-del, find-get, find_none, put-IsDistinct,
}
use po_c_go_live.Orchestrator.Models.{Position}
use po_c_go_live.Orchestrator.State.{Orch}
use po_c_go_live.Orchestrator.Assignment.{vacate_first, held_by, held_by_other, is_other, demote}
use po_c_go_live.Orchestrator.Occupancy.{IsOnce}

-- Every camera in a position of `n` was in that position in `m`.
pub record Keeps (m n : Dict Position) : Type 0 where
  pub at :
      (i : String) (q : Position)
      → get i n ≡ some q
      → q.camera_id ≢ ""
      → (p : Position) × (get i m ≡ some p) × (p.camera_id ≡ q.camera_id)

pub Keeps-refl : (m : Dict Position) → Keeps m m
Keeps-refl m = record { at = λ i q a n. (q, a, refl) }

pub Keeps-trans : {l m n : Dict Position} → Keeps l m → Keeps m n → Keeps l n
Keeps-trans h k = record {
  at = λ i q a n.
      let (p, b, e) = k.at i q a n in
      let (r, c, f) = h.at i p b (λ z. n (sym e ∙ z)) in (r, c, f ∙ e);
}

pub Keeps-IsOnce : {m n : Dict Position} → Keeps m n → IsDistinct n → IsOnce m → IsOnce n
Keeps-IsOnce k d h = record {
  distinct = d;
  once = λ i j p q a b e n.
      let (p', a', e') = k.at i p a n in
      let (q', b', f') = k.at j q b (λ z. n (e ∙ z)) in
      h.once i j p' q' a' b' (e' ∙ e ∙ sym f') (λ z. n (sym e' ∙ z));
}

-- A position that is empty, or holds what it held.
pub put-Keeps :
    (id : String) (q : Position) (m : Dict Position)
    → (q.camera_id ≡ "") ⊎ ((p : Position) × (get id m ≡ some p) × (p.camera_id ≡ q.camera_id))
    → Keeps m (put id q m)
put-Keeps id q m c = record {
  at = λ i r a n. elim (Option-cases (get i m)) [
    | inl z ↦ absurd (n (ground (arith, get-put id i q m, eq_iff id i)))
    | inr (x, z) ↦ (x, z, ground (arith, get-put id i q m, eq_iff id i))
  ];
}

pub del-Keeps : (id : String) (m : Dict Position) → Keeps m (del id m)
del-Keeps id m = record { at = λ i q a n. (q, ground (arith, get-del id i m), refl) }

pub demote-Keeps : (previous id : String) (m : Dict Position) → Keeps m (demote previous id m)
unfolding demote
demote-Keeps previous id m = elim (Option-cases (get previous m)) [
  | inl z ↦ rw (z, demote) (Keeps-refl m)
  | inr (p, z) ↦ elim (Bool-cases (is_other previous id)) [
    | inl b ↦ rw (z, demote, b) (put-Keeps previous _ m (inr (p, z, refl)))
    | inr b ↦ rw (z, demote, b) (Keeps-refl m)
  ]
]

pub demote-IsDistinct :
    (previous id : String) (m : Dict Position) → IsDistinct m → IsDistinct (demote previous id m)
unfolding demote
demote-IsDistinct previous id m d = grind (arith, put-IsDistinct)

-- `demote` leaves the position that is to be the source.
pub get-demote :
    (previous id : String) (m : Dict Position) (p : Position)
    → get id m ≡ some p
    → get id (demote previous id m) ≡ some p
unfolding demote
get-demote previous id m p g = grind (arith, get-put, eq_iff)

pub vacate_first-Keeps :
    (test : String → Position → Bool) (o : Orch)
    → IsDistinct o.positions
    → Keeps o.positions (vacate_first test o).1.positions
unfolding vacate_first
vacate_first-Keeps test o d = elim (Option-cases (find test o.positions)) [
  | inl z ↦ rw (z, vacate_first) (Keeps-refl o.positions)
  | inr ((id, p), z) ↦ rw (z, vacate_first) (put-Keeps id _ o.positions (inl refl))
]

pub vacate_first-IsDistinct :
    (test : String → Position → Bool) (o : Orch)
    → IsDistinct o.positions
    → IsDistinct (vacate_first test o).1.positions
unfolding vacate_first
vacate_first-IsDistinct test o d = grind (arith, put-IsDistinct)

-- After the loop of `clearCameraFromPositionsLocked` no position holds the camera.
pub clear_free :
    (camera_id i : String) (p : Position) (o : Orch)
    → IsOnce o.positions
    → camera_id ≢ ""
    → get i (vacate_first (held_by camera_id) o).1.positions ≡ some p
    → p.camera_id ≢ camera_id
unfolding vacate_first held_by
clear_free camera_id i p o h n a e = elim (Option-cases (find (held_by camera_id) o.positions)) [
  | inl z ↦
      ground (arith, find_none (held_by camera_id) o.positions i p, eq_iff p.camera_id camera_id)
  | inr ((k, q), z) ↦ ground (
    arith,
    find-get (held_by camera_id) o.positions k q h.distinct,
    get-put k i (record q { camera_id = ""; is_audio_source = false }) o.positions,
    eq_iff k i,
    eq_iff q.camera_id camera_id,
    h.once k i q p,
  )
]

-- After the loop of `AssignCamera` no other position holds it.
pub bump_free :
    (position_id camera_id i : String) (p : Position) (o : Orch)
    → IsOnce o.positions
    → camera_id ≢ ""
    → get i (vacate_first (held_by_other position_id camera_id) o).1.positions ≡ some p
    → p.camera_id ≡ camera_id
    → i ≡ position_id
unfolding vacate_first held_by_other
bump_free position_id camera_id i p o h n a e =
    elim (Option-cases (find (held_by_other position_id camera_id) o.positions)) [
      | inl z ↦ ground (
        arith,
        find_none (held_by_other position_id camera_id) o.positions i p,
        eq_iff p.camera_id camera_id,
        eq_iff i position_id,
      )
      | inr ((k, q), z) ↦ ground (
        arith,
        find-get (held_by_other position_id camera_id) o.positions k q h.distinct,
        get-put k i (record q { camera_id = ""; is_audio_source = false }) o.positions,
        eq_iff k i,
        eq_iff i position_id,
        eq_iff q.camera_id camera_id,
        h.once k i q p,
      )
    ]

-- A position may take a camera that no other position holds.
pub put-IsOnce :
    (id : String) (q : Position) (m : Dict Position)
    → IsOnce m
    → ((i : String) (p : Position)
        → get i m ≡ some p
        → p.camera_id ≡ q.camera_id
        → q.camera_id ≢ ""
        → i ≡ id)
    → IsOnce (put id q m)
put-IsOnce id q m h free = record {
  distinct = put-IsDistinct id q m h.distinct;
  once = λ i j x y a b e n. ground (
    arith,
    get-put id i q m,
    get-put id j q m,
    eq_iff id i,
    eq_iff id j,
    h.once i j x y,
    free i x,
    free j y,
  );
}
