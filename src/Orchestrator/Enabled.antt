-- ===== src/Orchestrator/Enabled.antt =====
-- The positions that `Cut` enables for a scene, and the lists of positions that scenes are given, of
-- backend/internal/orchestrator/orchestrator.go.
use po_c_go_live.Base.{
  String, ◌≡◌, refl, ap, false, not, ◌&&◌, inl, inr, none, some, List, [], ◌∷◌, arith, ◌==◌, eq_iff,
  contains, if◌then◌else◌, Bool-cases, Option-cases,
}
use po_c_go_live.Dict.{Dict, get}
use po_c_go_live.Orchestrator.Models.{Position, is_simple}
use po_c_go_live.Orchestrator.State.{Orch, ok}
use po_c_go_live.Orchestrator.Names.{dedupe_from, dedupe_position_ids}
use po_c_go_live.Orchestrator.Live.{is_unavailable, collect_enabled}
use po_c_go_live.Orchestrator.Occupancy.{IsOccupied}

-- The positions of a list that there are, less the hidden one.
unfoldable pub public_ids : List String → Dict Position → List String
public_ids [] m = []
public_ids (id ∷ ids) m =
    let rest = public_ids ids m in
    elim (get id m) [ none ↦ rest | some p ↦ if is_simple id then rest else id ∷ rest ]

available :
    (o : Orch) (id : String) (p : Position)
    → IsOccupied o
    → get id o.positions ≡ some p
    → is_unavailable p o.cameras ≡ false
unfolding is_unavailable
available o id p h g = elim (Bool-cases (p.camera_id == "")) [
  | inl e ↦ ground arith
  | inr e ↦ ground (arith, h.holds_online id p g (λ z. ground (arith, eq_iff p.camera_id "")))
]

-- In any state where positions hold only cameras that are online, `Cut` finds every position of a
-- scene available: it enables those that there are, in their order, less the hidden one.
pub collect_enabled-eq-public_ids :
    (ids : List String) (o : Orch)
    → IsOccupied o
    → collect_enabled ids o ≡ ok (public_ids ids o.positions)
unfolding collect_enabled public_ids
collect_enabled-eq-public_ids [] o h = refl
collect_enabled-eq-public_ids (id ∷ ids) o h = elim (Option-cases (get id o.positions)) [
  | inl z ↦ ground (arith, collect_enabled-eq-public_ids ids o h)
  | inr (p, z) ↦ ground (arith, collect_enabled-eq-public_ids ids o h, available o id p h z)
]

-- No text is there twice.
unfoldable pub IsUnique : List String → Type 0
IsUnique [] = Unit
IsUnique (x ∷ xs) = (contains x xs ≡ false) × IsUnique xs

contains-dedupe_from :
    (id : String) (seen ids : List String)
    → contains id (dedupe_from seen ids)
      ≡ (not (id == "") && (contains id ids && not (contains id seen)))
unfolding dedupe_from
contains-dedupe_from id seen [] = ground arith
contains-dedupe_from id seen (x ∷ ids) = elim (Bool-cases (x == id)) [
  | inr n ↦ ground (arith, contains-dedupe_from id seen ids, contains-dedupe_from id (x ∷ seen) ids)
  | inl e ↦
      let p = (eq_iff x id).0 e in
      ground (
        arith,
        contains-dedupe_from id seen ids,
        contains-dedupe_from id (x ∷ seen) ids,
        ap (λ y. contains y seen) p,
        ap (λ y. y == "") p,
      )
]

dedupe_from-IsUnique : (seen ids : List String) → IsUnique (dedupe_from seen ids)
unfolding dedupe_from IsUnique
dedupe_from-IsUnique seen [] = tt
dedupe_from-IsUnique seen (x ∷ ids) = ground (
  arith,
  dedupe_from-IsUnique seen ids,
  dedupe_from-IsUnique (x ∷ seen) ids,
  contains-dedupe_from x (x ∷ seen) ids,
  eq_iff x x,
)

-- `dedupePositionIDs` keeps exactly the identifiers that are not empty, each of them once.
pub dedupe_position_ids-IsUnique :
    (ids : List String)
    → IsUnique (dedupe_position_ids ids)
      × ((id : String)
          → contains id (dedupe_position_ids ids) ≡ (not (id == "") && contains id ids))
unfolding dedupe_position_ids
dedupe_position_ids-IsUnique ids =
    (dedupe_from-IsUnique [] ids, λ id. ground (arith, contains-dedupe_from id [] ids))
