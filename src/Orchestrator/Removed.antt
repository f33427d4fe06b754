-- ===== src/Orchestrator/Removed.antt =====
-- Which cameras a synchronisation removes: `SyncOnce` of
-- backend/internal/orchestrator/orchestrator.go.
use po_c_go_live.Base.{
  ℕ, String, ◌≡◌, ◌≢◌, refl, ap, Bool, true, false, not, ◌&&◌, inl, inr, Option, none, some, List,
  [], ◌∷◌, ◌-◌, leb, arith, ◌==◌, eq_iff, contains, Bool-cases, Option-cases,
}
use po_c_go_live.Dict.{Dict, get, put, get-put, get-del, IsDistinct}
use po_c_go_live.Orchestrator.Models.{Camera, is_online, online}
use po_c_go_live.Orchestrator.State.{Orch, ok}
use po_c_go_live.Orchestrator.Assignment.{clear_camera_from_positions, vacate_first, vacate}
use po_c_go_live.Orchestrator.Sync.{
  is_overdue, new_camera, see_stream, see_streams, take_offline, age_cameras, reconcile, Actions,
}
use po_c_go_live.Orchestrator.Online.{see_streams-IsDistinct}

-- By the time `now`, 60 seconds in nanoseconds have passed, if a time was noted.
abbrev pub is_old : ℕ → Option ℕ → Bool
is_old now none = false
is_old now (some since) = leb 60000000000 (now - since)

is_overdue-eq-is_old : (now : ℕ) (since : Option ℕ) → is_overdue now since ≡ is_old now since
unfolding is_overdue
is_overdue-eq-is_old now none = refl
is_overdue-eq-is_old now (some since) = refl

-- A camera that is known, not reported, offline already, and that has been for 60 seconds.
unfoldable pub is_removable : ℕ → List String → Option ℕ → Dict Camera → String → Bool
is_removable now seen since m id = elim (get id m) [
  | none ↦ false
  | some c ↦ not (contains id seen) && (not (is_online c.status) && is_old now since)
]

offline_since-take_offline :
    (now : ℕ) (k : String) (c : Camera) (o : Orch)
    → (take_offline now k c o).1.offline_since ≡ put k now o.offline_since
unfolding take_offline clear_camera_from_positions vacate_first vacate
offline_since-take_offline now k c o = ground arith

since-take_offline :
    (now : ℕ) (k id : String) (c : Camera) (o : Orch)
    → k ≢ id
    → get id (take_offline now k c o).1.offline_since ≡ get id o.offline_since
since-take_offline now k id c o n =
    rw (offline_since-take_offline now k c o)
      (ground (arith, get-put k id now o.offline_since, eq_iff k id))

remove_ids-age_cameras :
    (now : ℕ) (seen : List String) (m : Dict Camera) (id : String) (o : Orch)
    → IsDistinct m
    → contains id (age_cameras now seen m o).0.remove_ids
      ≡ is_removable now seen (get id o.offline_since) m id
unfolding age_cameras get is_removable
remove_ids-age_cameras now seen [] id o h = refl
remove_ids-age_cameras now seen ((k, c) ∷ m) id o h =
    let o' = (take_offline now k c o).1 in
    let skipped = remove_ids-age_cameras now seen m id o h.1 in
    let later = remove_ids-age_cameras now seen m id o' h.1 in
    elim (Bool-cases (k == id)) [
      | inr q ↦ ground (arith, skipped, later, eq_iff k id, since-take_offline now k id c o)
      | inl q ↦
          let p = (eq_iff k id).0 q in
          ground (
            arith,
            skipped,
            later,
            ap (λ x. contains x seen) p,
            ap (λ x. get x m) p,
            h.0,
            ap (λ x. get x o.offline_since) p,
            is_overdue-eq-is_old now (get k o.offline_since),
          )
    ]

-- A stream that is not the camera's changes nothing of it.
see_stream_other :
    (base : String) (now : ℕ) (name id : String) (o : Orch)
    → (name == id) ≡ false
    → (get id (see_stream base now name o).1.cameras ≡ get id o.cameras)
      × (get id (see_stream base now name o).1.offline_since ≡ get id o.offline_since)
unfolding see_stream
see_stream_other base now name id o n = elim (Option-cases (get name o.cameras)) [
  | inl z ↦ ground (arith, get-put name id (new_camera base now name) o.cameras)
  | inr (c, z) ↦ ground (
    arith,
    get-put name id (record c { status = online; last_seen_at = now }) o.cameras,
    get-del name id o.offline_since,
  )
]

see_streams_others :
    (base : String) (now : ℕ) (names : List String) (id : String) (o : Orch)
    → contains id names ≡ false
    → (get id (see_streams base now names o).1.cameras ≡ get id o.cameras)
      × (get id (see_streams base now names o).1.offline_since ≡ get id o.offline_since)
unfolding see_streams
see_streams_others base now [] id o n = (refl, refl)
see_streams_others base now (name ∷ names) id o n = ground (
  arith,
  see_stream_other base now name id o,
  see_streams_others base now names id (see_stream base now name o).1,
)

-- The locked part of a synchronisation whose streams the media server reported lists a camera for
-- removal if and only if it is known, not reported, offline already, and has been offline for 60
-- seconds by the time that it noted. The cameras are kept one entry to a key.
pub remove_ids-reconcile :
    (base : String) (now : ℕ) (names : List String) (id : String) (o : Orch) (a : Actions)
    → IsDistinct o.cameras
    → (reconcile base now names o).0 ≡ ok a
    → contains id a.remove_ids ≡ is_removable now names (get id o.offline_since) o.cameras id
unfolding reconcile is_removable
remove_ids-reconcile base now names id o a h e =
    let connected = record o { media_connected = true } in
    let o' = (see_streams base now names connected).1 in
    ground (
      arith,
      remove_ids-age_cameras now names o'.cameras id o'
          (see_streams-IsDistinct base now names connected h),
      see_streams_others base now names id connected,
    )
