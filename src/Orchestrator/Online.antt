-- ===== src/Orchestrator/Online.antt =====
-- Which cameras are online after the locked part of `SyncOnce` in
-- backend/internal/orchestrator/orchestrator.go, and which it removes.
use po_c_go_live.Base.{
  ℕ, String, ◌≡◌, refl, ap, true, not, ◌&&◌, ◌||◌, inl, inr, List, [], ◌∷◌, arith, ◌==◌, eq_iff,
  contains, if◌then◌else◌, Bool-cases, Option-cases,
}
use po_c_go_live.Dict.{Dict, get, put, get-put, IsDistinct, put-IsDistinct}
use po_c_go_live.Orchestrator.Models.{Camera, is_online, online, offline}
use po_c_go_live.Orchestrator.State.{Orch}
use po_c_go_live.Orchestrator.Assignment.{clear_camera_from_positions, vacate_first, vacate}
use po_c_go_live.Orchestrator.Sync.{
  new_camera, see_stream, see_streams, take_offline, age_cameras, reconcile,
}
use po_c_go_live.Orchestrator.Step.{online_at}

online_at-put :
    (id k : String) (c : Camera) (m : Dict Camera)
    → online_at id (put k c m) ≡ (if k == id then is_online c.status else online_at id m)
online_at-put id k c m = ground (arith, get-put k id c m)

online_at-see_stream :
    (base : String) (now : ℕ) (name id : String) (o : Orch)
    → online_at id (see_stream base now name o).1.cameras ≡ (name == id || online_at id o.cameras)
unfolding see_stream
online_at-see_stream base now name id o = elim (Option-cases (get name o.cameras)) [
  | inl z ↦ ground (arith, online_at-put id name (new_camera base now name) o.cameras)
  | inr (c, z) ↦
      ground
        (arith, online_at-put id name (record c { status = online; last_seen_at = now }) o.cameras)
]

online_at-see_streams :
    (base : String) (now : ℕ) (names : List String) (id : String) (o : Orch)
    → online_at id (see_streams base now names o).1.cameras
      ≡ (contains id names || online_at id o.cameras)
unfolding see_streams
online_at-see_streams base now [] id o = refl
online_at-see_streams base now (name ∷ names) id o = ground (
  arith,
  online_at-see_streams base now names id (see_stream base now name o).1,
  online_at-see_stream base now name id o,
)

cameras-take_offline :
    (now : ℕ) (k : String) (c : Camera) (o : Orch)
    → (take_offline now k c o).1.cameras ≡ put k (record c { status = offline }) o.cameras
unfolding take_offline clear_camera_from_positions vacate_first vacate
cameras-take_offline now k c o = ground arith

online_at-take_offline :
    (now : ℕ) (k id : String) (c : Camera) (o : Orch)
    → online_at id (take_offline now k c o).1.cameras ≡ (not (k == id) && online_at id o.cameras)
online_at-take_offline now k id c o =
    rw (cameras-take_offline now k c o)
      (ground (arith, online_at-put id k (record c { status = offline }) o.cameras))

-- The second loop takes offline what is online in the list and not seen.
online_at-age_cameras :
    (now : ℕ) (seen : List String) (m : Dict Camera) (id : String) (o : Orch)
    → IsDistinct m
    → online_at id (age_cameras now seen m o).1.cameras
      ≡ (online_at id o.cameras && (contains id seen || not (online_at id m)))
unfolding age_cameras get
online_at-age_cameras now seen [] id o h = ground arith
online_at-age_cameras now seen ((k, c) ∷ m) id o h =
    let o' = (take_offline now k c o).1 in
    let skipped = online_at-age_cameras now seen m id o h.1 in
    let later = online_at-age_cameras now seen m id o' h.1 in
    let taken = online_at-take_offline now k id c o in
    elim (Bool-cases (k == id)) [
      | inr q ↦ ground (arith, skipped, later, taken)
      | inl q ↦
          let p = (eq_iff k id).0 q in
          ground
            (arith, skipped, later, taken, ap (λ x. contains x seen) p, ap (λ x. get x m) p, h.0)
    ]

see_stream-IsDistinct :
    (base : String) (now : ℕ) (name : String) (o : Orch)
    → IsDistinct o.cameras
    → IsDistinct (see_stream base now name o).1.cameras
unfolding see_stream
see_stream-IsDistinct base now name o h = grind (arith, put-IsDistinct)

pub see_streams-IsDistinct :
    (base : String) (now : ℕ) (names : List String) (o : Orch)
    → IsDistinct o.cameras
    → IsDistinct (see_streams base now names o).1.cameras
unfolding see_streams
see_streams-IsDistinct base now [] o h = h
see_streams-IsDistinct base now (name ∷ names) o h =
    see_streams-IsDistinct base now names (see_stream base now name o).1
      (see_stream-IsDistinct base now name o h)

-- After the locked part of a synchronisation whose streams the media server reported, a camera is
-- known and online if and only if it is one of them. The cameras are kept one entry to a key.
pub online_at-reconcile :
    (base : String) (now : ℕ) (names : List String) (id : String) (o : Orch)
    → IsDistinct o.cameras
    → online_at id (reconcile base now names o).1.cameras ≡ contains id names
unfolding reconcile
online_at-reconcile base now names id o h =
    let connected = record o { media_connected = true } in
    let o' = (see_streams base now names connected).1 in
    ground (
      arith,
      online_at-see_streams base now names id connected,
      online_at-age_cameras now names o'.cameras id o'
          (see_streams-IsDistinct base now names connected h),
    )
