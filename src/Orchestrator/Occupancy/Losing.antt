-- ===== src/Orchestrator/Occupancy/Losing.antt =====
-- The writes of a camera that is not reported: it goes offline, and is forgotten later.
use po_c_go_live.Base.{sym, ◌∙◌, ℕ, String, ◌≡◌, ◌≢◌, refl, true, false, some, arith, eq_iff}
use po_c_go_live.Dict.{Dict, get, put, del, put-IsDistinct, del-IsDistinct, get-put, get-del}
use po_c_go_live.Orchestrator.Models.{Camera, Position, offline}
use po_c_go_live.Orchestrator.State.{Orch}
use po_c_go_live.Orchestrator.Assignment.{vacate_first, held_by, clear_camera_from_positions}
use po_c_go_live.Orchestrator.Sync.{take_offline}
use po_c_go_live.Orchestrator.Step.{online_at}
use po_c_go_live.Orchestrator.Occupancy.{IsOccupied}
use po_c_go_live.Orchestrator.Occupancy.Moves.{
  Keeps-IsOnce, vacate_first-Keeps, vacate_first-IsDistinct, clear_free,
}

-- A camera goes offline, and its position is empty then.
lost_cameras :
    (now : ℕ) (id : String) (c : Camera) (o : Orch)
    → (take_offline now id c o).1.cameras ≡ put id (record c { status = offline }) o.cameras
unfolding take_offline clear_camera_from_positions
lost_cameras now id c o = ground arith

module _ (now : ℕ) (id : String) (c : Camera) (o : Orch) where
  abbrev off : Orch
  off = record o {
    cameras = put id (record c { status = offline }) o.cameras;
    offline_since = put id now o.offline_since;
  }

  abbrev vacated : Dict Position
  vacated = (vacate_first (held_by id) off).1.positions

  lost_positions : (take_offline now id c o).1.positions ≡ vacated
  unfolding take_offline clear_camera_from_positions
  lost_positions = refl

  -- A camera that a position still holds is another one.
  lost_online :
      (i : String) (q : Position)
      → IsOccupied o
      → get i vacated ≡ some q
      → q.camera_id ≢ ""
      → online_at q.camera_id (put id (record c { status = offline }) o.cameras) ≡ true
  lost_online i q h a n =
      let k = vacate_first-Keeps (held_by id) off h.positions_once.distinct in
      let (p, b, e) = k.at i q a n in
      ground (
        arith,
        get-put id q.camera_id (record c { status = offline }) o.cameras,
        eq_iff id q.camera_id,
        h.holds_online i p b (λ z. n (sym e ∙ z)),
        λ (ne : id ≢ ""). clear_free id i q off h.positions_once ne a,
      )

  lost_key :
      (k : String) (x : Camera)
      → get id o.cameras ≡ some c
      → IsOccupied o
      → get k (put id (record c { status = offline }) o.cameras) ≡ some x
      → x.id ≡ k
  lost_key k x g h a = ground (
    arith,
    get-put id k (record c { status = offline }) o.cameras,
    eq_iff id k,
    h.camera_key k x,
    h.camera_key id c g,
  )

  pub take_offline-IsOccupied :
      get id o.cameras ≡ some c → IsOccupied o → IsOccupied (take_offline now id c o).1
  take_offline-IsOccupied g h =
      let k = vacate_first-Keeps (held_by id) off h.positions_once.distinct in
      record {
        cameras_distinct =
            rw (lost_cameras now id c o) (put-IsDistinct id _ o.cameras h.cameras_distinct);
        camera_key = λ j x a. lost_key j x g h (rw (lost_cameras now id c o) at a);
        positions_once = rw lost_positions (
            Keeps-IsOnce k (vacate_first-IsDistinct (held_by id) off h.positions_once.distinct)
              h.positions_once);
        holds_online =
            λ i q a n. rw (lost_cameras now id c o) (lost_online i q h (rw lost_positions at a) n);
      }

pub forget-IsOccupied :
    (id : String) (o : Orch)
    → online_at id o.cameras ≡ false
    → IsOccupied o
    → IsOccupied (record o { cameras = del id o.cameras; offline_since = del id o.offline_since })
forget-IsOccupied id o f h = record {
  cameras_distinct = del-IsDistinct id o.cameras h.cameras_distinct;
  camera_key = λ k c a. ground (arith, get-del id k o.cameras, h.camera_key k c);
  positions_once = h.positions_once;
  holds_online = λ i p a n.
      ground
        (arith, get-del id p.camera_id o.cameras, eq_iff id p.camera_id, h.holds_online i p a n);
}
