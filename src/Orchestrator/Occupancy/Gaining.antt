-- ===== src/Orchestrator/Occupancy/Gaining.antt =====
-- The writes that give a position a camera, and those of a reported stream.
use po_c_go_live.Base.{
  ℕ, String, ◌≡◌, ◌≢◌, refl, inl, inr, Bool, true, some, arith, Option-cases, eq_iff,
}
use po_c_go_live.Dict.{
  Dict, get, update_all, put-IsDistinct, update_all-IsDistinct, get-put, get-update_all,
}
use po_c_go_live.Orchestrator.Models.{Camera, Position, simple_position_id}
use po_c_go_live.Orchestrator.State.{Orch}
use po_c_go_live.Orchestrator.Positions.{with_position}
use po_c_go_live.Orchestrator.Assignment.{commit_assign, vacate_first, held_by_other}
use po_c_go_live.Orchestrator.Live.{commit_camera, give_up}
use po_c_go_live.Orchestrator.Sync.{see_stream}
use po_c_go_live.Orchestrator.Step.{online_at}
use po_c_go_live.Orchestrator.Occupancy.{IsOccupied}
use po_c_go_live.Orchestrator.Occupancy.Moves.{
  Keeps, vacate_first-Keeps, vacate_first-IsDistinct, bump_free, put-IsOnce,
}
use po_c_go_live.Orchestrator.Occupancy.Tame

cameras-vacate_first :
    (test : String → Position → Bool) (o : Orch) → (vacate_first test o).1.cameras ≡ o.cameras
unfolding vacate_first
cameras-vacate_first test o = ground arith

vacate_first-IsOccupied :
    (test : String → Position → Bool) (o : Orch) → IsOccupied o → IsOccupied (vacate_first test o).1
vacate_first-IsOccupied test o h =
    Tame.IsTame-IsOccupied o _
      (record {
        keeps = vacate_first-Keeps test o h.positions_once.distinct;
        distinct = vacate_first-IsDistinct test o;
        cameras = cameras-vacate_first test o;
      })
      h

-- A position takes a camera that is online, and that no other position holds.
take_camera-IsOccupied :
    (id : String) (q : Position) (o : Orch)
    → IsOccupied o
    → online_at q.camera_id o.cameras ≡ true
    → ((i : String) (p : Position)
        → get i o.positions ≡ some p
        → p.camera_id ≡ q.camera_id
        → q.camera_id ≢ ""
        → i ≡ id)
    → IsOccupied (with_position id q o)
take_camera-IsOccupied id q o h n free = record {
  cameras_distinct = h.cameras_distinct;
  camera_key = h.camera_key;
  positions_once = put-IsOnce id q o.positions h.positions_once free;
  holds_online = λ i x a ne. ground (arith, get-put id i q o.positions, h.holds_online i x);
}

pub commit_assign-IsOccupied :
    (id camera_id : String) (o : Orch)
    → online_at camera_id o.cameras ≡ true
    → IsOccupied o
    → IsOccupied (commit_assign id camera_id o).1
commit_assign-IsOccupied id camera_id o n h = elim (Option-cases (get id o.positions)) [
  | inl z ↦ unfold commit_assign in rw (z, commit_assign) h
  | inr (p, z) ↦
      let test = held_by_other id camera_id in
      let taken =
        take_camera-IsOccupied id (record p { camera_id = camera_id }) (vacate_first test o).1
          (vacate_first-IsOccupied test o h) (rw (cameras-vacate_first test o) n)
          (λ i x a e ne. bump_free id camera_id i x o h.positions_once ne a e) in
      unfold commit_assign in rw (z, commit_assign) taken
]

-- The positions of `Cut` with a camera: no other position than the hidden one has it then.
given_up-Keeps :
    (camera_id : String) (m : Dict Position) → Keeps m (update_all (give_up camera_id) m)
unfolding give_up
given_up-Keeps camera_id m = record {
  at = λ i q a n. elim (Option-cases (get i m)) [
    | inl z ↦ absurd (n (ground (arith, get-update_all (give_up camera_id) i m)))
    | inr (x, z) ↦ (x, z, ground (arith, get-update_all (give_up camera_id) i m))
  ];
}

given_up_free :
    (camera_id i : String) (p : Position) (m : Dict Position)
    → get i (update_all (give_up camera_id) m) ≡ some p
    → p.camera_id ≡ camera_id
    → camera_id ≢ ""
    → i ≡ simple_position_id
unfolding give_up
given_up_free camera_id i p m a e n = elim (Option-cases (get i m)) [
  | inl z ↦ ground (arith, get-update_all (give_up camera_id) i m)
  | inr (x, z) ↦ ground (
    arith,
    get-update_all (give_up camera_id) i m,
    eq_iff i simple_position_id,
    eq_iff x.camera_id camera_id,
  )
]

pub commit_camera-IsOccupied :
    (camera_id : String) (o : Orch)
    → online_at camera_id o.cameras ≡ true
    → IsOccupied o
    → IsOccupied (commit_camera camera_id o).1
unfolding commit_camera
commit_camera-IsOccupied camera_id o n h =
    elim (Option-cases (get simple_position_id o.positions)) [
      | inl z ↦
          rw (z, commit_camera) (Tame.IsTame-IsOccupied o _ (Tame.IsTame-refl o _ refl refl) h)
      | inr (p, z) ↦
          let given : Dict Position = update_all (give_up camera_id) o.positions in
          let o' : Orch = record o { positions = given } in
          let h' : IsOccupied o' =
            Tame.IsTame-IsOccupied o o'
              (record {
                keeps = given_up-Keeps camera_id o.positions;
                distinct = update_all-IsDistinct (give_up camera_id) o.positions;
                cameras = refl;
              })
              h in
          let taken =
            take_camera-IsOccupied simple_position_id (record p { camera_id = camera_id }) o' h' n
              (λ i x a e ne. given_up_free camera_id i x o.positions a e ne) in
          rw (z, commit_camera) (Tame.IsTame-IsOccupied _ _ (Tame.IsTame-refl _ _ refl refl) taken)
    ]

-- The cameras of `n` are online where those of `m` were.
see_stream-online :
    (base : String) (now : ℕ) (name id : String) (o : Orch)
    → online_at id o.cameras ≡ true
    → online_at id (see_stream base now name o).1.cameras ≡ true
unfolding see_stream
see_stream-online base now name id o h = grind (arith, get-put)

see_stream-key :
    (base : String) (now : ℕ) (name k : String) (c : Camera) (o : Orch)
    → ((k' : String) (c' : Camera) → get k' o.cameras ≡ some c' → c'.id ≡ k')
    → get k (see_stream base now name o).1.cameras ≡ some c
    → c.id ≡ k
unfolding see_stream
see_stream-key base now name k c o h a = grind (arith, get-put, eq_iff)

pub see_stream-IsOccupied :
    (base : String) (now : ℕ) (name : String) (o : Orch)
    → IsOccupied o
    → IsOccupied (see_stream base now name o).1
see_stream-IsOccupied base now name o h = record {
  cameras_distinct = unfold see_stream in grind (arith, put-IsDistinct);
  camera_key = λ k c a. see_stream-key base now name k c o h.camera_key a;
  positions_once = unfold see_stream in grind arith;
  holds_online = λ i p a n.
      see_stream-online base now name p.camera_id o
        (h.holds_online i p (unfold see_stream in ground arith) n);
}
