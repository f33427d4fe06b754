-- ===== src/Orchestrator/Occupancy.antt =====
-- Who holds a camera: the invariant on `CameraID` in the positions of
-- backend/internal/orchestrator/orchestrator.go.
mod Moves
mod Tame
mod Gaining
mod Losing
pub mod Keeping
use po_c_go_live.Base.{String, ◌≡◌, ◌≢◌, true, some}
use po_c_go_live.Dict.{Dict, get, IsDistinct}
use po_c_go_live.Orchestrator.Models.{Camera, Position}
use po_c_go_live.Orchestrator.State.{Orch}
use po_c_go_live.Orchestrator.Step.{online_at}

-- A camera is in one position at most.
pub record IsOnce (m : Dict Position) : Type 0 where
  pub distinct : IsDistinct m
  pub once :
      (i j : String) (p q : Position)
      → get i m ≡ some p
      → get j m ≡ some q
      → p.camera_id ≡ q.camera_id
      → p.camera_id ≢ ""
      → i ≡ j

-- And that camera is known and online.
pub record IsOccupied (o : Orch) : Type 0 where
  pub cameras_distinct : IsDistinct o.cameras
  pub camera_key : (k : String) (c : Camera) → get k o.cameras ≡ some c → c.id ≡ k
  pub positions_once : IsOnce o.positions
  pub holds_online :
      (i : String) (p : Position)
      → get i o.positions ≡ some p
      → p.camera_id ≢ ""
      → online_at p.camera_id o.cameras ≡ true
