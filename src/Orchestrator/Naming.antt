-- ===== src/Orchestrator/Naming.antt =====
-- The names of positions and scenes: the invariant that the checks of `ErrPositionNameTaken` and
-- `ErrSceneNameTaken` in backend/internal/orchestrator/orchestrator.go are there for.
mod Same
mod Sections
mod Written
pub mod Keeping
pub mod Hidden
use po_c_go_live.Base.{String, ◌≡◌, false, some}
use po_c_go_live.Dict.{Dict, get}
use po_c_go_live.Orchestrator.Models.{Position, Scene, is_simple}
use po_c_go_live.Orchestrator.State.{Orch}

-- Positions are stored under their identifiers, and no two of them have one name, but for the hidden
-- one.
pub record AreNamed (m : Dict Position) : Type 0 where
  pub key : (k : String) (p : Position) → get k m ≡ some p → p.id ≡ k
  pub unique :
      (i j : String) (p q : Position)
      → get i m ≡ some p
      → get j m ≡ some q
      → is_simple i ≡ false
      → is_simple j ≡ false
      → p.name ≡ q.name
      → i ≡ j

-- No two scenes have one name.
abbrev pub AreTitled : Dict Scene → Type 0
AreTitled m =
    (i j : String) (a b : Scene) → get i m ≡ some a → get j m ≡ some b → a.name ≡ b.name → i ≡ j

pub record IsNamed (o : Orch) : Type 0 where
  pub positions : AreNamed o.positions
  pub scenes : AreTitled o.scenes
