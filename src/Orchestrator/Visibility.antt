-- ===== src/Orchestrator/Visibility.antt =====
-- `applyExclusiveVisibility` of backend/internal/orchestrator/orchestrator.go.
use po_c_go_live.Base.{String, List, [], ◌∷◌, contains}
use po_c_go_live.Dict.{keys}
use po_c_go_live.Orchestrator.State.{Deps, M, pure, read, ◌>>=◌, ◌>>◌, call}
use po_c_go_live.Orchestrator.Positions.{position_input_name, unreachable}

module _ {W : Type 0} (d : Deps W) where
  -- The loop over `allIDs`, which returns at the first error.
  unfoldable pub set_each : List String → List String → M W (Unit {0})
  set_each enabled [] = pure tt
  set_each enabled (id ∷ ids) =
      call
        (d.obs.set_position_enabled d.program_scene (position_input_name id) (contains id enabled))
        unreachable
      >> set_each enabled ids

  unfoldable pub apply_exclusive_visibility : List String → M W (Unit {0})
  apply_exclusive_visibility enabled = do all ← read (λ o. keys o.positions); set_each enabled all
