-- ===== src/Orchestrator/Refines/Positions.antt =====
-- The writes of the methods on positions.
use po_c_go_live.Base.{String, ◌≡◌, ◌⊎◌, inl, inr, false, arith}
use po_c_go_live.Orchestrator.Ids.{new_id, new_id-ne-empty, new_id-ne-simple}
use po_c_go_live.Orchestrator.Models.{Err, is_simple}
use po_c_go_live.Orchestrator.State.{Deps, Sys, ok, err, Result-cases}
use po_c_go_live.Orchestrator.Names.{validate_position_name}
use po_c_go_live.Orchestrator.Positions.{
  register_hidden, add_position, rename_position_to, remove_position, without_position,
  ensure_hidden_position, create_position, rename_position, delete_position,
}
use po_c_go_live.Orchestrator.Start.{start}
use po_c_go_live.Orchestrator.Queries.{persist_positions}
use po_c_go_live.Orchestrator.Step.{Steps, still, one, hides, adds, undoes_add, renames, removes}

module _ {W : Type 0} (d : Deps W) where
  ensure_hidden_cases :
      (s : Sys W)
      → ((ensure_hidden_position d s).1.orch ≡ s.orch)
        ⊎ ((ensure_hidden_position d s).1.orch ≡ (register_hidden s.orch).1)
  unfolding ensure_hidden_position
  ensure_hidden_cases s = ground arith

  pub ensure_hidden-Steps :
      {C : Type 0} (s : Sys W) → Steps C s.orch (ensure_hidden_position d s).1.orch
  ensure_hidden-Steps s = elim (ensure_hidden_cases s) [ inl e ↦ still e | inr e ↦ one (hides e) ]

  start_cases :
      (s : Sys W)
      → ((start d s).1.orch ≡ s.orch) ⊎ ((start d s).1.orch ≡ (register_hidden s.orch).1)
  unfolding start ensure_hidden_position
  start_cases s = ground arith

  pub start-Steps : {C : Type 0} (s : Sys W) → Steps C s.orch (start d s).1.orch
  start-Steps s = elim (start_cases s) [ inl e ↦ still e | inr e ↦ one (hides e) ]

  -- The identifier that the next `NewID` returns.
  abbrev drawn : Sys W → String
  drawn s = new_id (d.rand_read s.world).0

  create_refused :
      (name : String) (s : Sys W) {e : Err}
      → validate_position_name name ≡ err e
      → (create_position d name s).1.orch ≡ s.orch
  unfolding create_position
  create_refused name s h = ground arith

  create_cases :
      (name t : String) (s : Sys W)
      → validate_position_name name ≡ ok t
      → ((create_position d name s).1.orch ≡ s.orch)
        ⊎ ((create_position d name s).1.orch ≡ (add_position (drawn s) t s.orch).1)
        ⊎ ((create_position d name s).1.orch
            ≡ without_position (drawn s) (add_position (drawn s) t s.orch).1)
  unfolding create_position persist_positions
  create_cases name t s h = ground arith

  pub create_position-Steps :
      {C : Type 0} (name : String) (s : Sys W) → Steps C s.orch (create_position d name s).1.orch
  create_position-Steps name s = elim (Result-cases (validate_position_name name)) [
    | inr (e, h) ↦ still (create_refused name s h)
    | inl (t, h) ↦ elim (create_cases name t s h) [
      | inl e ↦ still e
      | inr (inl e) ↦ one (adds (drawn s) t (new_id-ne-empty _) (new_id-ne-simple _) e)
      | inr (inr e) ↦ one (undoes_add (drawn s) t (new_id-ne-empty _) (new_id-ne-simple _) e)
    ]
  ]

  rename_cases :
      (id name t : String) (s : Sys W)
      → validate_position_name name ≡ ok t
      → ((rename_position d id name s).1.orch ≡ s.orch)
        ⊎ ((is_simple id ≡ false)
            × ((rename_position d id name s).1.orch ≡ (rename_position_to id t s.orch).1))
  unfolding rename_position persist_positions
  rename_cases id name t s h = ground arith

  rename_refused :
      (id name : String) (s : Sys W) {e : Err}
      → validate_position_name name ≡ err e
      → (rename_position d id name s).1.orch ≡ s.orch
  unfolding rename_position
  rename_refused id name s h = ground arith

  pub rename_position-Steps :
      {C : Type 0} (id name : String) (s : Sys W)
      → Steps C s.orch (rename_position d id name s).1.orch
  rename_position-Steps id name s = elim (Result-cases (validate_position_name name)) [
    | inr (e, h) ↦ still (rename_refused id name s h)
    | inl (t, h) ↦ elim (rename_cases id name t s h) [
      | inl e ↦ still e
      | inr (i, e) ↦ one (renames id t i e)
    ]
  ]

  delete_cases :
      (id : String) (s : Sys W)
      → ((delete_position d id s).1.orch ≡ s.orch)
        ⊎ ((is_simple id ≡ false)
            × ((delete_position d id s).1.orch ≡ (remove_position id s.orch).1))
  unfolding delete_position persist_positions
  delete_cases id s = ground arith

  pub delete_position-Steps :
      {C : Type 0} (id : String) (s : Sys W) → Steps C s.orch (delete_position d id s).1.orch
  delete_position-Steps id s = elim (delete_cases id s) [
    | inl e ↦ still e
    | inr (i, e) ↦ one (removes id i e)
  ]
