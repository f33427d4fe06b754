-- ===== src/Orchestrator/Refines/Assignment.antt =====
-- The writes of the methods that move cameras and sound.
use po_c_go_live.Base.{String, ◌≡◌, ◌⊎◌, inl, inr, true, false, arith}
use po_c_go_live.Orchestrator.Models.{is_simple}
use po_c_go_live.Orchestrator.State.{Deps, Sys}
use po_c_go_live.Orchestrator.Assignment.{
  commit_assign, commit_unassign, commit_audio, commit_audio_internal, check_assign, check_audio,
  silence_bumped, move_sound, assign_camera, unassign_position, set_audio_position,
  set_audio_position_internal,
}
use po_c_go_live.Orchestrator.Step.{
  Steps, still, one, online_at, assigns, unassigns, sounds, sounds_hidden,
}

module _ {W : Type 0} (d : Deps W) where
  assign_cases :
      (position_id camera_id : String) (s : Sys W)
      → ((assign_camera d position_id camera_id s).1.orch ≡ s.orch)
        ⊎ (((assign_camera d position_id camera_id s).1.orch
              ≡ (commit_assign position_id camera_id s.orch).1)
            × (online_at camera_id s.orch.cameras ≡ true)
            × (is_simple position_id ≡ false))
  unfolding assign_camera check_assign silence_bumped
  assign_cases position_id camera_id s = ground arith

  pub assign_camera-Steps :
      {C : Type 0} (position_id camera_id : String) (s : Sys W)
      → Steps C s.orch (assign_camera d position_id camera_id s).1.orch
  assign_camera-Steps position_id camera_id s = elim (assign_cases position_id camera_id s) [
    | inl e ↦ still e
    | inr (e, h, i) ↦ one (assigns position_id camera_id h i e)
  ]

  unassign_cases :
      (position_id : String) (s : Sys W)
      → ((unassign_position d position_id s).1.orch ≡ s.orch)
        ⊎ ((is_simple position_id ≡ false)
            × ((unassign_position d position_id s).1.orch ≡ (commit_unassign position_id s.orch).1))
  unfolding unassign_position
  unassign_cases position_id s = ground arith

  pub unassign_position-Steps :
      {C : Type 0} (position_id : String) (s : Sys W)
      → Steps C s.orch (unassign_position d position_id s).1.orch
  unassign_position-Steps position_id s = elim (unassign_cases position_id s) [
    | inl e ↦ still e
    | inr (i, e) ↦ one (unassigns position_id i e)
  ]

  audio_cases :
      (position_id : String) (s : Sys W)
      → ((set_audio_position d position_id s).1.orch ≡ s.orch)
        ⊎ ((is_simple position_id ≡ false)
            × ((set_audio_position d position_id s).1.orch
                ≡ (commit_audio position_id s.orch.audio_position_id s.orch).1))
  unfolding set_audio_position check_audio move_sound
  audio_cases position_id s = ground arith

  pub set_audio_position-Steps :
      {C : Type 0} (position_id : String) (s : Sys W)
      → Steps C s.orch (set_audio_position d position_id s).1.orch
  set_audio_position-Steps position_id s = elim (audio_cases position_id s) [
    | inl e ↦ still e
    | inr (i, e) ↦ one (sounds position_id i e)
  ]

  audio_internal_cases :
      (position_id : String) (s : Sys W)
      → ((set_audio_position_internal d position_id s).1.orch ≡ s.orch)
        ⊎ ((set_audio_position_internal d position_id s).1.orch
            ≡ (commit_audio_internal position_id s.orch.audio_position_id s.orch).1)
  unfolding set_audio_position_internal move_sound
  audio_internal_cases position_id s = ground arith

  pub set_audio_position_internal-Steps :
      {C : Type 0} (position_id : String) (s : Sys W)
      → Steps C s.orch (set_audio_position_internal d position_id s).1.orch
  set_audio_position_internal-Steps position_id s = elim (audio_internal_cases position_id s) [
    | inl e ↦ still e
    | inr e ↦ one (sounds_hidden position_id e)
  ]

  pub cameras-set_audio_position_internal :
      (position_id : String) (s : Sys W)
      → (set_audio_position_internal d position_id s).1.orch.cameras ≡ s.orch.cameras
  unfolding set_audio_position_internal move_sound commit_audio_internal
  cameras-set_audio_position_internal position_id s = ground arith

  pub scenes-set_audio_position_internal :
      (position_id : String) (s : Sys W)
      → (set_audio_position_internal d position_id s).1.orch.scenes ≡ s.orch.scenes
  unfolding set_audio_position_internal move_sound commit_audio_internal
  scenes-set_audio_position_internal position_id s = ground arith
