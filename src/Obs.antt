-- ===== src/Obs.antt =====
-- backend/internal/obs/obs.go: the `Controller` interface, as its callers see it. `W` is the state
-- of everything outside the process that calls it.
pub mod Mock
pub mod Client
pub mod Watch
pub mod Backoff
pub mod Contract
pub mod OverGoobs
pub mod Desk
mod Tests
use po_c_go_live.Base.{String, Bool, Option}

-- An error of a call: `ErrInputNotFound`, or any other.
pub data Fault : Type 0 where
  input_not_found failed : Fault

-- A call that returns only an error.
abbrev pub Call : Type 0 → Type 0
Call W = W → Option Fault × W

pub record Controller (W : Type 0) : Type 0 where
  pub ensure_scene : String → Call W
  pub create_position_input : String → String → Call W
  pub update_position_source : String → String → Call W
  pub set_position_enabled : String → String → Bool → Call W
  pub set_input_audio_muted : String → Bool → Call W
  pub remove_input : String → Call W
  pub is_connected : W → Bool
  pub reconnect : Call W
  pub start_program_stream : String → Call W
  pub stop_program_stream : Call W
  pub is_streaming : W → Bool
