-- ===== src/Broadcast/State.antt =====
-- The `Manager` struct of backend/internal/broadcast/broadcast.go, its destinations, and what it
-- depends on. A process is its number, and a `uuid.UUID` is its text.
use Prim.Native.Nat.{◌%◌, ◌^◌}
use po_c_go_live.Base.{ℕ, ◌+◌, String, Bool, Option, none, false, List, [], ◌⊎◌}
use po_c_go_live.Dict.{Dict}
use po_c_go_live.Events.{Hub}
use po_c_go_live.Obs.{Controller, Fault}

pub record Destination : Type 0 where
  pub live_id : String
  pub platform_name : String
  pub push_url : String

pub data RelayState : Type 0 where
  connected failed stopped : RelayState

pub record DestinationStatus : Type 0 where
  pub live_id : String
  pub platform_name : String
  pub state : RelayState
  pub last_error : String

pub record StatusSnapshot : Type 0 where
  pub active_client : Option String
  pub running : Bool
  pub destinations : List DestinationStatus

-- `destRuntime`
pub record Runtime : Type 0 where
  pub status : DestinationStatus
  pub proc : Option ℕ
  pub dest : Destination
  pub gen : ℕ

pub record Manager : Type 0 where
  pub client : Option String
  pub running : Bool
  pub dests : Dict Runtime
  pub next_gen : ℕ

-- `NewManager`, less what it is given.
abbrev pub new_manager : Manager
new_manager = record { client = none; running = false; dests = []; next_gen = 0 }

-- gen++ on a `uint64`.
abbrev pub bump : ℕ → ℕ
bump g = (g + 1) % 2 ^ 64

-- What `Start` and the other methods return in place of nil. The last three pass an error on: of the
-- provider of live identifiers, of OBS and of the process runner.
pub data Refusal : Type 0 where
  no_active_client no_destinations nothing_live client_switch : Refusal
  destination_not_found broadcast_stopped : Refusal
  provider_failed : Refusal
  obs_failed : Fault → Refusal
  process_failed : String → Refusal

-- The collaborators: `obs`, `live` and the hub may be nil.
pub record Deps (W : Type 0) : Type 0 where
  pub obs : Option (Controller W)
  pub live : Option (W → Bool)
  pub has_hub : Bool
  pub list_active : String → W → Option (List Destination) × W
  pub program_stream_url : String
  pub run_process : String → String → W → (ℕ ⊎ String) × W
  pub kill : ℕ → W → W

-- A goroutine `watch`, which waits for its process.
pub record Watch : Type 0 where
  pub live_id : String
  pub gen : ℕ
  pub proc : ℕ

pub record Sys (W : Type 0) : Type 0 where
  pub manager : Manager
  pub watches : List Watch
  pub hub : Hub StatusSnapshot
  pub world : W
