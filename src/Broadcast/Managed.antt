-- ===== src/Broadcast/Managed.antt =====
-- Which destinations have a process: the invariant of the manager of
-- backend/internal/broadcast/broadcast.go.
pub mod Keeping
use po_c_go_live.Base.{String, ◌≡◌, Bool, true, false, Option, none, some}
use po_c_go_live.Dict.{Dict, get}
use po_c_go_live.Broadcast.State.{RelayState, connected, Runtime, Manager}

abbrev pub is_connected : RelayState → Bool
is_connected connected = true
is_connected _ = false

abbrev pub is_some {ℓ} : {A : Type ℓ} → Option A → Bool
is_some none = false
is_some (some a) = true

-- A runtime says that it is connected if and only if it has a process, and none has a process when
-- the broadcast is not running.
abbrev pub IsTrue : Bool → Runtime → Type 0
IsTrue running rt =
    (is_connected rt.status.state ≡ is_some rt.proc) × (running ≡ false → rt.proc ≡ none)

abbrev pub AreTrue : Bool → Dict Runtime → Type 0
AreTrue running m = (i : String) (rt : Runtime) → get i m ≡ some rt → IsTrue running rt

abbrev pub IsManaged : Manager → Type 0
IsManaged m = AreTrue m.running m.dests
