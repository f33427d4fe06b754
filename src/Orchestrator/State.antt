-- ===== src/Orchestrator/State.antt =====
-- The `Orchestrator` struct of backend/internal/orchestrator/orchestrator.go, what it depends on, and
-- the actions that its methods are built from.
use po_c_go_live.Base.{
  ◌≡◌, refl, ◌⊎◌, inl, inr, ℕ, String, Bool, true, false, Option, none, some, List,
}
use po_c_go_live.Dict.{Dict}
use po_c_go_live.Events.{Hub, publish}
use po_c_go_live.Obs.{Controller, Call, Fault}
use po_c_go_live.Orchestrator.Ids.{Bytes}
use po_c_go_live.Orchestrator.Models.{Camera, Position, Scene, LiveState, PositionDef, Err, Event}

pub record Orch : Type 0 where
  pub cameras : Dict Camera
  pub offline_since : Dict ℕ
  pub media_connected : Bool
  pub positions : Dict Position
  pub scenes : Dict Scene
  pub audio_position_id : String
  pub live : LiveState
  pub hidden_ready : Bool

-- The collaborators. `rand_read` is `rand.Read` of eight bytes, which `NewID` panics without.
pub record Deps (W : Type 0) : Type 0 where
  pub program_scene : String
  pub media_source_base_url : String
  pub obs : Controller W
  pub save_positions : List PositionDef → W → Bool × W
  pub save_scenes : List Scene → W → Bool × W
  pub rand_read : W → Bytes × W
  pub list_active_streams : W → Option (List String) × W
  pub now : W → ℕ × W

-- The state that a method runs in: the struct's own, the hub's and that of the collaborators.
pub record Sys (W : Type 0) : Type 0 where
  pub orch : Orch
  pub hub : Hub Event
  pub world : W

pub data Result (A : Type 0) : Type 0 where
  ok : A → Result A
  err : Err → Result A

pub Result-cases : {A : Type 0} (r : Result A) → ((a : A) × (r ≡ ok a)) ⊎ ((e : Err) × (r ≡ err e))
Result-cases (ok a) = inl (a, refl)
Result-cases (err e) = inr (e, refl)

-- A method. What it wrote before it returned an error stays written.
abbrev pub M : Type 0 → Type 0 → Type 0
M W A = Sys W → Result A × Sys W

-- A section under the lock: it sees only the struct.
abbrev pub Section : Type 0 → Type 0
Section A = Orch → Result A × Orch

abbrev pub done : Option Fault → (Fault → Err) → Result (Unit {0})
done none e = ok tt
done (some f) e = err (e f)

abbrev pub found : {A : Type 0} → Option A → Err → Result A
found none e = err e
found (some a) e = ok a

module _ {W A : Type 0} where
  abbrev pub pure : A → M W A
  pure a s = (ok a, s)

  abbrev pub fail : Err → M W A
  fail e s = (err e, s)

  abbrev pub lift : Result A → M W A
  lift r s = (r, s)

  abbrev pub locked : Section A → M W A
  locked f s = let (r, o) = f s.orch in (r, record s { orch = o })

  abbrev pub read : (Orch → A) → M W A
  read f s = (ok (f s.orch), s)

  abbrev pub ask : (W → A × W) → M W A
  ask f s = let (a, w) = f s.world in (ok a, record s { world = w })

  abbrev pub settle : Result A → (Err → M W A) → M W A
  settle (ok a) h s = (ok a, s)
  settle (err e) h s = h e s

  -- What is done on an error before it is returned.
  abbrev pub on_error : M W A → (Err → M W A) → M W A
  on_error m h s = let (r, s') = m s in settle r h s'

module _ {W A B : Type 0} where
  abbrev pub continue : Result A → (A → M W B) → M W B
  continue (ok a) f s = f a s
  continue (err e) f s = (err e, s)

  infixl 5 ◌>>=◌ ◌>>◌
  abbrev pub ◌>>=◌ : M W A → (A → M W B) → M W B
  ◌>>=◌ m f s = let (r, s') = m s in continue r f s'

  abbrev pub ◌>>◌ : M W A → M W B → M W B
  m >> k = m >>= λ _. k

module _ {W : Type 0} where
  -- if bad { return err }
  abbrev pub reject_if : Bool → Err → M W (Unit {0})
  reject_if true e s = (err e, s)
  reject_if false e s = (ok tt, s)

  -- if err := call; err != nil { return e(err) }
  abbrev pub call : Call W → (Fault → Err) → M W (Unit {0})
  call c e s = let (f, w) = c s.world in (done f e, record s { world = w })

  -- A step whose error is only logged.
  abbrev pub ignore_error : M W (Unit {0}) → M W (Unit {0})
  ignore_error m = on_error m (λ e. pure tt)

  -- The same of a call.
  abbrev pub attempt : Call W → M W (Unit {0})
  attempt c s = let (f, w) = c s.world in (ok tt, record s { world = w })

  abbrev pub attempt_if : Bool → Call W → M W (Unit {0})
  attempt_if true c = attempt c
  attempt_if false c = pure tt

  abbrev pub publish_event : (Sys W → Event) → M W (Unit {0})
  publish_event e s = (ok tt, record s { hub = publish (e s) s.hub })

  abbrev pub run_if : Bool → M W (Unit {0}) → M W (Unit {0})
  run_if true m = m
  run_if false m = pure tt
