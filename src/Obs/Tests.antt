-- ===== src/Obs/Tests.antt =====
-- Runs of the controller of backend/internal/obs/obs.go with an OBS in memory.
use po_c_go_live.Base.{
  ◌≡◌, ◌≢◌, refl, inl, inr, Option-cases, Bool, true, false, none, List, [], ◌∷◌, arith, eq_iff,
}
use po_c_go_live.Dict.{get-put, get-del, contains-keys}
use po_c_go_live.Obs.Client.{ObsController, controller, connect, healthy, reconnect}
use po_c_go_live.Obs.Desk.{Desk, desk_has, goobs}
use po_c_go_live.Obs.Contract.{IsContract}
use po_c_go_live.Obs.OverGoobs.{AreInputs, obs_has, controller-IsContract}
use po_c_go_live.Obs.Watch.{Turn, Watch, watch_loop, initial_backoff, max_backoff}
use po_c_go_live.Obs.Backoff.{
  IsBackoff, IsUp, AreDown, watch_loop-IsBackoff, watch_loop-backoff, watch_loop-IsUp, doubled,
}

goobs-AreInputs : AreInputs goobs desk_has
goobs-AreInputs = record {
  lists = λ c v names input e. ground (arith, contains-keys input v.inputs);
  created = λ c r v e.
      ground
        (arith, get-put r.input_name r.input_name "" v.inputs, eq_iff r.input_name r.input_name);
  refused = λ c r v j e. ground arith;
  set = λ c input s b v j. refl;
  deleted = λ c input v e. ground (arith, get-del input input v.inputs, eq_iff input input);
}

controller-IsContract_example : IsContract (controller goobs) (obs_has goobs desk_has)
controller-IsContract_example = controller-IsContract goobs desk_has goobs-AreInputs

abbrev switched : Bool → ObsController (Unit {0}) Desk → ObsController (Unit {0}) Desk
switched b o = record o { world = record o.world { up = b } }

-- OBS is away, or back, at the tick and at the end of the wait.
abbrev away : Turn (Unit {0}) Desk
away = record {
  before = switched false;
  stopped = false;
  meanwhile = switched false;
  stopped_waiting = false;
}

abbrev back : Turn (Unit {0}) Desk
back = record {
  before = switched false;
  stopped = false;
  meanwhile = switched true;
  stopped_waiting = false;
}

abbrev begin : Watch (Unit {0}) Desk
begin = record {
  controller = record {
    addr = "localhost:4455";
    password = "";
    client = none;
    connected = false;
    world = record { up = false; inputs = []; a_enabled = false; b_enabled = false };
  };
  backoff = initial_backoff;
}

watch_loop-IsBackoff_example : IsBackoff (watch_loop goobs (away ∷ back ∷ []) begin)
watch_loop-IsBackoff_example =
    watch_loop-IsBackoff goobs (away ∷ back ∷ []) begin (omega arith, omega arith)

away-IsDown :
    (o : ObsController (Unit {0}) Desk)
    → ((healthy goobs (switched false o)).0 ≡ false)
      × ((reconnect goobs (switched false o)).0 ≢ none)
unfolding healthy reconnect connect
away-IsDown o = elim (Option-cases o.client) [ inl z ↦ ground arith | inr (c, z) ↦ ground arith ]

back-Answers : (o : ObsController (Unit {0}) Desk) → (reconnect goobs (switched true o)).0 ≡ none
unfolding reconnect connect
back-Answers o = elim (Option-cases o.client) [ inl z ↦ ground arith | inr (c, z) ↦ ground arith ]

more : (ts : List (Turn (Unit {0}) Desk)) → AreDown goobs ts → AreDown goobs (away ∷ ts)
more ts h = ((refl, refl), away-IsDown, h)

abbrev aways : List (Turn (Unit {0}) Desk)
aways = away ∷ away ∷ away ∷ away ∷ away ∷ []

aways-AreDown : AreDown goobs aways
aways-AreDown =
    more (away ∷ away ∷ away ∷ away ∷ [])
      (more (away ∷ away ∷ away ∷ []) (more (away ∷ away ∷ []) (more (away ∷ []) (more [] tt))))

-- After five failures the wait would be 32 seconds, and is 30.
watch_loop-backoff_example : (watch_loop goobs aways begin).backoff ≡ max_backoff
unfolding doubled
watch_loop-backoff_example = watch_loop-backoff goobs aways begin aways-AreDown (omega arith)

watch_loop-IsUp_example : IsUp goobs (watch_loop goobs (away ∷ back ∷ []) begin)
watch_loop-IsUp_example =
    watch_loop-IsUp goobs (away ∷ []) back begin ((refl, refl), tt) (refl, refl) back-Answers
