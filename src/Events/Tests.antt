-- ===== src/Events/Tests.antt =====
-- A run of the hub.
use po_c_go_live.Base.{ℕ, List, [], ◌∷◌}
use po_c_go_live.Events.{new_hub}
use po_c_go_live.Events.Commands.{Command, subscribes, publishes, cancels, receives, run}
use po_c_go_live.Events.Open.{IsOpen, new-run-IsOpen}

abbrev commands : List (Command ℕ)
commands =
    subscribes ∷ publishes 5 ∷ subscribes ∷ cancels 0 ∷ cancels 0 ∷ publishes 6 ∷ receives 1 ∷ []

new-run-IsOpen_example : IsOpen (run commands new_hub)
new-run-IsOpen_example = new-run-IsOpen commands
