-- ===== src/Broadcast/Commands.antt =====
-- What can happen to a manager: its methods are called, and the processes that it watches end.
use po_c_go_live.Base.{String, Option, List, [], ◌∷◌}
use po_c_go_live.Broadcast.State.{Deps, Watch, Sys}
use po_c_go_live.Broadcast.Methods.{set_active_client, start, stop, restart_destination, watch}

pub data Command : Type 0 where
  selects : String → Command
  starts stops : Command
  restarts : String → Command
  ends : Watch → Option String → Command

module _ {W : Type 0} (d : Deps W) where
  unfoldable pub execute : Command → Sys W → Sys W
  execute (selects id) s = (set_active_client d id s).1
  execute starts s = (start d s).1
  execute stops s = stop d s
  execute (restarts id) s = (restart_destination d id s).1
  execute (ends x e) s = watch d x e s

  unfoldable pub run : List Command → Sys W → Sys W
  run [] s = s
  run (c ∷ cs) s = run cs (execute c s)
