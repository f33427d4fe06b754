-- ===== src/Client/Rules.antt =====
-- The rules of backend/internal/client as an invariant of its table.
use po_c_go_live.Base.{String, List, [], ◌∷◌}
use po_c_go_live.Client.Model.{CreateRequest, UpdateFields}
use po_c_go_live.Client.Service.{Table, Deps, create, update, delete}
use po_c_go_live.Client.Valid.{AreClients, create-AreClients}
use po_c_go_live.Client.Changed.{update-AreClients, delete-AreClients}

pub data Command : Type 0 where
  creates : Deps → CreateRequest → Command
  updates : Deps → String → UpdateFields → Command
  deletes : Deps → String → Command

unfoldable pub execute : Command → Table → Table
execute (creates d req) t = (create d req t).1
execute (updates d id f) t = (update d id f t).1
execute (deletes d id) t = (delete d id t).1

unfoldable pub run : List Command → Table → Table
run [] t = t
run (c ∷ cs) t = run cs (execute c t)

pub execute-AreClients : (c : Command) (t : Table) → AreClients t → AreClients (execute c t)
unfolding execute
execute-AreClients (creates d req) t h = create-AreClients d req t h
execute-AreClients (updates d id f) t h = update-AreClients d id f t h
execute-AreClients (deletes d id) t h = delete-AreClients d id t h

-- Whatever is created, updated and deleted, and whether or not the database answers each time: no two
-- clients that are not deleted have one name; a client's name is not empty and has at most 200 bytes,
-- and its address, if it has one, matches the pattern and has at most 320. This goes on from any table
-- where it holds.
pub run-AreClients : (cs : List Command) (t : Table) → AreClients t → AreClients (run cs t)
unfolding run
run-AreClients [] t h = h
run-AreClients (c ∷ cs) t h = run-AreClients cs (execute c t) (execute-AreClients c t h)
