-- ===== src/Broadcast/Destinations.antt =====
-- `spawnLocked`, `killAllLocked`, the snapshot and its publication, of
-- backend/internal/broadcast/broadcast.go.
use po_c_go_live.Base.{ℕ, String, inl, inr, Option, none, some, List, [], ◌∷◌, ◌++◌, if◌then◌else◌}
use po_c_go_live.Dict.{Dict, put}
use po_c_go_live.Events.{publish}
use po_c_go_live.Broadcast.State.{
  Destination, DestinationStatus, StatusSnapshot, Runtime, Manager, bump, Deps, Sys, connected,
  stopped,
}

statuses : Dict Runtime → List DestinationStatus
statuses [] = []
statuses ((k, rt) ∷ m) = rt.status ∷ statuses m

-- `snapshotLocked`
unfoldable pub snapshot : Manager → StatusSnapshot
unfolding statuses
snapshot m = record {
  active_client = m.client;
  running = m.running;
  destinations = statuses m.dests;
}

abbrev pub kill_proc : {W : Type 0} → Deps W → Option ℕ → W → W
kill_proc d none w = w
kill_proc d (some p) w = d.kill p w

stop_runtime : Runtime → Runtime
stop_runtime rt = record rt {
  proc = none;
  gen = bump rt.gen;
  status = record rt.status { state = stopped; last_error = "" };
}

abbrev pub new_runtime : Destination → ℕ → ℕ → Runtime
new_runtime x proc gen = record {
  status = record {
    live_id = x.live_id;
    platform_name = x.platform_name;
    state = connected;
    last_error = "";
  };
  proc = some proc;
  dest = x;
  gen = gen;
}

module _ {W : Type 0} (d : Deps W) where
  -- `publishLocked`
  unfoldable pub publish_status : Sys W → Sys W
  publish_status s = if d.has_hub then record s { hub = publish (snapshot s.manager) s.hub } else s

  -- `killAllLocked`, on the destinations.
  unfoldable pub kill_all : Dict Runtime → W → Dict Runtime × W
  unfolding stop_runtime
  kill_all [] w = ([], w)
  kill_all ((k, rt) ∷ m) w =
      let (rest, w') = kill_all m (kill_proc d rt.proc w) in ((k, stop_runtime rt) ∷ rest, w')

  abbrev pub adopt : Destination → ℕ → Sys W → Sys W
  adopt x proc s =
      let gen = bump s.manager.next_gen in
      record s {
        manager = record s.manager {
          dests = put x.live_id (new_runtime x proc gen) s.manager.dests;
          next_gen = gen;
        };
        watches = s.watches ++ record { live_id = x.live_id; gen = gen; proc = proc } ∷ [];
      }

  -- `spawnLocked`, with the runner's error.
  unfoldable pub spawn : Destination → Sys W → Option String × Sys W
  spawn x s =
      let (r, w) = d.run_process d.program_stream_url x.push_url s.world in
      let s' : Sys W = record s { world = w } in
      elim r [ inl proc ↦ (none, adopt x proc s') | inr e ↦ (some e, s') ]

  -- The loop of `Start`, which stops at the first error.
  unfoldable pub spawn_all : List Destination → Sys W → Option String × Sys W
  spawn_all [] s = (none, s)
  spawn_all (x ∷ xs) s =
      let (e, s') = spawn x s in
      let rest = spawn_all xs s' in elim e [ none ↦ rest | some message ↦ (some message, s') ]
