-- ===== src/Broadcast/Methods.antt =====
-- The methods of the `Manager` of backend/internal/broadcast/broadcast.go that change its state.
use po_c_go_live.Base.{
  ℕ, String, Bool, true, false, not, inl, inr, Option, none, some, List, [], ◌∷◌, ◌++◌, ◌==◌, eqb,
  if◌then◌else◌,
}
use po_c_go_live.Dict.{get, put}
use po_c_go_live.Obs.{Fault}
use po_c_go_live.Broadcast.State.{
  Destination, Runtime, bump, Refusal, no_active_client, no_destinations, nothing_live,
  client_switch, destination_not_found, broadcast_stopped, provider_failed, obs_failed,
  process_failed, Deps, Watch, Sys, connected, failed,
}
use po_c_go_live.Broadcast.Destinations.{publish_status, kill_all, spawn_all}

-- m.client != nil && *m.client == clientID
abbrev pub is_client : String → Option String → Bool
is_client id none = false
is_client id (some c) = c == id

-- m.live != nil && !m.live.SomethingLive()
abbrev pub is_off_air : {W : Type 0} → Option (W → Bool) → W → Bool
is_off_air none w = false
is_off_air (some live) w = not (live w)

abbrev exit_message : Option String → String
exit_message none = "process exited"
exit_message (some e) = e

abbrev pub end_runtime : Option String → Runtime → Runtime
end_runtime e rt = record rt {
  proc = none;
  status = record rt.status { state = failed; last_error = exit_message e };
}

-- `RestartDestination` with a new process, and with the runner's error.
abbrev pub up_runtime : ℕ → Runtime → Runtime
up_runtime p rt = record rt {
  proc = some p;
  gen = bump rt.gen;
  status = record rt.status { state = connected; last_error = "" };
}

abbrev pub down_runtime : String → Runtime → Runtime
down_runtime e rt = record rt {
  proc = none;
  gen = bump rt.gen;
  status = record rt.status { state = failed; last_error = e };
}

module _ {W : Type 0} (d : Deps W) where
  unfoldable pub set_active_client : String → Sys W → Option Refusal × Sys W
  set_active_client id s =
      if s.manager.running
      then (some client_switch, s)
      else if is_client id s.manager.client
      then (none, s)
      else (none, publish_status d (record s { manager = record s.manager { client = some id } }))

  -- _ = m.obsCtl.StopProgramStream(), unless it is nil.
  unfoldable pub stream_off : Sys W → Sys W
  stream_off s = elim d.obs [
    | none ↦ s
    | some c ↦ record s { world = (c.stop_program_stream s.world).1 }
  ]

  unfoldable pub stream_on : Sys W → Option Fault × Sys W
  stream_on s = elim d.obs [
    | none ↦ (none, s)
    | some c ↦
        let (f, w) = c.start_program_stream d.program_stream_url s.world in
        if c.is_streaming s.world then (none, s) else (f, record s { world = w })
  ]

  abbrev pub with_killed : Sys W → Sys W
  with_killed s =
      let (ds, w) = kill_all d s.manager.dests s.world in
      record s { manager = record s.manager { dests = ds }; world = w }

  abbrev pub settle : Option String × Sys W → Option Refusal × Sys W
  settle (none, s) =
      (none, publish_status d (record s { manager = record s.manager { running = true } }))
  settle (some message, s) =
      let s' = with_killed s in
      (
        some (process_failed message),
        stream_off (record s' { manager = record s'.manager { dests = [] } }),
      )

  -- `Start` from its second lock on.
  unfoldable pub begin_session : String → List Destination → Sys W → Option Refusal × Sys W
  begin_session id xs s =
      if s.manager.running
      then (none, s)
      else if is_client id s.manager.client
      then settle (spawn_all d xs (record s { manager = record s.manager { dests = [] } }))
      else (some no_active_client, s)

  abbrev pub open_on_air : String → List Destination → Option Fault × Sys W → Option Refusal × Sys W
  open_on_air id xs (none, s) = begin_session id xs s
  open_on_air id xs (some f, s) = (some (obs_failed f), s)

  abbrev pub start_listed : String → Option (List Destination) → Sys W → Option Refusal × Sys W
  start_listed id none s = (some provider_failed, s)
  start_listed id (some []) s = (some no_destinations, s)
  start_listed id (some (x ∷ xs)) s = open_on_air id (x ∷ xs) (stream_on s)

  unfoldable pub start_for : String → Sys W → Option Refusal × Sys W
  start_for id s =
      let (xs, w) = d.list_active id s.world in
      if is_off_air d.live s.world
      then (some nothing_live, s)
      else start_listed id xs (record s { world = w })

  unfoldable pub start : Sys W → Option Refusal × Sys W
  start s =
      if s.manager.running
      then (none, s)
      else elim s.manager.client [ none ↦ (some no_active_client, s) | some id ↦ start_for id s ]

  -- `Stop`, which never returns an error.
  unfoldable pub stop : Sys W → Sys W
  stop s =
      let s' = with_killed s in
      if s.manager.running
      then publish_status d
          (stream_off (record s' { manager = record s'.manager { running = false } }))
      else s

  abbrev pub with_dest : String → Runtime → Sys W → Sys W
  with_dest id rt s = record s { manager = record s.manager { dests = put id rt s.manager.dests } }

  abbrev pub kill_if : Option ℕ → Sys W → Sys W
  kill_if none s = s
  kill_if (some p) s = record s { world = d.kill p s.world }

  -- `RestartDestination`, after the old process is killed.
  abbrev pub respawn : String → Runtime → Sys W → Option Refusal × Sys W
  respawn id rt s =
      let (r, w) = d.run_process d.program_stream_url rt.dest.push_url s.world in
      let s' : Sys W = record s { world = w } in
      elim r [
        | inr e ↦ (some (process_failed e), publish_status d (with_dest id (down_runtime e rt) s'))
        | inl p ↦ (
          none,
          publish_status d (record (with_dest id (up_runtime p rt) s') {
            watches = s.watches ++ record { live_id = id; gen = bump rt.gen; proc = p } ∷ [];
          }),
        )
      ]

  unfoldable pub restart_destination : String → Sys W → Option Refusal × Sys W
  restart_destination id s =
      if s.manager.running
      then elim (get id s.manager.dests) [
        | none ↦ (some destination_not_found, s)
        | some rt ↦ respawn id rt (kill_if rt.proc s)
      ]
      else (some broadcast_stopped, s)

  -- `watch` after its process has ended, with the error that `Wait` returned.
  unfoldable pub watch : Watch → Option String → Sys W → Sys W
  watch x e s = elim (get x.live_id s.manager.dests) [
    | none ↦ s
    | some rt ↦
        if not (eqb rt.gen x.gen)
        then s
        else if s.manager.running
        then publish_status d (with_dest x.live_id (end_runtime e rt) s)
        else s
  ]
