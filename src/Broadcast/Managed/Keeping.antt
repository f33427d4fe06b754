-- ===== src/Broadcast/Managed/Keeping.antt =====
-- The invariant on processes, through every method of backend/internal/broadcast/broadcast.go.
use po_c_go_live.Base.{
  ℕ, String, ◌≡◌, Bool, refl, true, false, ◌⊎◌, inl, inr, Option, none, some, List, [], ◌∷◌, arith,
  Option-cases, Bool-cases, if_intro, ap, ◌∙◌, Sum-cases,
}
use po_c_go_live.Dict.{Dict, get, put, get-put}
use po_c_go_live.Obs.{Fault}
use po_c_go_live.Broadcast.State.{Refusal, Destination, Runtime, bump, Deps, Watch, Sys}
use po_c_go_live.Broadcast.Destinations.{
  publish_status, kill_all, spawn, spawn_all, adopt, new_runtime, kill_proc,
}
use po_c_go_live.Broadcast.Methods.{
  set_active_client, stream_off, stream_on, begin_session, start_for, start, stop,
  restart_destination, watch, settle, end_runtime, up_runtime, down_runtime, is_client, open_on_air,
  start_listed, kill_if, respawn,
}
use po_c_go_live.Broadcast.Commands.{Command, selects, starts, stops, restarts, ends, execute, run}
use po_c_go_live.Broadcast.Managed.{IsTrue, AreTrue, IsManaged}

put-AreTrue :
    (b : Bool) (k : String) (x : Runtime) (m : Dict Runtime)
    → IsTrue b x
    → AreTrue b m
    → AreTrue b (put k x m)
put-AreTrue b k x m t h i rt g = ground (arith, get-put k i x m, h i rt)

any_run : (b : Bool) (m : Dict Runtime) → AreTrue b m → AreTrue true m
any_run b m h i rt g = ((h i rt g).0, λ e. ground arith)

empty-AreTrue : AreTrue true []
unfolding get
empty-AreTrue i rt g = ground arith

-- What a method leaves is managed.
abbrev Leaves : {W : Type 0} → Option Refusal × Sys W → Type 0
Leaves (e, s) = IsManaged s.manager

module _ {W : Type 0} (d : Deps W) where
  manager-publish_status : (s : Sys W) → (publish_status d s).manager ≡ s.manager
  unfolding publish_status
  manager-publish_status s = ground arith

  manager-stream_off : (s : Sys W) → (stream_off d s).manager ≡ s.manager
  unfolding stream_off
  manager-stream_off s = ground arith

  manager-stream_on : (s : Sys W) → (stream_on d s).1.manager ≡ s.manager
  unfolding stream_on
  manager-stream_on s = ground arith

  killed-AreTrue : (b : Bool) (m : Dict Runtime) (w : W) → AreTrue b (kill_all d m w).0
  unfolding kill_all get
  killed-AreTrue b [] w i rt g = ground arith
  killed-AreTrue b ((k, x) ∷ m) w i rt g =
      ground (arith, killed-AreTrue b m (kill_proc d x.proc w) i rt)

  spawn_cases :
      (x : Destination) (s : Sys W)
      → ((spawn d x s).1.manager ≡ s.manager)
        ⊎ ((p : ℕ) × ((spawn d x s).1.manager ≡ (adopt d x p s).manager))
  unfolding spawn
  spawn_cases x s = elim (Sum-cases (d.run_process d.program_stream_url x.push_url s.world).0) [
    | inl (p, e) ↦ inr (p, ground arith)
    | inr (m, e) ↦ inl (ground arith)
  ]

  spawned-AreTrue :
      (x : Destination) (s : Sys W)
      → AreTrue true s.manager.dests
      → AreTrue true (spawn d x s).1.manager.dests
  spawned-AreTrue x s h = elim (spawn_cases x s) [
    | inl e ↦ rw e h
    | inr (p, e) ↦ rw e (
        put-AreTrue true x.live_id (new_runtime x p (bump s.manager.next_gen)) s.manager.dests
          (refl, λ n. absurd (ground arith)) h)
  ]

  all_spawned-AreTrue :
      (xs : List Destination) (s : Sys W)
      → AreTrue true s.manager.dests
      → AreTrue true (spawn_all d xs s).1.manager.dests
  unfolding spawn_all
  all_spawned-AreTrue [] s h i rt g = h i rt g
  all_spawned-AreTrue (x ∷ xs) s h i rt g = ground (
    arith,
    spawned-AreTrue x s h i rt,
    all_spawned-AreTrue xs (spawn d x s).1 (spawned-AreTrue x s h) i rt,
  )

  set_active_client-IsManaged :
      (id : String) (s : Sys W)
      → IsManaged s.manager
      → IsManaged (set_active_client d id s).1.manager
  unfolding set_active_client publish_status
  set_active_client-IsManaged id s h i rt g = ground (arith, h i rt)

  watch-IsManaged :
      (x : Watch) (e : Option String) (s : Sys W)
      → IsManaged s.manager
      → IsManaged (watch d x e s).manager
  unfolding watch publish_status
  watch-IsManaged x e s h i rt g = elim (Option-cases (get x.live_id s.manager.dests)) [
    | inl z ↦ ground (arith, h i rt)
    | inr (r, z) ↦ ground (arith, h i rt, get-put x.live_id i (end_runtime e r) s.manager.dests)
  ]

  stop-IsManaged : (s : Sys W) → IsManaged s.manager → IsManaged (stop d s).manager
  unfolding stop publish_status stream_off
  stop-IsManaged s h i rt g =
      ground (arith, h i rt, killed-AreTrue false s.manager.dests s.world i rt)

  settle-IsManaged :
      (r : Option String × Sys W)
      → AreTrue true r.1.manager.dests
      → IsManaged (settle d r).1.manager
  unfolding publish_status stream_off get
  settle-IsManaged (none, s) h i rt g = ground (arith, h i rt)
  settle-IsManaged (some m, s) h i rt g = ground arith

  begin_session-IsManaged :
      (id : String) (xs : List Destination) (s : Sys W)
      → IsManaged s.manager
      → IsManaged (begin_session d id xs s).1.manager
  unfolding begin_session
  begin_session-IsManaged id xs s h =
      let emptied : Sys W = record s { manager = record s.manager { dests = [] } } in
      if_intro Leaves s.manager.running h (
        if_intro Leaves (is_client id s.manager.client)
          (settle-IsManaged (spawn_all d xs emptied) (all_spawned-AreTrue xs emptied empty-AreTrue))
          h)

  open_on_air-IsManaged :
      (id : String) (xs : List Destination) (r : Option Fault × Sys W)
      → IsManaged r.1.manager
      → IsManaged (open_on_air d id xs r).1.manager
  open_on_air-IsManaged id xs (none, s) h = begin_session-IsManaged id xs s h
  open_on_air-IsManaged id xs (some f, s) h = h

  start_listed-IsManaged :
      (id : String) (xs : Option (List Destination)) (s : Sys W)
      → IsManaged s.manager
      → IsManaged (start_listed d id xs s).1.manager
  start_listed-IsManaged id none s h = h
  start_listed-IsManaged id (some []) s h = h
  start_listed-IsManaged id (some (x ∷ xs)) s h =
      open_on_air-IsManaged id (x ∷ xs) (stream_on d s) (rw (manager-stream_on s) h)

  start-IsManaged : (s : Sys W) → IsManaged s.manager → IsManaged (start d s).1.manager
  unfolding start start_for
  start-IsManaged s h i rt g = elim (Option-cases s.manager.client) [
    | inl z ↦ ground (arith, h i rt)
    | inr (id, z) ↦
        let (xs, w) = d.list_active id s.world in
        ground (arith, h i rt, start_listed-IsManaged id xs (record s { world = w }) h i rt)
  ]

  manager-kill_if : (p : Option ℕ) (s : Sys W) → (kill_if d p s).manager ≡ s.manager
  manager-kill_if none s = refl
  manager-kill_if (some p) s = refl

  respawn-IsManaged :
      (id : String) (x : Runtime) (s : Sys W)
      → s.manager.running ≡ true
      → IsManaged s.manager
      → IsManaged (respawn d id x s).1.manager
  unfolding publish_status
  respawn-IsManaged id x s n h i rt g =
      elim (Sum-cases (d.run_process d.program_stream_url x.dest.push_url s.world).0) [
        | inl (p, e) ↦ ground (arith, h i rt, get-put id i (up_runtime p x) s.manager.dests)
        | inr (m, e) ↦ ground (arith, h i rt, get-put id i (down_runtime m x) s.manager.dests)
      ]

  restart-IsManaged :
      (id : String) (s : Sys W)
      → IsManaged s.manager
      → IsManaged (restart_destination d id s).1.manager
  unfolding restart_destination
  restart-IsManaged id s h i rt g = elim (Bool-cases s.manager.running) [
    | inr n ↦ ground (arith, h i rt)
    | inl n ↦ elim (Option-cases (get id s.manager.dests)) [
      | inl z ↦ ground (arith, h i rt)
      | inr (x, z) ↦
          let k = kill_if d x.proc s in
          let e : k.manager ≡ s.manager = manager-kill_if x.proc s in
          ground (arith, respawn-IsManaged id x k (ap (λ m. m.running) e ∙ n) (rw e h) i rt)
    ]
  ]

  pub execute-IsManaged :
      (c : Command) (s : Sys W) → IsManaged s.manager → IsManaged (execute d c s).manager
  unfolding execute
  execute-IsManaged (selects id) s h = set_active_client-IsManaged id s h
  execute-IsManaged starts s h = start-IsManaged s h
  execute-IsManaged stops s h = stop-IsManaged s h
  execute-IsManaged (restarts id) s h = restart-IsManaged id s h
  execute-IsManaged (ends x e) s h = watch-IsManaged x e s h

  -- Whatever is asked of the manager, whatever OBS, the runner and the provider answer, and whenever
  -- a process ends, also one that a new start has replaced: a destination is reported as connected
  -- exactly if the manager holds a process for it, and it holds none while it is not running. This
  -- goes on from any state where it holds.
  pub run-IsManaged :
      (cs : List Command) (s : Sys W) → IsManaged s.manager → IsManaged (run d cs s).manager
  unfolding run
  run-IsManaged [] s h = h
  run-IsManaged (c ∷ cs) s h = run-IsManaged cs (execute d c s) (execute-IsManaged c s h)
