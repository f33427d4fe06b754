-- ===== src/Broadcast/Started.antt =====
-- The outcome of `Start` of backend/internal/broadcast/broadcast.go.
use po_c_go_live.Base.{
  ℕ, String, ◌≡◌, ◌≢◌, ap, subst, ◌∙◌, refl, Bool, true, false, ◌⊎◌, inl, inr, Option, none, some,
  List, [], ◌∷◌, arith, eq_refl, Option-cases, Bool-cases, Sum-cases, contains, ◌==◌, if◌then◌else◌,
}
use po_c_go_live.Dict.{Dict, get, put, get-put}
use po_c_go_live.Obs.{Fault}
use po_c_go_live.Broadcast.State.{Refusal, nothing_live, Destination, Runtime, bump, Deps, Sys}
use po_c_go_live.Broadcast.Destinations.{publish_status, spawn, spawn_all, new_runtime}
use po_c_go_live.Broadcast.Methods.{
  stream_off, stream_on, begin_session, start_for, start, settle, is_off_air, open_on_air,
  start_listed,
}
use po_c_go_live.Broadcast.Managed.{is_connected}

-- The destination has a runtime, which is connected.
unfoldable pub relays : String → Dict Runtime → Bool
relays id m = elim (get id m) [ none ↦ false | some rt ↦ is_connected rt.status.state ]

unfoldable pub live_ids : List Destination → List String
live_ids [] = []
live_ids (x ∷ xs) = x.live_id ∷ live_ids xs

relays-put :
    (id : String) (x : Destination) (p g : ℕ) (m : Dict Runtime)
    → relays id (put x.live_id (new_runtime x p g) m)
      ≡ (if x.live_id == id then true else relays id m)
unfolding relays
relays-put id x p g m = ground (arith, get-put x.live_id id (new_runtime x p g) m)

-- What `Start` clears before it spawns.
abbrev emptied : {W : Type 0} → Sys W → Sys W
emptied s = record s { manager = record s.manager { dests = [] } }

module _ {W : Type 0} (d : Deps W) where
  spawned_relays :
      (x : Destination) (s : Sys W) (id : String)
      → (spawn d x s).0 ≡ none
      → (relays id (spawn d x s).1.manager.dests)
        ≡ (if x.live_id == id then true else relays id s.manager.dests)
  unfolding spawn
  spawned_relays x s id n =
      elim (Sum-cases (d.run_process d.program_stream_url x.push_url s.world).0) [
        | inl (p, e) ↦ ground (arith, relays-put id x p (bump s.manager.next_gen) s.manager.dests)
        | inr (m, e) ↦ absurd (ground arith)
      ]

  running-spawn :
      (x : Destination) (s : Sys W) → (spawn d x s).1.manager.running ≡ s.manager.running
  unfolding spawn
  running-spawn x s = elim (Sum-cases (d.run_process d.program_stream_url x.push_url s.world).0) [
    | inl (p, e) ↦ ground arith
    | inr (m, e) ↦ ground arith
  ]

  all_spawned_relay :
      (xs : List Destination) (s : Sys W) (id : String)
      → (spawn_all d xs s).0 ≡ none
      → (contains id (live_ids xs) ≡ true) ⊎ (relays id s.manager.dests ≡ true)
      → relays id (spawn_all d xs s).1.manager.dests ≡ true
  unfolding spawn_all live_ids
  all_spawned_relay [] s id n h = ground arith
  all_spawned_relay (x ∷ xs) s id n h = elim (Option-cases (spawn d x s).0) [
    | inl e ↦ ground (arith, spawned_relays x s id e, all_spawned_relay xs (spawn d x s).1 id)
    | inr (m, e) ↦ absurd (ground arith)
  ]

  -- What `Start` returned and left.
  abbrev pub IsStarted : List Destination → Dict Runtime → Option Refusal × Sys W → Type 0
  IsStarted xs m r =
      ((r.0 ≡ none)
        × (r.1.manager.running ≡ true)
        × ((id : String) → contains id (live_ids xs) ≡ true → relays id r.1.manager.dests ≡ true))
      ⊎ ((r.0 ≢ none)
          × (r.1.manager.running ≡ false)
          × ((r.1.manager.dests ≡ m) ⊎ (r.1.manager.dests ≡ [])))

  settle-IsStarted :
      (xs : List Destination) (m : Dict Runtime) (r : Option String × Sys W)
      → r.1.manager.running ≡ false
      → (r.0 ≡ none
          → (id : String) → contains id (live_ids xs) ≡ true
          → relays id r.1.manager.dests ≡ true)
      → IsStarted xs m (settle d r)
  unfolding publish_status stream_off
  settle-IsStarted xs m (none, s) n h =
      inl (refl, ground arith, λ id c. ground (arith, h refl id c))
  settle-IsStarted xs m (some e, s) n h =
      inr ((λ z. ground arith), ground arith, inr (ground arith))

  running-spawn_all :
      (xs : List Destination) (s : Sys W) → (spawn_all d xs s).1.manager.running ≡ s.manager.running
  unfolding spawn_all
  running-spawn_all [] s = refl
  running-spawn_all (x ∷ xs) s =
      ground (arith, running-spawn x s, running-spawn_all xs (spawn d x s).1)

  begin_session-eq-settle :
      (id : String) (xs : List Destination) (s : Sys W)
      → s.manager.running ≡ false
      → s.manager.client ≡ some id
      → begin_session d id xs s ≡ settle d (spawn_all d xs (emptied s))
  unfolding begin_session
  begin_session-eq-settle id xs s n c = ground (arith, eq_refl id)

  begin_session-IsStarted :
      (id : String) (xs : List Destination) (s : Sys W)
      → s.manager.running ≡ false
      → s.manager.client ≡ some id
      → IsStarted xs s.manager.dests (begin_session d id xs s)
  begin_session-IsStarted id xs s n c = rw (begin_session-eq-settle id xs s n c) (
      settle-IsStarted xs s.manager.dests (spawn_all d xs (emptied s))
        (running-spawn_all xs (emptied s) ∙ n)
        (λ e k h. all_spawned_relay xs (emptied s) k e (inl h)))

  open_on_air-IsStarted :
      (id : String) (xs : List Destination) (r : Option Fault × Sys W)
      → r.1.manager.running ≡ false
      → r.1.manager.client ≡ some id
      → IsStarted xs r.1.manager.dests (open_on_air d id xs r)
  open_on_air-IsStarted id xs (none, s) n c = begin_session-IsStarted id xs s n c
  open_on_air-IsStarted id xs (some f, s) n c = inr ((λ z. ground arith), n, inl refl)

  manager-stream_on : (s : Sys W) → (stream_on d s).1.manager ≡ s.manager
  unfolding stream_on
  manager-stream_on s = ground arith

  start_listed-IsStarted :
      (id : String) (xs : List Destination) (s : Sys W)
      → s.manager.running ≡ false
      → s.manager.client ≡ some id
      → IsStarted xs s.manager.dests (start_listed d id (some xs) s)
  start_listed-IsStarted id [] s n c = inr ((λ z. ground arith), n, inl refl)
  start_listed-IsStarted id (x ∷ xs) s n c =
      let t : IsStarted (x ∷ xs) (stream_on d s).1.manager.dests
          (open_on_air d id (x ∷ xs) (stream_on d s)) =
        open_on_air-IsStarted id (x ∷ xs) (stream_on d s)
          (ap (λ m. m.running) (manager-stream_on s) ∙ n)
          (ap (λ m. m.client) (manager-stream_on s) ∙ c) in
      subst (λ m. IsStarted (x ∷ xs) m.dests (open_on_air d id (x ∷ xs) (stream_on d s)))
        (manager-stream_on s) t

  start-eq-start_for :
      (id : String) (s : Sys W)
      → s.manager.running ≡ false
      → s.manager.client ≡ some id
      → start d s ≡ start_for d id s
  unfolding start
  start-eq-start_for id s n c = ground arith

  start_for_off_air :
      (id : String) (s : Sys W)
      → is_off_air d.live s.world ≡ true
      → start_for d id s ≡ (some nothing_live, s)
  unfolding start_for
  start_for_off_air id s o = ground arith

  -- After the provider was asked.
  abbrev listed : String → Sys W → Sys W
  listed id s = record s { world = (d.list_active id s.world).1 }

  start_for-eq-start_listed :
      (id : String) (xs : List Destination) (s : Sys W)
      → is_off_air d.live s.world ≡ false
      → (d.list_active id s.world).0 ≡ some xs
      → start_for d id s ≡ start_listed d id (some xs) (listed id s)
  unfolding start_for
  start_for-eq-start_listed id xs s o l = simp (o, l)

  -- `Start` of a manager that is not running, with a client whose destinations the provider lists,
  -- is all or nothing. Without an error it is running and each listed destination is connected;
  -- with one it is not running, and has the destinations that it had or none.
  pub start_all_or_nothing :
      (id : String) (xs : List Destination) (s : Sys W)
      → s.manager.running ≡ false
      → s.manager.client ≡ some id
      → (d.list_active id s.world).0 ≡ some xs
      → IsStarted xs s.manager.dests (start d s)
  start_all_or_nothing id xs s n c l =
      rw (start-eq-start_for id s n c) (elim (Bool-cases (is_off_air d.live s.world)) [
        | inl o ↦ rw (start_for_off_air id s o) (inr ((λ z. ground arith), n, inl refl))
        | inr o ↦
            rw (start_for-eq-start_listed id xs s o l)
              (start_listed-IsStarted id xs (listed id s) n c)
      ])
