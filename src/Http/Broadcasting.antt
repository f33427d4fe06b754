-- ===== src/Http/Broadcasting.antt =====
-- What requests do to the manager of backend/internal/broadcast/broadcast.go, and what they reply.
use po_c_go_live.Base.{
  ◌≡◌, ◌≢◌, refl, ◌⊎◌, inl, inr, String, true, false, Option, none, some, List, arith, ◌≤◌,
  contains,
}
use po_c_go_live.Database as Db
use po_c_go_live.Client.Model as ClientModel
use po_c_go_live.Broadcast.State.{Refusal, Destination, Deps, Sys}
use po_c_go_live.Broadcast.Methods.{set_active_client, start, restart_destination}
use po_c_go_live.Broadcast.Commands.{Command, selects, starts, stops, restarts, execute}
use po_c_go_live.Broadcast.Started.{relays, live_ids, start_all_or_nothing}
use po_c_go_live.Http.Query.{
  Texts, decoded, ended, malformed, decode_json, path_uuid, parsed_path, with_valid,
}
use po_c_go_live.Http.Broadcast.{
  of_manager, write_broadcast_error, after, selected, BroadcastRoute, get_broadcast, post_start,
  post_stop, post_client, post_restart, handle_get_broadcast, handle_broadcast_start,
  handle_broadcast_stop, handle_set_broadcast_client, handle_broadcast_restart, serve_broadcast,
}

problem-status : (e : Refusal) → 400 ≤ (write_broadcast_error (of_manager e)).status
unfolding write_broadcast_error
problem-status e = ground arith

module _ {W : Type 0} (d : Deps W) where
  after-state : (x : Option Refusal × Sys W) → (after x).1 ≡ x.1
  after-state (none, s) = refl
  after-state (some e, s) = refl

  status-started : (x : Option Refusal × Sys W) → x.0 ≡ none → (after x).0.status ≡ 200
  status-started (none, s) e = refl
  status-started (some f, s) e = absurd (ground arith)

  status-refused : (x : Option Refusal × Sys W) → x.0 ≢ none → 400 ≤ (after x).0.status
  status-refused (none, s) n = absurd (n refl)
  status-refused (some f, s) n = problem-status f

  -- A request to start the broadcast of a client whose destinations the provider lists, while none runs, is
  -- all or nothing. If the reply is 200, the broadcast runs and each listed destination is connected; if not,
  -- the reply is an error and no broadcast runs.
  pub broadcast_start_reply :
      (id : String) (xs : List Destination) (s : Sys W)
      → s.manager.running ≡ false
      → s.manager.client ≡ some id
      → (d.list_active id s.world).0 ≡ some xs
      → (((handle_broadcast_start d true s).0.status ≡ 200)
          × ((handle_broadcast_start d true s).1.manager.running ≡ true)
          × ((k : String)
              → contains k (live_ids xs) ≡ true
              → relays k (handle_broadcast_start d true s).1.manager.dests ≡ true))
        ⊎ ((400 ≤ (handle_broadcast_start d true s).0.status)
            × ((handle_broadcast_start d true s).1.manager.running ≡ false))
  unfolding handle_broadcast_start
  broadcast_start_reply id xs s n c l =
      let e = after-state (start d s) in
      elim (start_all_or_nothing d id xs s n c l) [
        | inl (o, r, f) ↦ inl (status-started (start d s) o, rw e r, rw e f)
        | inr (o, r, f) ↦ inr (status-refused (start d s) o, rw e r)
      ]

  module _ (t : Texts)
      (find : Option (String → Db.Outcome ClientModel.Refusal ClientModel.Client)) where
    -- A client that the clients' service does not return is not selected.
    abbrev selection :
        String → Option (Db.Outcome ClientModel.Refusal ClientModel.Client) → Option Command
    selection id none = some (selects id)
    selection id (some (Db.ok c)) = some (selects id)
    selection id (some (Db.err e)) = none

    abbrev restart_of : Option String → Option Command
    restart_of none = none
    restart_of (some id) = some (restarts id)

    -- What a request asks of the manager, by its route and what it has, where there is a manager.
    unfoldable pub asked_manager : BroadcastRoute → Option Command
    asked_manager get_broadcast = none
    asked_manager post_start = some starts
    asked_manager post_stop = some stops
    asked_manager (post_client (decoded id)) =
        selection id (elim find [ none ↦ none | some f ↦ some (f id) ])
    asked_manager (post_client ended) = none
    asked_manager (post_client malformed) = none
    asked_manager (post_restart raw) = restart_of (t.parse_uuid raw)

    unfoldable pub obey : Option Command → Sys W → Sys W
    obey none s = s
    obey (some k) s = execute d k s

    selected-eq-obey :
        (id : String) (o : Option (Db.Outcome ClientModel.Refusal ClientModel.Client)) (s : Sys W)
        → (selected d true id o s).1 ≡ obey (selection id o) s
    unfolding execute obey
    selected-eq-obey id (some (Db.err e)) s = refl
    selected-eq-obey id (some (Db.ok c)) s = after-state (set_active_client d id s)
    selected-eq-obey id none s = after-state (set_active_client d id s)

    restart_id-eq-obey :
        (name : String) (o : Option String) (s : Sys W)
        → (with_valid (parsed_path name o) (λ id s'. after (restart_destination d id s')) s).1
          ≡ obey (restart_of o) s
    unfolding execute obey
    restart_id-eq-obey name none s = refl
    restart_id-eq-obey name (some id) s = after-state (restart_destination d id s)

    restart-eq-obey :
        (raw : String) (s : Sys W)
        → (handle_broadcast_restart d true t raw s).1 ≡ obey (restart_of (t.parse_uuid raw)) s
    unfolding handle_broadcast_restart path_uuid
    restart-eq-obey raw s = restart_id-eq-obey "liveId" (t.parse_uuid raw) s

    -- Where there is a manager, a request of the broadcast leaves in it exactly what the one method leaves
    -- that its route stands for, with the client of its body or the destination of its path. It leaves it as
    -- it was if it reads, if its path or body is not understood, and if the clients' service does not return
    -- the client.
    pub serve_broadcast-eq-obey :
        (r : BroadcastRoute) (s : Sys W)
        → (serve_broadcast d true t find r s).1 ≡ obey (asked_manager r) s
    unfolding serve_broadcast handle_get_broadcast handle_broadcast_start handle_broadcast_stop
        handle_set_broadcast_client decode_json execute asked_manager obey
    serve_broadcast-eq-obey get_broadcast s = refl
    serve_broadcast-eq-obey post_start s = after-state (start d s)
    serve_broadcast-eq-obey post_stop s = refl
    serve_broadcast-eq-obey (post_client (decoded id)) s = selected-eq-obey id _ s
    serve_broadcast-eq-obey (post_client ended) s = refl
    serve_broadcast-eq-obey (post_client malformed) s = refl
    serve_broadcast-eq-obey (post_restart raw) s = restart-eq-obey raw s
