-- ===== src/Http/Broadcast.antt =====
-- backend/internal/httpapi/broadcast_handlers.go. The parsing of a path's UUID, the decoding of a body and what
-- the clients' service answers are arguments.
use po_c_go_live.Base.{if◌then◌else◌, String, Bool, false, Option, none, some, []}
use po_c_go_live.Database as Db
use po_c_go_live.Client.Model as ClientModel
use po_c_go_live.Broadcast.State.{
  StatusSnapshot, Refusal, no_active_client, no_destinations, nothing_live, client_switch,
  destination_not_found, broadcast_stopped, Deps, Sys,
}
use po_c_go_live.Broadcast.Destinations.{snapshot}
use po_c_go_live.Broadcast.Methods.{set_active_client, start, stop, restart_destination}
use po_c_go_live.Http.Reply.{Reply, write_json, write_error}
use po_c_go_live.Http.Query.{
  Texts, Decoded, decode_json, path_uuid, with_valid, write_internal_error,
}

-- What `writeBroadcastError` tells apart: a client that is not found, another error of the clients' service,
-- and what the manager returns.
pub data Problem : Type 0 where
  client_not_found clients_failed : Problem
  of_manager : Refusal → Problem

unfoldable pub write_broadcast_error : Problem → Reply StatusSnapshot
unfolding write_internal_error
write_broadcast_error client_not_found = write_error 404 "client not found"
write_broadcast_error (of_manager client_switch) =
    write_error 409 "cannot switch client while broadcasting"
write_broadcast_error (of_manager no_active_client) = write_error 409 "no active client"
write_broadcast_error (of_manager no_destinations) = write_error 409 "no destinations configured"
write_broadcast_error (of_manager nothing_live) = write_error 409 "nothing live"
write_broadcast_error (of_manager destination_not_found) = write_error 404 "destination not found"
write_broadcast_error (of_manager broadcast_stopped) = write_error 409 "broadcast is stopped"
write_broadcast_error _ = write_internal_error

-- An error of `GetByID`.
abbrev problem_of : ClientModel.Refusal → Problem
problem_of ClientModel.not_found = client_not_found
problem_of _ = clients_failed

-- s.broadcast.Snapshot()
abbrev shown : {W : Type 0} → Sys W → Reply StatusSnapshot × Sys W
shown s = (write_json 200 (snapshot s.manager), s)

abbrev pub after : {W : Type 0} → Option Refusal × Sys W → Reply StatusSnapshot × Sys W
after (none, s) = shown s
after (some e, s) = (write_broadcast_error (of_manager e), s)

abbrev not_configured : {W : Type 0} → Sys W → Reply StatusSnapshot × Sys W
not_configured s = (write_error 500 "broadcast not configured", s)

-- `broadcast.StatusSnapshot` without a manager.
abbrev no_broadcast : {W : Type 0} → Sys W → Reply StatusSnapshot × Sys W
no_broadcast s =
    (write_json 200 (record { active_client = none; running = false; destinations = [] }), s)

-- A route of the broadcast, with the parameters of its path and its body.
pub data BroadcastRoute : Type 0 where
  get_broadcast post_start post_stop : BroadcastRoute
  post_client : Decoded String → BroadcastRoute
  post_restart : String → BroadcastRoute

-- `configured` tells whether the server has a manager.
module _ {W : Type 0} (d : Deps W) (configured : Bool) where
  abbrev pub Answer : Type 0
  Answer = Sys W → Reply StatusSnapshot × Sys W

  unfoldable pub handle_get_broadcast : Answer
  handle_get_broadcast s = if configured then shown s else no_broadcast s

  abbrev pub selected : String → Option (Db.Outcome ClientModel.Refusal ClientModel.Client) → Answer
  selected id (some (Db.err e)) s = (write_broadcast_error (problem_of e), s)
  selected id (some (Db.ok c)) s = after (set_active_client d id s)
  selected id none s = after (set_active_client d id s)

  -- `find` is `s.clients.GetByID`, or `none` without the service.
  unfoldable pub handle_set_broadcast_client :
      Option (String → Db.Outcome ClientModel.Refusal ClientModel.Client) → Decoded String → Answer
  handle_set_broadcast_client find body s =
      if configured
      then with_valid (decode_json body)
          (λ id. selected id (elim find [ none ↦ none | some f ↦ some (f id) ])) s
      else not_configured s

  unfoldable pub handle_broadcast_start : Answer
  handle_broadcast_start s = if configured then after (start d s) else not_configured s

  -- `Stop` returns no error.
  unfoldable pub handle_broadcast_stop : Answer
  handle_broadcast_stop s = if configured then shown (stop d s) else no_broadcast s

  unfoldable pub handle_broadcast_restart : Texts → String → Answer
  handle_broadcast_restart t raw s =
      if configured
      then with_valid (path_uuid t "liveId" raw) (λ id s'. after (restart_destination d id s')) s
      else not_configured s

  module _ (t : Texts)
      (find : Option (String → Db.Outcome ClientModel.Refusal ClientModel.Client)) where
    unfoldable pub serve_broadcast : BroadcastRoute → Answer
    serve_broadcast get_broadcast = handle_get_broadcast
    serve_broadcast post_start = handle_broadcast_start
    serve_broadcast post_stop = handle_broadcast_stop
    serve_broadcast (post_client body) = handle_set_broadcast_client find body
    serve_broadcast (post_restart raw) = handle_broadcast_restart t raw
