-- ===== src/Http/BroadcastTests.antt =====
-- Requests of the broadcast, with a client whose two destinations the provider lists.
use po_c_go_live.Base.{
  ℕ, ◌+◌, String, ◌≡◌, ◌⊎◌, inl, refl, ◌≤◌, true, false, none, some, List, [], ◌∷◌, contains,
}
use po_c_go_live.Events.{new_hub}
use po_c_go_live.Broadcast.State.{Destination, new_manager, Deps, Sys}
use po_c_go_live.Broadcast.Started.{relays, live_ids}
use po_c_go_live.Http.Query.{Texts}
use po_c_go_live.Http.Broadcast.{post_start, handle_broadcast_start, serve_broadcast}
use po_c_go_live.Http.Broadcasting.{
  broadcast_start_reply, serve_broadcast-eq-obey, asked_manager, obey,
}

abbrev texts : Texts
texts = record {
  parse_uuid = λ raw. some raw;
  number = λ id. 0;
  encode = λ c. "";
  decode = λ raw. none;
}

abbrev destinations : List Destination
destinations =
    record { live_id = "y"; platform_name = "YouTube"; push_url = "rtmp://y" }
    ∷ record { live_id = "t"; platform_name = "Twitch"; push_url = "rtmp://t" }
    ∷ []

abbrev deps : Deps ℕ
deps = record {
  obs = none;
  live = some (λ w. true);
  has_hub = true;
  list_active = λ id w. (some destinations, w);
  program_stream_url = "rtmp://program";
  run_process = λ from to w. (inl w, w + 1);
  kill = λ p w. w;
}

abbrev begin : Sys ℕ
begin = record {
  manager = record new_manager { client = some "c" };
  watches = [];
  hub = new_hub;
  world = 0;
}

broadcast_start_reply_example :
    (((handle_broadcast_start deps true begin).0.status ≡ 200)
      × ((handle_broadcast_start deps true begin).1.manager.running ≡ true)
      × ((k : String)
          → contains k (live_ids destinations) ≡ true
          → relays k (handle_broadcast_start deps true begin).1.manager.dests ≡ true))
    ⊎ ((400 ≤ (handle_broadcast_start deps true begin).0.status)
        × ((handle_broadcast_start deps true begin).1.manager.running ≡ false))
broadcast_start_reply_example = broadcast_start_reply deps "c" destinations begin refl refl refl

serve_broadcast-eq-obey_example :
    (serve_broadcast deps true texts none post_start begin).1
    ≡ obey deps texts none (asked_manager deps texts none post_start) begin
serve_broadcast-eq-obey_example = serve_broadcast-eq-obey deps texts none post_start begin
