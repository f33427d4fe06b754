-- ===== src/Http/Tests.antt =====
-- Requests with the token and without it, and their witnesses.
use po_c_go_live.Base.{
  ◌≡◌, if◌then◌else◌, refl, String, true, inr, Option, none, some, List, [], ◌∷◌, ◌==◌, arith,
  eq_iff,
}
use po_c_go_live.Events.{new_hub}
use po_c_go_live.Obs.Mock.{Mock, mock, new_mock}
use po_c_go_live.Orchestrator.Ids.{Bytes}
use po_c_go_live.Orchestrator.State.{Deps, Sys}
use po_c_go_live.Orchestrator.Start.{new_orch}
use po_c_go_live.Http.Reply.{Method, post, Request, write_header}
use po_c_go_live.Http.Guard.{guarded_refuses, token_of, health_path}
use po_c_go_live.Http.Handlers.{Json}
use po_c_go_live.Http.Server.{
  Route, get_health, post_sync, post_positions, post_cut, Mux, serve, serve_all,
}
use po_c_go_live.Http.Asked.{asked_all}
use po_c_go_live.Orchestrator.Commands.{run}
use po_c_go_live.Http.Refines.{serve_all-eq-run}

abbrev zeros : Bytes
zeros = record { b0 = 0; b1 = 0; b2 = 0; b3 = 0; b4 = 0; b5 = 0; b6 = 0; b7 = 0 }

abbrev deps : Deps Mock
deps = record {
  program_scene = "program";
  media_source_base_url = "rtmp://media";
  obs = mock;
  save_positions = λ ps w. (true, w);
  save_scenes = λ scs w. (true, w);
  rand_read = λ w. (zeros, w);
  list_active_streams = λ w. (some ("cam" ∷ []), w);
  now = λ w. (0, w);
}

-- A body is the name itself.
abbrev json : Json
json = record {
  name = λ b. some b;
  camera_id = λ b. some b;
  scene = λ b. some (b, []);
  patch_scene = λ b. some (record { name = some b; position_ids = some [] });
  preview = λ b. some ("camera", b);
}

abbrev route_of : Method → String → Option Route
route_of post path =
    if path == "/api/v1/positions"
    then some post_positions
    else if path == "/api/v1/sync"
    then some post_sync
    else if path == "/api/v1/live/cut"
    then some post_cut
    else none
route_of _ path = if path == health_path then some get_health else none

abbrev mux : Mux
mux = record { match = route_of; no_route = λ r. write_header 404 }

abbrev ask : Method → String → String → String → Request
ask m path token body = record {
  method = m;
  path = path;
  header_token = "";
  query_token = token;
  body = body;
}

abbrev begin : Sys Mock
begin = record { orch = new_orch none none; hub = new_hub; world = new_mock }

abbrev requests : List Request
requests =
    ask post "/api/v1/sync" "token" ""
    ∷ ask post "/api/v1/positions" "token" "Palco"
    ∷ ask post "/api/v1/positions" "" "Plateia"
    ∷ ask post "/api/v1/live/cut" "token" ""
    ∷ []

abbrev cut_request : Request
cut_request = ask post "/api/v1/live/cut" "wrong" ""

guarded_refuses_example :
    ((serve deps json "token" mux cut_request begin).1 ≡ begin)
    × ((serve deps json "token" mux cut_request begin).0.status ≡ 401)
unfolding serve token_of
guarded_refuses_example =
    guarded_refuses "token" _ cut_request begin refl
      (inr (λ e. ground (arith, e, eq_iff "wrong" "token")))

serve_all-eq-run_example :
    serve_all deps json "token" mux requests begin
    ≡ run deps (asked_all deps json "token" mux requests begin) begin
serve_all-eq-run_example = serve_all-eq-run deps json "token" mux requests begin
