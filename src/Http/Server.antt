-- ===== src/Http/Server.antt =====
-- `routes` and `Handler` of backend/internal/httpapi/httpapi.go, for the routes that ask something of the
-- orchestrator. `net/http` finds the route of a request.
use po_c_go_live.Base.{String, Option, none, some, List, [], ◌∷◌}
use po_c_go_live.Orchestrator.State.{Deps, Sys}
use po_c_go_live.Http.Reply.{Method, Request, Reply}
use po_c_go_live.Http.Guard.{Handler, guarded}
use po_c_go_live.Http.Handlers.{
  Payload, Json, Answer, handle_list_cameras, handle_list_positions, handle_list_scenes,
  handle_get_live, handle_health, handle_status, handle_sync, handle_create_position,
  handle_rename_position, handle_delete_position, handle_assign_camera, handle_unassign_position,
  handle_set_audio_position, handle_create_scene, handle_patch_scene, handle_delete_scene,
  handle_set_preview, handle_cut,
}

-- A pattern of the mux, with what its {id} is.
pub data Route : Type 0 where
  get_health get_cameras get_status post_sync : Route
  get_positions post_positions : Route
  patch_position delete_position post_camera delete_camera post_audio : String → Route
  get_scenes post_scenes : Route
  patch_scene delete_scene : String → Route
  get_live post_preview post_cut : Route

-- `http.ServeMux`: the route of a method and a path, where there is one, and its own reply where there is
-- none.
pub record Mux : Type 0 where
  pub match : Method → String → Option Route
  pub no_route : Request → Reply Payload

module _ {W : Type 0} (d : Deps W) (j : Json) where
  unfoldable pub dispatch : Route → String → Answer W
  dispatch get_health body = handle_health
  dispatch get_cameras body = handle_list_cameras
  dispatch get_status body = handle_status d
  dispatch post_sync body = handle_sync d
  dispatch get_positions body = handle_list_positions
  dispatch post_positions body = handle_create_position d (j.name body)
  dispatch (patch_position id) body = handle_rename_position d id (j.name body)
  dispatch (delete_position id) body = handle_delete_position d id
  dispatch (post_camera id) body = handle_assign_camera d id (j.camera_id body)
  dispatch (delete_camera id) body = handle_unassign_position d id
  dispatch (post_audio id) body = handle_set_audio_position d id
  dispatch get_scenes body = handle_list_scenes
  dispatch post_scenes body = handle_create_scene d (j.scene body)
  dispatch (patch_scene id) body = handle_patch_scene d id (j.patch_scene body)
  dispatch (delete_scene id) body = handle_delete_scene d id
  dispatch get_live body = handle_get_live
  dispatch post_preview body = handle_set_preview d (j.preview body)
  dispatch post_cut body = handle_cut d

  unfoldable pub serve_mux : Mux → Handler Payload (Sys W)
  serve_mux mux r s = elim (mux.match r.method r.path) [
    | none ↦ (mux.no_route r, s)
    | some route ↦ dispatch route r.body s
  ]

  -- `Handler`
  unfoldable pub serve : String → Mux → Handler Payload (Sys W)
  serve token mux = guarded token (serve_mux mux)

  unfoldable pub serve_all : String → Mux → List Request → Sys W → Sys W
  serve_all token mux [] s = s
  serve_all token mux (r ∷ rs) s = serve_all token mux rs (serve token mux r s).1
