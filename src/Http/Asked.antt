-- ===== src/Http/Asked.antt =====
-- What a request of backend/internal/httpapi asks of the orchestrator, by its route and its body, apart from the
-- handlers.
use po_c_go_live.Base.{
  String, Bool, true, false, not, ◌&&◌, ◌||◌, Option, none, some, List, [], ◌∷◌, ◌++◌, ◌==◌,
  if◌then◌else◌,
}
use po_c_go_live.Orchestrator.State.{Deps, Sys, Result, ok, err}
use po_c_go_live.Orchestrator.Models.{Scene}
use po_c_go_live.Orchestrator.Commands.{
  Command, syncs, creates_position, renames_position, deletes_position, assigns, unassigns,
  sets_audio, creates_scene, renames_scene, updates_scene, deletes_scene, previews_camera,
  previews_scene, cuts, run,
}
use po_c_go_live.Orchestrator.Scenes.{rename_scene}
use po_c_go_live.Http.Reply.{Method, options, Request}
use po_c_go_live.Http.Handlers.{Json}
use po_c_go_live.Http.Server.{
  Route, get_health, get_cameras, get_status, post_sync, get_positions, post_positions,
  patch_position, post_camera, delete_camera, post_audio, get_scenes, post_scenes, get_live,
  post_preview, post_cut, Mux,
}

-- A body that is not understood asks nothing.
abbrev pub asked_by : {A : Type 0} → (A → List Command) → Option A → List Command
asked_by f none = []
asked_by f (some a) = f a

abbrev pub asked_preview : String × String → List Command
asked_preview (kind, id) =
    if kind == "camera"
    then previews_camera id ∷ []
    else if kind == "scene"
    then previews_scene id ∷ []
    else []

abbrev pub is_ok : Result Scene → Bool
is_ok (ok sc) = true
is_ok (err e) = false

-- The header counts, and the parameter where there is none; an empty token is none.
unfoldable pub is_allowed : String → Request → Bool
is_allowed token r =
    r.path == "/api/v1/health"
    || (not (token == "")
        && (if r.header_token == "" then r.query_token == token else r.header_token == token))

abbrev pub is_preflight : Method → Bool
is_preflight options = true
is_preflight _ = false

module _ {W : Type 0} (d : Deps W) where
  -- With both fields, the positions follow if the scene could be renamed.
  abbrev pub asked_patch : String → Option String → Option (List String) → Sys W → List Command
  asked_patch id none none s = []
  asked_patch id (some name) none s = renames_scene id name ∷ []
  asked_patch id none (some ids) s = updates_scene id ids ∷ []
  asked_patch id (some name) (some ids) s =
      renames_scene id name
      ∷ (if is_ok (rename_scene d id name s).0 then updates_scene id ids ∷ [] else [])

  module _ (j : Json) where
    unfoldable pub asked_of : Route → String → Sys W → List Command
    asked_of get_health body s = []
    asked_of get_cameras body s = []
    asked_of get_status body s = []
    asked_of post_sync body s = syncs ∷ []
    asked_of get_positions body s = []
    asked_of post_positions body s = asked_by (λ name. creates_position name ∷ []) (j.name body)
    asked_of (patch_position id) body s =
        asked_by (λ name. renames_position id name ∷ []) (j.name body)
    asked_of (Route.delete_position id) body s = deletes_position id ∷ []
    asked_of (post_camera id) body s =
        asked_by (λ camera. assigns id camera ∷ []) (j.camera_id body)
    asked_of (delete_camera id) body s = unassigns id ∷ []
    asked_of (post_audio id) body s = sets_audio id ∷ []
    asked_of get_scenes body s = []
    asked_of post_scenes body s = asked_by (λ r. creates_scene r.0 r.1 ∷ []) (j.scene body)
    asked_of (Route.patch_scene id) body s =
        asked_by (λ r. asked_patch id r.name r.position_ids s) (j.patch_scene body)
    asked_of (Route.delete_scene id) body s = deletes_scene id ∷ []
    asked_of get_live body s = []
    asked_of post_preview body s = asked_by asked_preview (j.preview body)
    asked_of post_cut body s = cuts ∷ []

    unfoldable pub asked : String → Mux → Request → Sys W → List Command
    asked token mux r s =
        if is_preflight r.method
        then []
        else if is_allowed token r
        then elim (mux.match r.method r.path) [ none ↦ [] | some route ↦ asked_of route r.body s ]
        else []

    unfoldable pub asked_all : String → Mux → List Request → Sys W → List Command
    asked_all token mux [] s = []
    asked_all token mux (r ∷ rs) s =
        asked token mux r s ++ asked_all token mux rs (run d (asked token mux r s) s)
