-- ===== src/Http/Refines.antt =====
-- What requests leave in the orchestrator: backend/internal/httpapi asks of it what Asked says, and nothing else.
use po_c_go_live.Base.{
  true, false, Bool, eq_iff, if◌then◌else◌, ◌≡◌, refl, sym, ap, ◌∙◌, String, inl, inr, Option, none,
  some, List, [], ◌∷◌, ◌++◌, arith, ◌==◌, Option-cases,
}
use po_c_go_live.Orchestrator.State.{Deps, Sys, Result, ok, err}
use po_c_go_live.Orchestrator.Queries.{scenes}
use po_c_go_live.Orchestrator.Positions.{create_position, rename_position, delete_position}
use po_c_go_live.Orchestrator.Assignment.{assign_camera, unassign_position, set_audio_position}
use po_c_go_live.Orchestrator.Scenes.{
  create_scene, rename_scene, update_scene_positions, delete_scene,
}
use po_c_go_live.Orchestrator.Live.{set_preview_camera, set_preview_scene, cut}
use po_c_go_live.Orchestrator.Models.{Scene, Err}
use po_c_go_live.Orchestrator.Commands.{
  Command, creates_position, renames_position, assigns, creates_scene, updates_scene,
  previews_camera, previews_scene, execute, run,
}
use po_c_go_live.Http.Reply.{Request, Reply}
use po_c_go_live.Http.Handlers.{
  Payload, then_positions, live_reply, reply_with, scene_with_id, Json, PatchSceneRequest,
  handle_list_cameras, handle_list_positions, handle_list_scenes, handle_get_live, handle_health,
  handle_status, handle_sync, handle_create_position, handle_rename_position,
  handle_delete_position, handle_assign_camera, handle_unassign_position, handle_set_audio_position,
  handle_create_scene, handle_patch_scene, handle_delete_scene, handle_set_preview, handle_cut,
  patch_scene, current_scene,
}
use po_c_go_live.Http.Server.{
  Route, get_health, get_cameras, get_status, post_sync, get_positions, post_positions,
  patch_position, post_camera, delete_camera, post_audio, get_scenes, post_scenes, get_live,
  post_preview, post_cut, Mux, dispatch, serve_mux, serve, serve_all,
}
use po_c_go_live.Http.Guard.{guarded, token_of}
use po_c_go_live.Http.Asked.{
  asked_by, asked_preview, is_ok, asked_patch, asked_of, is_allowed, is_preflight, asked, asked_all,
}

module _ {W : Type 0} (d : Deps W) where
  -- A reply leaves what the method left.
  replied :
      {A : Type 0} (good : A → Reply Payload) (bad : Err → Reply Payload) (x : Result A × Sys W)
      → (reply_with good bad x).1 ≡ x.1
  replied good bad (ok a, s) = refl
  replied good bad (err e, s) = refl

  current-same : (id : String) (s : Sys W) → (current_scene id s).1 ≡ s
  current-same id s = elim (Option-cases (scene_with_id id (scenes s.orch))) [
    | inl z ↦ ground arith
    | inr (sc, z) ↦ ground arith
  ]

  -- What a renaming returned, and then the positions.
  patched_both :
      (id : String) (ids : List String) (x : Result Scene × Sys W)
      → (then_positions d id ids x).1
        ≡ run d (if is_ok x.0 then updates_scene id ids ∷ [] else []) x.1
  unfolding run execute
  patched_both id ids (ok sc, s) = replied _ _ (update_scene_positions d id ids s)
  patched_both id ids (err e, s) = refl

  patched :
      (id : String) (name : Option String) (ids : Option (List String)) (s : Sys W)
      → (patch_scene d id name ids s).1 ≡ run d (asked_patch d id name ids s) s
  unfolding run execute
  patched id none none s = current-same id s
  patched id (some name) none s = replied _ _ (rename_scene d id name s)
  patched id none (some ids) s = replied _ _ (update_scene_positions d id ids s)
  patched id (some name) (some ids) s = patched_both id ids (rename_scene d id name s)

  previewed :
      (camera scene : Bool) (id : String) (s : Sys W) (bad : Reply Payload)
      → (if camera
          then live_reply d (set_preview_camera d id s)
          else if scene
          then live_reply d (set_preview_scene d id s)
          else (bad, s)).1
        ≡ run d
            (if camera
              then previews_camera id ∷ []
              else if scene
              then previews_scene id ∷ []
              else [])
            s
  unfolding run execute
  previewed true scene id s bad = replied _ _ (set_preview_camera d id s)
  previewed false true id s bad = replied _ _ (set_preview_scene d id s)
  previewed false false id s bad = refl

  module _ (j : Json) where
    created :
        (req : Option String) (s : Sys W)
        → (handle_create_position d req s).1
          ≡ run d (asked_by (λ name. creates_position name ∷ []) req) s
    unfolding handle_create_position execute run
    created none s = refl
    created (some name) s = replied _ _ (create_position d name s)

    renamed :
        (id : String) (req : Option String) (s : Sys W)
        → (handle_rename_position d id req s).1
          ≡ run d (asked_by (λ name. renames_position id name ∷ []) req) s
    unfolding handle_rename_position execute run
    renamed id none s = refl
    renamed id (some name) s = replied _ _ (rename_position d id name s)

    assigned :
        (id : String) (req : Option String) (s : Sys W)
        → (handle_assign_camera d id req s).1
          ≡ run d (asked_by (λ camera. assigns id camera ∷ []) req) s
    unfolding handle_assign_camera execute run
    assigned id none s = refl
    assigned id (some camera) s = replied _ _ (assign_camera d id camera s)

    scene_created :
        (req : Option (String × List String)) (s : Sys W)
        → (handle_create_scene d req s).1 ≡ run d (asked_by (λ r. creates_scene r.0 r.1 ∷ []) req) s
    unfolding handle_create_scene execute run
    scene_created none s = refl
    scene_created (some (name, ids)) s = replied _ _ (create_scene d name ids s)

    scene_patched :
        (id : String) (req : Option PatchSceneRequest) (s : Sys W)
        → (handle_patch_scene d id req s).1
          ≡ run d (asked_by (λ r. asked_patch d id r.name r.position_ids s) req) s
    unfolding handle_patch_scene run
    scene_patched id none s = refl
    scene_patched id (some r) s = patched id r.name r.position_ids s

    preview_set :
        (req : Option (String × String)) (s : Sys W)
        → (handle_set_preview d req s).1 ≡ run d (asked_by asked_preview req) s
    unfolding handle_set_preview run
    preview_set none s = refl
    preview_set (some (kind, id)) s = previewed (kind == "camera") (kind == "scene") id s _

    dispatch-eq-run :
        (route : Route) (body : String) (s : Sys W)
        → (dispatch d j route body s).1 ≡ run d (asked_of d j route body s) s
    unfolding dispatch asked_of run execute handle_health handle_list_cameras handle_status
        handle_sync handle_list_positions handle_delete_position handle_unassign_position
        handle_set_audio_position handle_list_scenes handle_delete_scene handle_get_live handle_cut
    dispatch-eq-run get_health body s = refl
    dispatch-eq-run get_cameras body s = refl
    dispatch-eq-run get_status body s = refl
    dispatch-eq-run post_sync body s = refl
    dispatch-eq-run get_positions body s = refl
    dispatch-eq-run post_positions body s = created (j.name body) s
    dispatch-eq-run (patch_position id) body s = renamed id (j.name body) s
    dispatch-eq-run (Route.delete_position id) body s = replied _ _ (delete_position d id s)
    dispatch-eq-run (post_camera id) body s = assigned id (j.camera_id body) s
    dispatch-eq-run (delete_camera id) body s = replied _ _ (unassign_position d id s)
    dispatch-eq-run (post_audio id) body s = replied _ _ (set_audio_position d id s)
    dispatch-eq-run get_scenes body s = refl
    dispatch-eq-run post_scenes body s = scene_created (j.scene body) s
    dispatch-eq-run (Route.patch_scene id) body s = scene_patched id (j.patch_scene body) s
    dispatch-eq-run (Route.delete_scene id) body s = replied _ _ (delete_scene d id s)
    dispatch-eq-run get_live body s = refl
    dispatch-eq-run post_preview body s = preview_set (j.preview body) s
    dispatch-eq-run post_cut body s = replied _ _ (cut d s)

    abbrev routed : Option Route → Request → Sys W → List Command
    routed o r s = elim o [ none ↦ [] | some route ↦ asked_of d j route r.body s ]

    mux-eq-run :
        (mux : Mux) (r : Request) (s : Sys W) (o : Option Route)
        → mux.match r.method r.path ≡ o
        → (serve_mux d j mux r s).1 ≡ run d (routed o r s) s
    unfolding serve_mux run
    mux-eq-run mux r s none z = ground arith
    mux-eq-run mux r s (some route) z =
        let e : (serve_mux d j mux r s).1 ≡ (dispatch d j route r.body s).1 = ground arith in
        e ∙ dispatch-eq-run route r.body s

    serve-eq-guard :
        (token : String) (mux : Mux) (r : Request) (s : Sys W)
        → (serve d j token mux r s).1 ≡ (
            if is_preflight r.method
            then s
            else if is_allowed token r
            then (serve_mux d j mux r s).1
            else s)
    unfolding serve guarded token_of is_allowed
    serve-eq-guard token mux r s = ground (
      arith,
      eq_iff r.header_token "",
      eq_iff r.query_token "",
      eq_iff r.header_token token,
      eq_iff r.query_token token,
      eq_iff token "",
    )

    asked-run :
        (preflight allowed : Bool) (cs : List Command) (s s' : Sys W)
        → s' ≡ run d cs s
        → (if preflight then s else if allowed then s' else s)
          ≡ run d (if preflight then [] else if allowed then cs else []) s
    unfolding run
    asked-run true allowed cs s s' e = refl
    asked-run false true cs s s' e = e
    asked-run false false cs s s' e = refl

    serve-eq-run :
        (token : String) (mux : Mux) (r : Request) (s : Sys W)
        → (serve d j token mux r s).1 ≡ run d (asked d j token mux r s) s
    unfolding asked
    serve-eq-run token mux r s =
        serve-eq-guard token mux r s
        ∙ asked-run (is_preflight r.method) (is_allowed token r) _ s _
            (mux-eq-run mux r s (mux.match r.method r.path) refl)

    run-append : (cs cs' : List Command) (s : Sys W) → run d (cs ++ cs') s ≡ run d cs' (run d cs s)
    unfolding run
    run-append [] cs' s = refl
    run-append (c ∷ cs) cs' s = run-append cs cs' (execute d c s)

    -- Requests of the routes of cameras, positions, scenes and the live leave in the orchestrator exactly what
    -- the commands leave that their routes and bodies stand for, each with the identifier of its path, one
    -- after the other. A request without the token stands for none, nor does one that only asks for the
    -- options, or whose body is not understood.
    pub serve_all-eq-run :
        (token : String) (mux : Mux) (rs : List Request) (s : Sys W)
        → serve_all d j token mux rs s ≡ run d (asked_all d j token mux rs s) s
    unfolding serve_all asked_all run
    serve_all-eq-run token mux [] s = refl
    serve_all-eq-run token mux (r ∷ rs) s =
        let cs = asked d j token mux r s in
        serve_all-eq-run token mux rs (serve d j token mux r s).1
        ∙ ap (λ x. run d (asked_all d j token mux rs x) x) (serve-eq-run token mux r s)
        ∙ sym (run-append cs (asked_all d j token mux rs (run d cs s)) s)
