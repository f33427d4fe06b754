-- ===== src/Orchestrator/Refines/Live.antt =====
-- The writes of the methods on the preview and of `Cut`.
use po_c_go_live.Base.{Option-cases, String, ◌≡◌, refl, ◌⊎◌, inl, inr, true, some, List, arith}
use po_c_go_live.Dict.{get}
use po_c_go_live.Orchestrator.Models.{LiveState, Err, Camera, Scene, is_online}
use po_c_go_live.Orchestrator.State.{M, locked, ◌>>=◌, Orch, Deps, Sys, ok, err, Result-cases}
use po_c_go_live.Orchestrator.Positions.{ensure_hidden_position}
use po_c_go_live.Orchestrator.Assignment.{set_audio_position_internal}
use po_c_go_live.Orchestrator.Live.{
  Plan, keep, to_camera, to_scene, plan_cut, preview_camera, preview_scene, commit_camera,
  commit_scene, set_preview_camera, set_preview_scene, show, prepare_camera, cut_camera, cut_scene,
  carry_out, cut,
}
use po_c_go_live.Orchestrator.Quiet.{bind-Steps, quiet_rules, IsQuiet, apply-IsQuiet}
use po_c_go_live.Orchestrator.Refines.Positions.{ensure_hidden-Steps}
use po_c_go_live.Orchestrator.Refines.Assignment.{
  set_audio_position_internal-Steps, cameras-set_audio_position_internal,
  scenes-set_audio_position_internal,
}
use po_c_go_live.Orchestrator.Step.{
  Steps, Steps-trans, still, one, next, here, previews_camera, previews_scene, airs_camera,
  airs_scene,
}

-- A plan for what is known to the struct that it was made from.
abbrev Grounded : Plan → Orch → Type 0
Grounded (keep l) o = Unit
Grounded (to_camera url id) o =
    (key : String) × (c : Camera) × (get key o.cameras ≡ some c)
    × (is_online c.status ≡ true)
    × (c.id ≡ id)
Grounded (to_scene ids id) o =
    (key : String) × (sc : Scene) × (get key o.scenes ≡ some sc) × (sc.id ≡ id)

plan_cut-Grounded : (o : Orch) (p : Plan) → (plan_cut o).0 ≡ ok p → Grounded p o
unfolding plan_cut
plan_cut-Grounded o (keep l) h = tt
plan_cut-Grounded o (to_camera url id) h = elim (Option-cases (get o.live.preview_id o.cameras)) [
  | inl z ↦ absurd (ground arith)
  | inr (c, z) ↦ (o.live.preview_id, c, z, ground arith, ground arith)
]
plan_cut-Grounded o (to_scene ids id) h = elim (Option-cases (get o.live.preview_id o.scenes)) [
  | inl z ↦ absurd (ground arith)
  | inr (sc, z) ↦ (o.live.preview_id, sc, z, ground arith)
]

pub orch-plan_cut : (o : Orch) → (plan_cut o).1 ≡ o
unfolding plan_cut
orch-plan_cut o = ground arith

module _ {W : Type 0} (d : Deps W) where
  show-IsQuiet : {C : Type 0} (ids : List String) → IsQuiet C (show d ids)
  unfolding show
  show-IsQuiet ids = search (quiet_rules, apply-IsQuiet d)

  audio-IsQuiet : {C : Type 0} (id : String) → IsQuiet C (set_audio_position_internal d id)
  audio-IsQuiet id = record {
    steps = λ s. set_audio_position_internal-Steps d id s;
    cameras = λ s. cameras-set_audio_position_internal d id s;
    scenes = λ s. scenes-set_audio_position_internal d id s;
  }

  prepare-IsQuiet : {C : Type 0} (url : String) → IsQuiet C (prepare_camera d url)
  unfolding prepare_camera
  prepare-IsQuiet url = search (quiet_rules, show-IsQuiet, audio-IsQuiet)

  cut_camera_cases :
      (url id : String) (s : Sys W)
      → ((cut_camera d url id s).1.orch ≡ (prepare_camera d url s).1.orch)
        ⊎ ((cut_camera d url id s).1.orch ≡ (commit_camera id (prepare_camera d url s).1.orch).1)
  unfolding cut_camera
  cut_camera_cases url id s = ground arith

  cut_camera-Steps :
      {C : Type 0} (url key : String) (c : Camera) (s : Sys W)
      → get key s.orch.cameras ≡ some c
      → is_online c.status ≡ true
      → Steps C s.orch (cut_camera d url c.id s).1.orch
  cut_camera-Steps {C} url key c s g n =
      let q = prepare-IsQuiet {C = C} url in
      elim (cut_camera_cases url c.id s) [
        | inl e ↦ Steps-trans (q.steps s) (still e)
        | inr e ↦ next (q.steps s) (airs_camera key c (rw (q.cameras s) g) n e)
      ]

  cut_scene_cases :
      (ids : List String) (id : String) (s : Sys W)
      → ((cut_scene d ids id s).1.orch ≡ (show d ids s).1.orch)
        ⊎ ((cut_scene d ids id s).1.orch ≡ (commit_scene id (show d ids s).1.orch).1)
  unfolding cut_scene
  cut_scene_cases ids id s = ground arith

  cut_scene-Steps :
      {C : Type 0} (ids : List String) (key : String) (sc : Scene) (s : Sys W)
      → get key s.orch.scenes ≡ some sc
      → Steps C s.orch (cut_scene d ids sc.id s).1.orch
  cut_scene-Steps {C} ids key sc s g =
      let q = show-IsQuiet {C = C} ids in
      elim (cut_scene_cases ids sc.id s) [
        | inl e ↦ Steps-trans (q.steps s) (still e)
        | inr e ↦ next (q.steps s) (airs_scene key sc (rw (q.scenes s) g) e)
      ]

  carry_out-Steps :
      {C : Type 0} (p : Plan) (s : Sys W)
      → Grounded p s.orch
      → Steps C s.orch (carry_out d p s).1.orch
  unfolding carry_out
  carry_out-Steps (keep l) s h = here
  carry_out-Steps (to_camera url id) s (key, c, g, n, e) =
      rw (← e) (cut_camera-Steps url key c s g n)
  carry_out-Steps (to_scene ids id) s (key, sc, g, e) = rw (← e) (cut_scene-Steps ids key sc s g)

  -- `Cut` after the hidden position: the plan, and what it leads to.
  abbrev planned : M W LiveState
  planned = do plan ← locked plan_cut; carry_out d plan

  planned_refused :
      (s : Sys W) {e : Err} → (plan_cut s.orch).0 ≡ err e → (planned s).1.orch ≡ s.orch
  planned_refused s h = ground (arith, orch-plan_cut s.orch)

  planned-eq-carry_out :
      (p : Plan) (s : Sys W)
      → (plan_cut s.orch).0 ≡ ok p
      → (planned s).1.orch ≡ (carry_out d p s).1.orch
  planned-eq-carry_out p s h = rw (h, orch-plan_cut s.orch)

  planned-Steps : {C : Type 0} (s : Sys W) → Steps C s.orch (planned s).1.orch
  planned-Steps s = elim (Result-cases (plan_cut s.orch).0) [
    | inr (e, h) ↦ still (planned_refused s h)
    | inl (p, h) ↦
        rw (planned-eq-carry_out p s h) (carry_out-Steps p s (plan_cut-Grounded s.orch p h))
  ]

  pub cut-Steps : {C : Type 0} (s : Sys W) → Steps C s.orch (cut d s).1.orch
  unfolding cut
  cut-Steps s = elim (Result-cases (ensure_hidden_position d s).0) [
    | inr (e, h) ↦ rw h (ensure_hidden-Steps d s)
    | inl (u, h) ↦
        rw h (Steps-trans (ensure_hidden-Steps d s) (planned-Steps (ensure_hidden_position d s).1))
  ]

  pub set_preview_camera-Steps :
      {C : Type 0} (id : String) (s : Sys W) → Steps C s.orch (set_preview_camera d id s).1.orch
  unfolding set_preview_camera
  set_preview_camera-Steps id s =
      bind-Steps (locked (preview_camera id)) _ s (one (previews_camera id refl))
        λ l. search quiet_rules

  pub set_preview_scene-Steps :
      {C : Type 0} (id : String) (s : Sys W) → Steps C s.orch (set_preview_scene d id s).1.orch
  unfolding set_preview_scene
  set_preview_scene-Steps id s =
      bind-Steps (locked (preview_scene id)) _ s (one (previews_scene id refl))
        λ l. search quiet_rules
