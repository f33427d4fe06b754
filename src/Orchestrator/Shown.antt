-- ===== src/Orchestrator/Shown.antt =====
-- What OBS shows after `applyExclusiveVisibility` and `Cut` of
-- backend/internal/orchestrator/orchestrator.go, for an OBS that does what it is told.
use text.Mathlib.TextLemmas.{append_cancel_left}
use po_c_go_live.Base.{
  String, ◌≡◌, ◌≢◌, refl, subst, ◌∙◌, Bool, true, false, inl, inr, none, List, [], ◌∷◌, arith, ◌==◌,
  ◌||◌, eq_iff, contains, if◌then◌else◌, Bool-cases, Option-cases,
}
use po_c_go_live.Dict.{Dict, get, keys}
use po_c_go_live.Orchestrator.Models.{LiveState, simple_position_id}
use po_c_go_live.Orchestrator.State.{Deps, Sys, ok, Result-cases}
use po_c_go_live.Orchestrator.Positions.{
  register_hidden, position_input_name, ensure_hidden_position,
}
use po_c_go_live.Orchestrator.Visibility.{set_each, apply_exclusive_visibility}
use po_c_go_live.Orchestrator.Live.{
  carry_out, show, prepare_camera, cut_camera, cut_scene, cut, plan_cut, Plan, keep, to_camera,
  to_scene,
}
use po_c_go_live.Orchestrator.Assignment.{move_sound, set_audio_position_internal}
use po_c_go_live.Orchestrator.Refines.Live.{orch-plan_cut}

-- `view w input` tells whether OBS shows the input. `SetPositionEnabled` sets its own input when it
-- succeeds, and no other input ever; muting an input shows and hides none.
pub record IsFaithful {W : Type 0} (d : Deps W) (view : W → String → Bool) : Type 0 where
  pub sets :
      (input : String) (b : Bool) (w : W)
      → (d.obs.set_position_enabled d.program_scene input b w).0 ≡ none
      → view (d.obs.set_position_enabled d.program_scene input b w).1 input ≡ b
  pub leaves :
      (input : String) (b : Bool) (w : W) (j : String)
      → input ≢ j
      → view (d.obs.set_position_enabled d.program_scene input b w).1 j ≡ view w j
  pub mutes :
      (input : String) (b : Bool) (w : W) (j : String)
      → view (d.obs.set_input_audio_muted input b w).1 j ≡ view w j

position_input_name-injective :
    (i j : String) → position_input_name i ≡ position_input_name j → i ≡ j
unfolding position_input_name
position_input_name-injective i j e = append_cancel_left "pos_" i j e

keys-contains : {V : Type 0} (k : String) (m : Dict V) → get k m ≢ none → contains k (keys m) ≡ true
unfolding get keys
keys-contains k [] h = absurd (h refl)
keys-contains k ((j, v) ∷ m) h = ground (arith, keys-contains k m)

or_false : (b : Bool) → (b || false) ≡ b
or_false true = refl
or_false false = refl

module _ {W : Type 0} (d : Deps W) (view : W → String → Bool) where
  set_each-shows :
      (enabled ids : List String) (s : Sys W) (i : String)
      → IsFaithful d view
      → (set_each d enabled ids s).0 ≡ ok tt
      → view (set_each d enabled ids s).1.world (position_input_name i)
        ≡ (if contains i ids then contains i enabled else view s.world (position_input_name i))
  unfolding set_each
  set_each-shows enabled [] s i f e = refl
  set_each-shows enabled (k ∷ ids) s i f e =
      let c =
        d.obs.set_position_enabled d.program_scene (position_input_name k) (contains k enabled) in
      elim (Option-cases (c s.world).0) [
        | inr (fault, z) ↦ absurd (ground arith)
        | inl z ↦ elim (Bool-cases (k == i)) [
          | inl q ↦ ground (
            arith,
            set_each-shows enabled ids (record s { world = (c s.world).1 }) i f,
            subst (λ x. view (c s.world).1 (position_input_name x) ≡ contains x enabled)
                ((eq_iff k i).0 q) (f.sets (position_input_name k) (contains k enabled) s.world z),
          )
          | inr q ↦ ground (
            arith,
            set_each-shows enabled ids (record s { world = (c s.world).1 }) i f,
            f.leaves (position_input_name k) (contains k enabled) s.world (position_input_name i)
                (λ n. ground (arith, eq_iff k i, position_input_name-injective k i n)),
          )
        ]
      ]

  apply-shows :
      (enabled : List String) (s : Sys W) (i : String)
      → IsFaithful d view
      → (apply_exclusive_visibility d enabled s).0 ≡ ok tt
      → get i s.orch.positions ≢ none
      → view (apply_exclusive_visibility d enabled s).1.world (position_input_name i)
        ≡ contains i enabled
  unfolding apply_exclusive_visibility
  apply-shows enabled s i f e h = ground (
    arith,
    set_each-shows enabled (keys s.orch.positions) s i f e,
    keys-contains i s.orch.positions h,
  )

  show-shows :
      (enabled : List String) (s : Sys W) (i : String)
      → IsFaithful d view
      → (show d enabled s).0 ≡ ok tt
      → get i s.orch.positions ≢ none
      → view (show d enabled s).1.world (position_input_name i) ≡ contains i enabled
  unfolding show
  show-shows enabled s i f e h = elim (Result-cases (apply_exclusive_visibility d enabled s).0) [
    | inl (u, z) ↦ ground (arith, apply-shows enabled s i f z h)
    | inr (x, z) ↦ absurd (ground arith)
  ]

  world-cut_scene :
      (ids : List String) (id : String) (l : LiveState) (s : Sys W)
      → (cut_scene d ids id s).0 ≡ ok l
      → ((show d ids s).0 ≡ ok tt) × ((cut_scene d ids id s).1.world ≡ (show d ids s).1.world)
  unfolding cut_scene
  world-cut_scene ids id l s e = ground arith

  world-cut_camera :
      (url id : String) (l : LiveState) (s : Sys W)
      → (cut_camera d url id s).0 ≡ ok l
      → let s' =
          (d.obs.update_position_source (position_input_name simple_position_id) url s.world).1 in
        let shown = show d (simple_position_id ∷ []) (record s { world = s' }) in
        (shown.0 ≡ ok tt)
        × ((cut_camera d url id s).1.world
            ≡ (set_audio_position_internal d simple_position_id shown.1).1.world)
  unfolding cut_camera prepare_camera
  world-cut_camera url id l s e = ground arith

  view-set_audio_position_internal :
      (id : String) (s : Sys W) (i : String)
      → IsFaithful d view
      → view (set_audio_position_internal d id s).1.world i ≡ view s.world i
  unfolding set_audio_position_internal move_sound
  view-set_audio_position_internal id s i f =
      let previous = position_input_name s.orch.audio_position_id in
      ground (
        arith,
        f.mutes previous true s.world i,
        f.mutes (position_input_name id) false s.world i,
        f.mutes (position_input_name id) false (d.obs.set_input_audio_muted previous true s.world).1
            i,
      )

  -- What a cut with this plan leaves OBS with, for the input of the position `i`.
  abbrev pub Shows : Plan → String → W → W → Type 0
  Shows (keep l) i before after = after ≡ before
  Shows (to_camera url id) i before after =
      view after (position_input_name i) ≡ (simple_position_id == i)
  Shows (to_scene ids id) i before after = view after (position_input_name i) ≡ contains i ids

  carry_out-Shows :
      (p : Plan) (l : LiveState) (s : Sys W) (i : String)
      → IsFaithful d view
      → (carry_out d p s).0 ≡ ok l
      → get i s.orch.positions ≢ none
      → Shows p i s.world (carry_out d p s).1.world
  unfolding carry_out
  carry_out-Shows (keep k) l s i f e h = refl
  carry_out-Shows (to_camera url id) l s i f e h =
      let w =
        (d.obs.update_position_source (position_input_name simple_position_id) url s.world).1 in
      let s' : Sys W = record s { world = w } in
      let (shown, world) = world-cut_camera url id l s e in
      rw (world) (
        view-set_audio_position_internal simple_position_id (show d (simple_position_id ∷ []) s').1
          (position_input_name i) f
        ∙ show-shows (simple_position_id ∷ []) s' i f shown h
        ∙ or_false (simple_position_id == i))
  carry_out-Shows (to_scene ids id) l s i f e h =
      let (shown, world) = world-cut_scene ids id l s e in rw world (show-shows ids s i f shown h)

  ok-ensure_hidden : (s : Sys W) → (ensure_hidden_position d s).0 ≡ ok tt
  unfolding ensure_hidden_position register_hidden
  ok-ensure_hidden s = ground arith

  pub cut-eq-carry_out :
      (p : Plan) (s : Sys W)
      → let s' = (ensure_hidden_position d s).1 in
        (plan_cut s'.orch).0 ≡ ok p → cut d s ≡ carry_out d p s'
  unfolding cut
  cut-eq-carry_out p s e =
      rw (ok-ensure_hidden s, e, orch-plan_cut (ensure_hidden_position d s).1.orch) refl

  -- With an OBS that does what it is told, a `Cut` that returns no error shows what its plan says,
  -- of every position that there is: with a camera the hidden position and no other, with a scene the
  -- positions to enable and no other. If the selection is on air already, it asks nothing of OBS.
  pub cut-Shows :
      (p : Plan) (l : LiveState) (s : Sys W) (i : String)
      → IsFaithful d view
      → (plan_cut (ensure_hidden_position d s).1.orch).0 ≡ ok p
      → (cut d s).0 ≡ ok l
      → get i (ensure_hidden_position d s).1.orch.positions ≢ none
      → Shows p i (ensure_hidden_position d s).1.world (cut d s).1.world
  cut-Shows p l s i f e c h =
      let s' = (ensure_hidden_position d s).1 in
      let q = cut-eq-carry_out p s e in rw q (carry_out-Shows p l s' i f (rw q at c) h)
