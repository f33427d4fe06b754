-- ===== src/Orchestrator/OnMock.antt =====
-- The `Mock` of backend/internal/obs/obsmock/obsmock.go as the OBS of the orchestrator.
use po_c_go_live.Base.{
  ◌≡◌, ◌≢◌, refl, String, Bool, false, inl, inr, none, some, List, [], ◌∷◌, arith, contains, eq_iff,
  Option-cases,
}
use po_c_go_live.Dict.{Dict, get, put, get-put, keys}
use po_c_go_live.Obs.Mock.{
  Mock, mock, set_position_enabled, set_input_audio_muted, update_position_source,
}
use po_c_go_live.Orchestrator.Models.{Position, LiveState, simple_position_id}
use po_c_go_live.Orchestrator.State.{Deps, Sys, M, ok, ignore_error, Result-cases}
use po_c_go_live.Orchestrator.Positions.{position_input_name, ensure_hidden_position}
use po_c_go_live.Orchestrator.Visibility.{set_each, apply_exclusive_visibility}
use po_c_go_live.Orchestrator.Assignment.{set_audio_position_internal}
use po_c_go_live.Orchestrator.Live.{
  Plan, keep, to_camera, to_scene, plan_cut, show, prepare_camera, cut_camera, cut_scene, carry_out,
  commit_camera, commit_scene, cut,
}
use po_c_go_live.Orchestrator.Shown.{IsFaithful, Shows, cut-eq-carry_out, cut-Shows}

abbrev pub shown : Mock → String → Bool
shown m input = elim (get input m.enabled) [ none ↦ false | some b ↦ b ]

abbrev pub with_mock : Deps Mock → Deps Mock
with_mock d = record d { obs = mock }

pub mock-IsFaithful : (d : Deps Mock) → IsFaithful (with_mock d) shown
unfolding set_position_enabled set_input_audio_muted
mock-IsFaithful d = record {
  sets = λ input b m e. ground (arith, get-put input input b m.enabled, eq_iff input input);
  leaves = λ input b m j n. ground (arith, get-put input j b m.enabled, eq_iff input j);
  mutes = λ input b m j. ground arith;
}

-- The mock has the input of each of the positions.
abbrev AreThere : List String → Dict String → Type 0
AreThere [] inputs = Unit
AreThere (i ∷ is) inputs = (get (position_input_name i) inputs ≢ none) × AreThere is inputs

-- The mock has an input for every position, and refuses no change of visibility.
abbrev pub IsReady : Dict Position → Mock → Type 0
IsReady positions m =
    ((i : String) → get i positions ≢ none → get (position_input_name i) m.inputs ≢ none)
    × (m.set_position_enabled_err ≡ none)

keys-AreThere :
    (positions : Dict Position) (inputs : Dict String)
    → ((i : String) → get i positions ≢ none → get (position_input_name i) inputs ≢ none)
    → AreThere (keys positions) inputs
unfolding keys get
keys-AreThere [] m h = tt
keys-AreThere ((k, p) ∷ ps) m h = (
  h k (λ e. ground (arith, eq_iff k k)),
  keys-AreThere ps m (λ i n. h i (λ e. ground (arith, n))),
)

-- What the calls do if nothing stands against them.
set-accepted :
    (scene input : String) (b : Bool) (m : Mock)
    → get input m.inputs ≢ none
    → m.set_position_enabled_err ≡ none
    → set_position_enabled scene input b m ≡ (none, record m { enabled = put input b m.enabled })
unfolding set_position_enabled
set-accepted scene input b m h e = elim (Option-cases (get input m.inputs)) [
  | inl z ↦ absurd (h z)
  | inr (url, z) ↦ ground arith
]

update-accepted :
    (input url : String) (m : Mock)
    → get input m.inputs ≢ none
    → update_position_source input url m ≡ (none, record m { inputs = put input url m.inputs })
unfolding update_position_source
update-accepted input url m h = elim (Option-cases (get input m.inputs)) [
  | inl z ↦ absurd (h z)
  | inr (old, z) ↦ ground arith
]

update-IsReady :
    (positions : Dict Position) (input url : String) (m : Mock)
    → IsReady positions m
    → IsReady positions (record m { inputs = put input url m.inputs })
update-IsReady positions input url m h = (
  λ i n e. ground (
    arith,
    h.0 i n,
    get-put input (position_input_name i) url m.inputs,
    eq_iff input (position_input_name i),
  ),
  h.1,
)

ignored : {W : Type 0} (m : M W (Unit {0})) (s : Sys W) → (ignore_error m s).0 ≡ ok tt
ignored m s = elim (Result-cases (m s).0) [ inl (u, z) ↦ ground arith | inr (x, z) ↦ ground arith ]

module _ (d : Deps Mock) where
  set_each_succeeds :
      (enabled ids : List String) (s : Sys Mock)
      → AreThere ids s.world.inputs
      → s.world.set_position_enabled_err ≡ none
      → (set_each (with_mock d) enabled ids s).0 ≡ ok tt
  unfolding set_each
  set_each_succeeds enabled [] s h e = refl
  set_each_succeeds enabled (i ∷ is) s h e =
      let s' : Sys Mock = record s {
        world = record s.world {
          enabled = put (position_input_name i) (contains i enabled) s.world.enabled;
        };
      } in
      let q =
        set-accepted d.program_scene (position_input_name i) (contains i enabled) s.world h.0 e in
      rw q (set_each_succeeds enabled is s' h.1 e)

  show_succeeds :
      (enabled : List String) (s : Sys Mock)
      → IsReady s.orch.positions s.world
      → (show (with_mock d) enabled s).0 ≡ ok tt
  unfolding show apply_exclusive_visibility
  show_succeeds enabled s h =
      let e =
        set_each_succeeds enabled (keys s.orch.positions) s
          (keys-AreThere s.orch.positions s.world.inputs h.0) h.1 in
      ground arith

  prepare_succeeds :
      (url : String) (s : Sys Mock)
      → IsReady s.orch.positions s.world
      → get simple_position_id s.orch.positions ≢ none
      → (prepare_camera (with_mock d) url s).0 ≡ ok tt
  unfolding prepare_camera
  prepare_succeeds url s h n =
      let input = position_input_name simple_position_id in
      let s' : Sys Mock = record s {
        world = record s.world { inputs = put input url s.world.inputs };
      } in
      let q = update-accepted input url s.world (h.0 simple_position_id n) in
      let e =
        show_succeeds (simple_position_id ∷ []) s'
          (update-IsReady s.orch.positions input url s.world h) in
      rw (q, e)
        (ignored (set_audio_position_internal (with_mock d) simple_position_id)
          (show (with_mock d) (simple_position_id ∷ []) s').1)

  carry_out_succeeds :
      (p : Plan) (s : Sys Mock)
      → IsReady s.orch.positions s.world
      → get simple_position_id s.orch.positions ≢ none
      → (l : LiveState) × ((carry_out (with_mock d) p s).0 ≡ ok l)
  unfolding carry_out cut_camera cut_scene commit_camera commit_scene
  carry_out_succeeds (keep l) s h n = (l, refl)
  carry_out_succeeds (to_camera url id) s h n = let e = prepare_succeeds url s h n in rw e (_, refl)
  carry_out_succeeds (to_scene ids id) s h n = let e = show_succeeds ids s h in rw e (_, refl)

  -- With the mock, if it refuses no change of visibility and has the input of every position, the
  -- hidden one among them: a `Cut` of a selection that can go on air returns no error, and the mock
  -- then shows what was selected, of every position: with a camera the hidden
  -- position and no other, with a scene the positions to enable and no other.
  pub cut_succeeds :
      (p : Plan) (s : Sys Mock) (i : String)
      → let s' = (ensure_hidden_position (with_mock d) s).1 in
        (plan_cut s'.orch).0 ≡ ok p
        → IsReady s'.orch.positions s'.world
        → get simple_position_id s'.orch.positions ≢ none
        → get i s'.orch.positions ≢ none
        → ((l : LiveState) × ((cut (with_mock d) s).0 ≡ ok l))
          × Shows (with_mock d) shown p i s'.world (cut (with_mock d) s).1.world
  cut_succeeds p s i e h n k =
      let s' = (ensure_hidden_position (with_mock d) s).1 in
      let q = cut-eq-carry_out (with_mock d) shown p s e in
      let (l, c) = carry_out_succeeds p s' h n in
      ((l, rw q c), cut-Shows (with_mock d) shown p l s i (mock-IsFaithful d) e (rw q c) k)
