-- ===== src/Orchestrator/OnObs.antt =====
-- `ObsController` of backend/internal/obs/obs.go as the OBS of the orchestrator.
use po_c_go_live.Base.{
  ◌≡◌, ◌≢◌, ℕ, String, Bool, true, inl, inr, none, some, List, arith, Option-cases,
}
use po_c_go_live.Obs.Client.{
  Goobs, ObsController, SceneItem, item_of, get_client, set_position_enabled, set_input_audio_muted,
  controller,
}
use po_c_go_live.Orchestrator.State.{Deps}
use po_c_go_live.Orchestrator.Shown.{IsFaithful}

-- The requests on scene items and on sound, as obs-websocket documents them: `view v input` tells
-- whether the item of the input in the program scene is enabled.
pub record AreItems {C V : Type 0} (g : Goobs C V) (scene : String) (view : V → String → Bool)
    : Type 0 where
  pub sets :
      (c : C) (v : V) (items : List SceneItem) (input : String) (id : ℕ) (b : Bool)
      → g.get_scene_item_list c scene v ≡ some items
      → item_of input items ≡ some id
      → (g.set_scene_item_enabled c scene id b v).0 ≡ true
      → view (g.set_scene_item_enabled c scene id b v).1 input ≡ b
  pub leaves :
      (c : C) (v : V) (items : List SceneItem) (input : String) (id : ℕ) (b : Bool) (j : String)
      → g.get_scene_item_list c scene v ≡ some items
      → item_of input items ≡ some id
      → input ≢ j
      → view (g.set_scene_item_enabled c scene id b v).1 j ≡ view v j
  pub mutes :
      (c : C) (v : V) (input : String) (b : Bool) (j : String)
      → view (g.set_input_mute c input b v).1 j ≡ view v j

module _ {C V : Type 0} (g : Goobs C V) (scene : String) (view : V → String → Bool) where
  client_sets :
      (input : String) (b : Bool) (o : ObsController C V)
      → AreItems g scene view
      → (set_position_enabled g scene input b o).0 ≡ none
      → view (set_position_enabled g scene input b o).1.world input ≡ b
  unfolding set_position_enabled
  client_sets input b o h e = elim (Option-cases (get_client o)) [
    | inl z ↦ ground arith
    | inr (c, z) ↦ elim (Option-cases (g.get_scene_item_list c scene o.world)) [
      | inl y ↦ ground arith
      | inr (items, y) ↦ elim (Option-cases (item_of input items)) [
        | inl x ↦ ground arith
        | inr (id, x) ↦ ground (arith, h.sets c o.world items input id b y x)
      ]
    ]
  ]

  client_leaves :
      (input : String) (b : Bool) (o : ObsController C V) (j : String)
      → AreItems g scene view
      → input ≢ j
      → view (set_position_enabled g scene input b o).1.world j ≡ view o.world j
  unfolding set_position_enabled
  client_leaves input b o j h n = elim (Option-cases (get_client o)) [
    | inl z ↦ ground arith
    | inr (c, z) ↦ elim (Option-cases (g.get_scene_item_list c scene o.world)) [
      | inl y ↦ ground arith
      | inr (items, y) ↦ elim (Option-cases (item_of input items)) [
        | inl x ↦ ground arith
        | inr (id, x) ↦ ground (arith, h.leaves c o.world items input id b j y x n)
      ]
    ]
  ]

  client_mutes :
      (input : String) (b : Bool) (o : ObsController C V) (j : String)
      → AreItems g scene view
      → view (set_input_audio_muted g input b o).1.world j ≡ view o.world j
  unfolding set_input_audio_muted
  client_mutes input b o j h = elim (Option-cases (get_client o)) [
    | inl z ↦ ground arith
    | inr (c, z) ↦ ground (arith, h.mutes c o.world input b j)
  ]

abbrev pub obs_shows : {C V : Type 0} → (V → String → Bool) → ObsController C V → String → Bool
obs_shows view o = view o.world

-- Over requests that do to the scene items what is documented, `SetPositionEnabled` sets its own
-- input when it succeeds and no other input ever, and muting an input shows and hides none.
pub controller-IsFaithful :
    {C V : Type 0} (g : Goobs C V) (d : Deps (ObsController C V)) (view : V → String → Bool)
    → AreItems g d.program_scene view
    → IsFaithful (record d { obs = controller g }) (obs_shows view)
controller-IsFaithful g d view h = record {
  sets = λ input b o. client_sets g d.program_scene view input b o h;
  leaves = λ input b o j. client_leaves g d.program_scene view input b o j h;
  mutes = λ input b o j. client_mutes g d.program_scene view input b o j h;
}
