-- ===== src/Obs/OverGoobs.antt =====
-- `ObsController` of backend/internal/obs/obs.go as a `Controller`, over an OBS that answers the
-- requests as obs-websocket documents them.
use po_c_go_live.Base.{
  ◌≡◌, ◌≢◌, String, Bool, true, false, inl, inr, none, some, List, arith, contains, Option-cases,
}
use po_c_go_live.Obs.Contract.{IsContract}
use po_c_go_live.Obs.Client.{
  Goobs, ObsController, CreateInput, InputSettings, get_client, find_input, new_input,
  input_settings, create_position_input, update_position_source, remove_input, controller,
}

-- `has v input` tells whether OBS has the input.
pub record AreInputs {C V : Type 0} (g : Goobs C V) (has : V → String → Bool) : Type 0 where
  pub lists :
      (c : C) (v : V) (names : List String) (input : String)
      → g.get_input_list c v ≡ some names
      → contains input names ≡ has v input
  pub created :
      (c : C) (r : CreateInput) (v : V)
      → (g.create_input c r v).0 ≡ true
      → has (g.create_input c r v).1 r.input_name ≡ true
  pub refused :
      (c : C) (r : CreateInput) (v : V) (j : String)
      → (g.create_input c r v).0 ≡ false
      → has (g.create_input c r v).1 j ≡ has v j
  pub set :
      (c : C) (input : String) (s : InputSettings) (b : Bool) (v : V) (j : String)
      → has (g.set_input_settings c input s b v).1 j ≡ has v j
  pub deleted :
      (c : C) (input : String) (v : V)
      → (g.delete_input c input v).0 ≡ true
      → has (g.delete_input c input v).1 input ≡ false

module _ {C V : Type 0} (g : Goobs C V) (has : V → String → Bool) where
  abbrev pub obs_has : ObsController C V → String → Bool
  obs_has o = has o.world

  found-has :
      (input : String) (o : ObsController C V) (b : Bool)
      → AreInputs g has
      → find_input g input o ≡ some b
      → has o.world input ≡ b
  unfolding find_input
  found-has input o b h e = elim (Option-cases (get_client o)) [
    | inl z ↦ ground arith
    | inr (c, z) ↦ elim (Option-cases (g.get_input_list c o.world)) [
      | inl y ↦ ground arith
      | inr (names, y) ↦ ground (arith, h.lists c o.world names input y)
    ]
  ]

  client_creates :
      (scene input : String) (o : ObsController C V)
      → AreInputs g has
      → (create_position_input g scene input o).0 ≡ none
      → (has o.world input ≡ false)
        × (has (create_position_input g scene input o).1.world input ≡ true)
  unfolding create_position_input
  client_creates scene input o h e = elim (Option-cases (get_client o)) [
    | inl z ↦ ground arith
    | inr (c, z) ↦ elim (Option-cases (find_input g input o)) [
      | inl y ↦ ground arith
      | inr (true, y) ↦ ground arith
      | inr (false, y) ↦
          ground (arith, found-has input o false h y, h.created c (new_input scene input) o.world)
    ]
  ]

  client_refuses :
      (scene input : String) (o : ObsController C V) (j : String)
      → AreInputs g has
      → (create_position_input g scene input o).0 ≢ none
      → has (create_position_input g scene input o).1.world j ≡ has o.world j
  unfolding create_position_input
  client_refuses scene input o j h e = elim (Option-cases (get_client o)) [
    | inl z ↦ ground arith
    | inr (c, z) ↦ elim (Option-cases (find_input g input o)) [
      | inl y ↦ ground arith
      | inr (true, y) ↦ ground arith
      | inr (false, y) ↦ ground (arith, h.refused c (new_input scene input) o.world j)
    ]
  ]

  client_updates :
      (input url : String) (o : ObsController C V)
      → AreInputs g has
      → (update_position_source g input url o).0 ≡ none
      → has o.world input ≡ true
  unfolding update_position_source
  client_updates input url o h e = elim (Option-cases (get_client o)) [
    | inl z ↦ ground arith
    | inr (c, z) ↦ elim (Option-cases (find_input g input o)) [
      | inl y ↦ ground arith
      | inr (true, y) ↦ found-has input o true h y
      | inr (false, y) ↦ ground arith
    ]
  ]

  client_keeps :
      (input url : String) (o : ObsController C V) (j : String)
      → AreInputs g has
      → has (update_position_source g input url o).1.world j ≡ has o.world j
  unfolding update_position_source
  client_keeps input url o j h = elim (Option-cases (get_client o)) [
    | inl z ↦ ground arith
    | inr (c, z) ↦ elim (Option-cases (find_input g input o)) [
      | inl y ↦ ground arith
      | inr (true, y) ↦ ground (arith, h.set c input (input_settings url) false o.world j)
      | inr (false, y) ↦ ground arith
    ]
  ]

  client_removes :
      (input : String) (o : ObsController C V)
      → AreInputs g has
      → (remove_input g input o).0 ≡ none
      → has (remove_input g input o).1.world input ≡ false
  unfolding remove_input
  client_removes input o h e = elim (Option-cases (get_client o)) [
    | inl z ↦ ground arith
    | inr (c, z) ↦ ground (arith, h.deleted c input o.world)
  ]

  -- Over requests that do to the inputs what is documented, the controller keeps the promises of the
  -- interface: an input is created only where there is none, and a source is set only of an input
  -- that there is.
  pub controller-IsContract : AreInputs g has → IsContract (controller g) obs_has
  controller-IsContract h = record {
    creates = λ scene input o. client_creates scene input o h;
    refuses = λ scene input o j. client_refuses scene input o j h;
    updates = λ input url o. client_updates input url o h;
    keeps = λ input url o j. client_keeps input url o j h;
    removes = λ input o. client_removes input o h;
  }
