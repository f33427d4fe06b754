-- ===== src/Obs/Contract.antt =====
-- What the comments of the `Controller` interface of backend/internal/obs/obs.go promise about inputs,
-- and the implementation in memory, the `Mock` of obsmock/obsmock.go.
use po_c_go_live.Base.{◌≡◌, ◌≢◌, String, Bool, true, false, none, some, arith, eq_iff}
use po_c_go_live.Dict.{get, get-put, get-del}
use po_c_go_live.Obs.{Controller}
use po_c_go_live.Obs.Mock.{Mock, mock, create_position_input, update_position_source, remove_input}

-- `has w input` tells whether OBS has the input.
pub record IsContract {W : Type 0} (c : Controller W) (has : W → String → Bool) : Type 0 where
  -- It never creates an input that is there.
  pub creates :
      (scene input : String) (w : W)
      → (c.create_position_input scene input w).0 ≡ none
      → (has w input ≡ false) × (has (c.create_position_input scene input w).1 input ≡ true)
  pub refuses :
      (scene input : String) (w : W) (j : String)
      → (c.create_position_input scene input w).0 ≢ none
      → has (c.create_position_input scene input w).1 j ≡ has w j
  -- It never creates one here.
  pub updates :
      (input url : String) (w : W)
      → (c.update_position_source input url w).0 ≡ none
      → has w input ≡ true
  pub keeps :
      (input url : String) (w : W) (j : String)
      → has (c.update_position_source input url w).1 j ≡ has w j
  pub removes :
      (input : String) (w : W)
      → (c.remove_input input w).0 ≡ none
      → has (c.remove_input input w).1 input ≡ false

abbrev pub has_input : Mock → String → Bool
has_input m input = elim (get input m.inputs) [ none ↦ false | some url ↦ true ]

-- The mock keeps the promises: an input is created only where there is none, and a source is set only
-- of an input that there is.
pub mock-IsContract : IsContract mock has_input
unfolding create_position_input update_position_source remove_input
mock-IsContract = record {
  creates = λ scene input m e. ground (arith, get-put input input "" m.inputs, eq_iff input input);
  refuses = λ scene input m j e. ground arith;
  updates = λ input url m e. ground arith;
  keeps = λ input url m j. ground (arith, get-put input j url m.inputs, eq_iff input j);
  removes = λ input m e. ground (arith, get-del input input m.inputs, eq_iff input input);
}
