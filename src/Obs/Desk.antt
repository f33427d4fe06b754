-- ===== src/Obs/Desk.antt =====
-- An OBS in memory, behind the requests of goobs that backend/internal/obs/obs.go makes.
use po_c_go_live.Base.{
  eqb, String, Bool, true, false, none, some, List, [], ◌∷◌, ◌==◌, if◌then◌else◌,
}
use po_c_go_live.Dict.{Dict, get, put, del, keys}
use po_c_go_live.Obs.Client.{Goobs, SceneItem}

-- Whether it answers, its inputs, and the items of the inputs pos_a and pos_b.
pub record Desk : Type 0 where
  pub up : Bool
  pub inputs : Dict String
  pub a_enabled : Bool
  pub b_enabled : Bool

abbrev pub desk_has : Desk → String → Bool
desk_has v input = elim (get input v.inputs) [ none ↦ false | some url ↦ true ]

abbrev pub desk_shows : Desk → String → Bool
desk_shows v input =
    if input == "pos_a" then v.a_enabled else if input == "pos_b" then v.b_enabled else false

abbrev pub desk_items : List SceneItem
desk_items =
    record { source_name = "pos_a"; scene_item_id = 1 }
    ∷ record { source_name = "pos_b"; scene_item_id = 2 }
    ∷ []

abbrev pub goobs : Goobs (Unit {0}) Desk
goobs = record {
  dial = λ addr password v. (if v.up then some tt else none, v);
  disconnect = λ c v. v;
  get_version = λ c v. v.up;
  get_scene_list = λ c v. some ("program" ∷ []);
  create_scene = λ c name v. (true, v);
  get_input_list = λ c v. some (keys v.inputs);
  create_input = λ c r v. (true, record v { inputs = put r.input_name "" v.inputs });
  set_input_settings = λ c input s b v. (true, v);
  delete_input = λ c input v. (true, record v { inputs = del input v.inputs });
  get_scene_item_list = λ c scene v. some desk_items;
  set_scene_item_enabled = λ c scene id b v. (
    true,
    record v {
      a_enabled = if eqb id 1 then b else v.a_enabled;
      b_enabled = if eqb id 1 then v.b_enabled else b;
    },
  );
  set_input_mute = λ c input b v. (true, v);
  set_stream_service_settings = λ c kind server key v. (true, v);
  start_stream = λ c v. (true, v);
  stop_stream = λ c v. (true, v);
  get_stream_status = λ c v. some false;
}
