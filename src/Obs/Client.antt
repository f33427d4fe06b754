-- ===== src/Obs/Client.antt =====
-- `ObsController` of backend/internal/obs/obs.go, over the calls of goobs that it makes. `C` is goobs'
-- client and `V` the state of OBS.
use po_c_go_live.Base.{
  ℕ, String, Bool, true, false, Option, none, some, List, [], ◌∷◌, contains, ◌==◌, if◌then◌else◌,
}
use po_c_go_live.Obs.{Fault, input_not_found, failed, Call, Controller}

abbrev pub input_kind : String
input_kind = "ffmpeg_source"

-- `inputSettings`
pub record InputSettings : Type 0 where
  pub input : String
  pub is_local_file : Bool
  pub reconnect_delay_sec : ℕ
  pub buffering_mb : ℕ

pub record CreateInput : Type 0 where
  pub scene_name : String
  pub input_name : String
  pub kind : String
  pub settings : InputSettings
  pub scene_item_enabled : Bool

pub record SceneItem : Type 0 where
  pub source_name : String
  pub scene_item_id : ℕ

-- The requests. Of an error there is only that it is one: `none`, or `false`. A request that only
-- asks leaves OBS as it is.
pub record Goobs (C V : Type 0) : Type 0 where
  pub dial : String → String → V → Option C × V
  pub disconnect : C → V → V
  pub get_version : C → V → Bool
  pub get_scene_list : C → V → Option (List String)
  pub create_scene : C → String → V → Bool × V
  pub get_input_list : C → V → Option (List String)
  pub create_input : C → CreateInput → V → Bool × V
  pub set_input_settings : C → String → InputSettings → Bool → V → Bool × V
  pub delete_input : C → String → V → Bool × V
  pub get_scene_item_list : C → String → V → Option (List SceneItem)
  pub set_scene_item_enabled : C → String → ℕ → Bool → V → Bool × V
  pub set_input_mute : C → String → Bool → V → Bool × V
  pub set_stream_service_settings : C → String → String → String → V → Bool × V
  pub start_stream : C → V → Bool × V
  pub stop_stream : C → V → Bool × V
  pub get_stream_status : C → V → Option Bool

-- `world` is OBS, which the struct does not own.
pub record ObsController (C V : Type 0) : Type 0 where
  pub addr : String
  pub password : String
  pub client : Option C
  pub connected : Bool
  pub world : V

abbrev pub input_settings : String → InputSettings
input_settings url = record {
  input = url;
  is_local_file = false;
  reconnect_delay_sec = 2;
  buffering_mb = 1;
}

abbrev pub new_input : String → String → CreateInput
new_input scene input = record {
  scene_name = scene;
  input_name = input;
  kind = input_kind;
  settings = input_settings "";
  scene_item_enabled = false;
}

-- The loop of `SetPositionEnabled`: the first item of the input.
unfoldable pub item_of : String → List SceneItem → Option ℕ
item_of name [] = none
item_of name (item ∷ items) =
    if item.source_name == name then some item.scene_item_id else item_of name items

abbrev outcome : Bool → Option Fault
outcome true = none
outcome false = some failed

module _ {C V : Type 0} where
  abbrev pub get_client : ObsController C V → Option C
  get_client o = elim o.client [ none ↦ none | some c ↦ if o.connected then some c else none ]

  abbrev request : (V → Bool × V) → Call (ObsController C V)
  request f o = let (b, v) = f o.world in (outcome b, record o { world = v })

  -- client, err := o.getClient(); if err != nil { return err }
  abbrev with_client : (C → Call (ObsController C V)) → Call (ObsController C V)
  with_client f o = elim (get_client o) [ none ↦ (some failed, o) | some c ↦ f c o ]

  module _ (g : Goobs C V) where
    -- `connectLocked`
    abbrev connected_with : Option C × V → Call (ObsController C V)
    connected_with (none, v) o =
        (some failed, record o { client = none; connected = false; world = v })
    connected_with (some c, v) o = (none, record o { client = some c; connected = true; world = v })

    unfoldable pub connect : Call (ObsController C V)
    connect o = connected_with (g.dial o.addr o.password o.world) o

    abbrev hang_up : ObsController C V → ObsController C V
    hang_up o = elim o.client [ none ↦ o | some c ↦ record o { world = g.disconnect c o.world } ]

    unfoldable pub new_controller : String → String → V → ObsController C V
    new_controller addr password v =
        (connect (record {
          addr = addr;
          password = password;
          client = none;
          connected = false;
          world = v;
        })).1

    unfoldable pub close : ObsController C V → ObsController C V
    close o = hang_up o

    unfoldable pub reconnect : Call (ObsController C V)
    reconnect o = connect (hang_up o)

    -- `healthy`, with what it writes.
    unfoldable pub healthy : ObsController C V → Bool × ObsController C V
    healthy o = elim o.client [
      | none ↦ (false, o)
      | some c ↦
          if g.get_version c o.world then (true, record o { connected = true }) else (false, o)
    ]

    unfoldable pub ensure_scene : String → Call (ObsController C V)
    ensure_scene name = with_client λ c o. elim (g.get_scene_list c o.world) [
      | none ↦ (some failed, o)
      | some names ↦ if contains name names then (none, o) else request (g.create_scene c name) o
    ]

    unfoldable pub find_input : String → ObsController C V → Option Bool
    find_input name o = elim (get_client o) [
      | none ↦ none
      | some c ↦ elim (g.get_input_list c o.world) [
        | none ↦ none
        | some names ↦ some (contains name names)
      ]
    ]

    unfoldable pub create_position_input : String → String → Call (ObsController C V)
    create_position_input scene input = with_client λ c o. elim (find_input input o) [
      | none ↦ (some failed, o)
      | some true ↦ (some failed, o)
      | some false ↦ request (g.create_input c (new_input scene input)) o
    ]

    unfoldable pub update_position_source : String → String → Call (ObsController C V)
    update_position_source input url = with_client λ c o. elim (find_input input o) [
      | none ↦ (some failed, o)
      | some false ↦ (some input_not_found, o)
      | some true ↦ request (g.set_input_settings c input (input_settings url) false) o
    ]

    unfoldable pub remove_input : String → Call (ObsController C V)
    remove_input input = with_client λ c. request (g.delete_input c input)

    unfoldable pub set_position_enabled : String → String → Bool → Call (ObsController C V)
    set_position_enabled scene input b = with_client λ c o.
        elim (g.get_scene_item_list c scene o.world) [
          | none ↦ (some failed, o)
          | some items ↦ elim (item_of input items) [
            | none ↦ (some input_not_found, o)
            | some id ↦ request (g.set_scene_item_enabled c scene id b) o
          ]
        ]

    unfoldable pub set_input_audio_muted : String → Bool → Call (ObsController C V)
    set_input_audio_muted input b = with_client λ c. request (g.set_input_mute c input b)

    -- The stream is started only after its service is set.
    abbrev then_start : C → Option Fault × ObsController C V → Option Fault × ObsController C V
    then_start c (some f, o) = (some f, o)
    then_start c (none, o) = request (g.start_stream c) o

    unfoldable pub start_program_stream : String → Call (ObsController C V)
    start_program_stream url =
        with_client
          λ c o. then_start c (request (g.set_stream_service_settings c "rtmp_custom" url "") o)

    unfoldable pub stop_program_stream : Call (ObsController C V)
    stop_program_stream = with_client λ c. request (g.stop_stream c)

    unfoldable pub is_streaming : ObsController C V → Bool
    is_streaming o = elim (get_client o) [
      | none ↦ false
      | some c ↦ elim (g.get_stream_status c o.world) [ none ↦ false | some b ↦ b ]
    ]

    abbrev pub controller : Controller (ObsController C V)
    controller = record {
      ensure_scene = ensure_scene;
      create_position_input = create_position_input;
      update_position_source = update_position_source;
      set_position_enabled = set_position_enabled;
      set_input_audio_muted = set_input_audio_muted;
      remove_input = remove_input;
      is_connected = λ o. o.connected;
      reconnect = reconnect;
      start_program_stream = start_program_stream;
      stop_program_stream = stop_program_stream;
      is_streaming = is_streaming;
    }
