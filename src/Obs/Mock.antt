-- ===== src/Obs/Mock.antt =====
-- backend/internal/obs/obsmock/obsmock.go: the `Controller` in memory.
use po_c_go_live.Base.{ℕ, ◌+◌, String, Bool, true, false, Option, none, some, [], if◌then◌else◌}
use po_c_go_live.Dict.{Dict, get, put, del}
use po_c_go_live.Obs.{Fault, input_not_found, failed, Call, Controller}

pub record Mock : Type 0 where
  pub scenes : Dict Bool
  pub inputs : Dict String
  pub enabled : Dict Bool
  pub muted : Dict Bool
  pub connected : Bool
  pub reconnect_calls : ℕ
  pub reconnect_err : Option Fault
  pub streaming : Bool
  pub last_stream_url : String
  pub start_program_stream_calls : ℕ
  pub stop_program_stream_calls : ℕ
  pub create_position_input_err : Option Fault
  pub set_position_enabled_err : Option Fault
  pub set_input_audio_muted_err : Option Fault
  pub start_program_stream_err : Option Fault
  pub stop_program_stream_err : Option Fault

-- `New`
abbrev pub new_mock : Mock
new_mock = record {
  scenes = [];
  inputs = [];
  enabled = [];
  muted = [];
  connected = true;
  reconnect_calls = 0;
  reconnect_err = none;
  streaming = false;
  last_stream_url = "";
  start_program_stream_calls = 0;
  stop_program_stream_calls = 0;
  create_position_input_err = none;
  set_position_enabled_err = none;
  set_input_audio_muted_err = none;
  start_program_stream_err = none;
  stop_program_stream_err = none;
}

-- if m.Err != nil { return m.Err }
abbrev or_fault : Option Fault → Call Mock → Call Mock
or_fault (some f) next m = (some f, m)
or_fault none next m = next m

unfoldable pub ensure_scene : String → Call Mock
ensure_scene name m = (none, record m { scenes = put name true m.scenes })

unfoldable pub create_position_input : String → String → Call Mock
create_position_input scene input m =
    or_fault m.create_position_input_err
      (λ m. elim (get input m.inputs) [
        | some url ↦ (some failed, m)
        | none ↦
            (none, record m { inputs = put input "" m.inputs; enabled = put input false m.enabled })
      ])
      m

unfoldable pub update_position_source : String → String → Call Mock
update_position_source input url m = elim (get input m.inputs) [
  | none ↦ (some input_not_found, m)
  | some old ↦ (none, record m { inputs = put input url m.inputs })
]

unfoldable pub set_position_enabled : String → String → Bool → Call Mock
set_position_enabled scene input b m =
    or_fault m.set_position_enabled_err
      (λ m. elim (get input m.inputs) [
        | none ↦ (some input_not_found, m)
        | some url ↦ (none, record m { enabled = put input b m.enabled })
      ])
      m

unfoldable pub set_input_audio_muted : String → Bool → Call Mock
set_input_audio_muted input b m =
    or_fault m.set_input_audio_muted_err (λ m. (none, record m { muted = put input b m.muted })) m

unfoldable pub remove_input : String → Call Mock
remove_input input m = (
  none,
  record m {
    inputs = del input m.inputs;
    enabled = del input m.enabled;
    muted = del input m.muted;
  },
)

abbrev connect_unless : Option Fault → Mock → Mock
connect_unless none m = record m { connected = true }
connect_unless (some f) m = m

unfoldable pub reconnect : Call Mock
reconnect m = (
  m.reconnect_err,
  connect_unless m.reconnect_err (record m { reconnect_calls = m.reconnect_calls + 1 }),
)

-- Fails while the mock is not connected, and sets `Streaming` otherwise.
abbrev stream_if_connected : Bool → Call Mock
stream_if_connected b m =
    if m.connected then (none, record m { streaming = b }) else (some failed, m)

unfoldable pub start_program_stream : String → Call Mock
start_program_stream url m =
    or_fault m.start_program_stream_err (stream_if_connected true) (record m {
      start_program_stream_calls = m.start_program_stream_calls + 1;
      last_stream_url = url;
    })

unfoldable pub stop_program_stream : Call Mock
stop_program_stream m =
    or_fault m.stop_program_stream_err (stream_if_connected false)
      (record m { stop_program_stream_calls = m.stop_program_stream_calls + 1 })

abbrev pub mock : Controller Mock
mock = record {
  ensure_scene = ensure_scene;
  create_position_input = create_position_input;
  update_position_source = update_position_source;
  set_position_enabled = set_position_enabled;
  set_input_audio_muted = set_input_audio_muted;
  remove_input = remove_input;
  is_connected = λ m. m.connected;
  reconnect = reconnect;
  start_program_stream = start_program_stream;
  stop_program_stream = stop_program_stream;
  is_streaming = λ m. m.streaming;
}
