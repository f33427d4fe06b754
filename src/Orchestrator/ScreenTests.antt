-- ===== src/Orchestrator/ScreenTests.antt =====
-- A cut with an OBS whose state is the inputs that it shows.
use po_c_go_live.Base.{
  String, ◌≡◌, ◌≢◌, refl, Bool, true, false, none, some, [], ◌∷◌, arith, eq_iff,
}
use po_c_go_live.Dict.{Dict, get, put, get-put, keys}
use po_c_go_live.Events.{new_hub}
use po_c_go_live.Obs.{Controller}
use po_c_go_live.Orchestrator.Models.{Position, LiveKind, LiveState}
use po_c_go_live.Orchestrator.Ids.{Bytes}
use po_c_go_live.Orchestrator.State.{Deps, Sys, ok}
use po_c_go_live.Orchestrator.Positions.{
  position_input_name, ensure_hidden_position, register_hidden,
}
use po_c_go_live.Orchestrator.Visibility.{set_each, apply_exclusive_visibility}
use po_c_go_live.Orchestrator.Live.{
  to_scene, plan_cut, collect_enabled, carry_out, cut_scene, commit_scene, show, cut,
}
use po_c_go_live.Orchestrator.Shown.{IsFaithful, cut-Shows}

abbrev Screen : Type 0
Screen = Dict Bool

abbrev view : Screen → String → Bool
view w i = elim (get i w) [ none ↦ false | some b ↦ b ]

abbrev obs : Controller Screen
obs = record {
  ensure_scene = λ n w. (none, w);
  create_position_input = λ n i w. (none, put i false w);
  update_position_source = λ i u w. (none, w);
  set_position_enabled = λ n i b w. (none, put i b w);
  set_input_audio_muted = λ i b w. (none, w);
  remove_input = λ i w. (none, w);
  is_connected = λ w. true;
  reconnect = λ w. (none, w);
  start_program_stream = λ u w. (none, w);
  stop_program_stream = λ w. (none, w);
  is_streaming = λ w. false;
}

abbrev zero_bytes : Bytes
zero_bytes = record { b0 = 0; b1 = 0; b2 = 0; b3 = 0; b4 = 0; b5 = 0; b6 = 0; b7 = 0 }

abbrev deps : Deps Screen
deps = record {
  program_scene = "program";
  media_source_base_url = "rtmp://media";
  obs = obs;
  save_positions = λ ps w. (true, w);
  save_scenes = λ scs w. (true, w);
  rand_read = λ w. (zero_bytes, w);
  list_active_streams = λ w. (none, w);
  now = λ w. (0, w);
}

deps-IsFaithful : IsFaithful deps view
unfolding get put
deps-IsFaithful = record {
  sets = λ i b w e. ground (arith, get-put i i b w, eq_iff i i);
  leaves = λ i b w j n. ground (arith, get-put i j b w, eq_iff i j);
  mutes = λ i b w j. refl;
}

abbrev free : String → Position
free id = record { id = id; name = id; camera_id = ""; is_audio_source = false }

-- Two positions, the second of them on air, and a scene with the first in preview.
abbrev begin : Sys Screen
begin = record {
  orch = record {
    cameras = [];
    offline_since = [];
    media_connected = true;
    positions = ("a", free "a") ∷ ("b", free "b") ∷ [];
    scenes = ("s", record { id = "s"; name = "Abertura"; position_ids = "a" ∷ [] }) ∷ [];
    audio_position_id = "";
    live = record {
      preview_kind = LiveKind.scene;
      preview_id = "s";
      live_kind = LiveKind.none;
      live_id = "";
    };
    hidden_ready = false;
  };
  hub = new_hub;
  world = ("pos_a", false) ∷ ("pos_b", true) ∷ [];
}

abbrev aired : LiveState
aired = record {
  preview_kind = LiveKind.scene;
  preview_id = "s";
  live_kind = LiveKind.scene;
  live_id = "s";
}

planned : (plan_cut (ensure_hidden_position deps begin).1.orch).0 ≡ ok (to_scene ("a" ∷ []) "s")
unfolding plan_cut collect_enabled get put ensure_hidden_position register_hidden
planned = refl

cut_ok : (cut deps begin).0 ≡ ok aired
unfolding cut plan_cut collect_enabled get put ensure_hidden_position register_hidden carry_out
    cut_scene commit_scene show set_each apply_exclusive_visibility keys
cut_ok = refl

there : get "b" (ensure_hidden_position deps begin).1.orch.positions ≢ none
unfolding get put ensure_hidden_position register_hidden
there e = ground arith

-- The position that was on air is not shown any more.
cut-Shows_example : view (cut deps begin).1.world (position_input_name "b") ≡ false
cut-Shows_example =
    cut-Shows deps view (to_scene ("a" ∷ []) "s") aired begin "b" deps-IsFaithful planned cut_ok
      there
