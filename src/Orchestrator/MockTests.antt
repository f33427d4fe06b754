-- ===== src/Orchestrator/MockTests.antt =====
-- A cut with the mock, and the controller with an OBS in memory.
use mathlib.Core.Option.{some-injective}
use po_c_go_live.Base.{
  ◌≡◌, ◌≢◌, refl, subst, sym, List, ◌⊎◌, ℕ, String, true, false, inl, inr, none, some, [], ◌∷◌,
  arith, eq_iff,
}
use po_c_go_live.Dict.{get, put}
use po_c_go_live.Events.{new_hub}
use po_c_go_live.Obs.{Controller}
use po_c_go_live.Obs.Mock.{Mock, mock, new_mock, create_position_input}
use po_c_go_live.Obs.Client.{SceneItem, controller, item_of}
use po_c_go_live.Obs.Desk.{desk_items, desk_shows, goobs}
use po_c_go_live.Orchestrator.Models.{Position, LiveKind, LiveState, simple_position_id}
use po_c_go_live.Orchestrator.Ids.{Bytes}
use po_c_go_live.Orchestrator.State.{Deps, Sys, ok}
use po_c_go_live.Orchestrator.Positions.{
  position_input_name, ensure_hidden_position, register_hidden,
}
use po_c_go_live.Orchestrator.Live.{to_scene, plan_cut, collect_enabled, cut}
use po_c_go_live.Orchestrator.Shown.{IsFaithful}
use po_c_go_live.Orchestrator.OnMock.{with_mock, shown, IsReady, cut_succeeds}
use po_c_go_live.Orchestrator.OnObs.{AreItems, obs_shows, controller-IsFaithful}

abbrev zero_bytes : Bytes
zero_bytes = record { b0 = 0; b1 = 0; b2 = 0; b3 = 0; b4 = 0; b5 = 0; b6 = 0; b7 = 0 }

abbrev with_obs : {W : Type 0} → Controller W → Deps W
with_obs c = record {
  program_scene = "program";
  media_source_base_url = "rtmp://media";
  obs = c;
  save_positions = λ ps w. (true, w);
  save_scenes = λ scs w. (true, w);
  rand_read = λ w. (zero_bytes, w);
  list_active_streams = λ w. (none, w);
  now = λ w. (0, w);
}

abbrev free : String → Position
free id = record { id = id; name = id; camera_id = ""; is_audio_source = false }

-- Two positions, and a scene with the first in preview.
abbrev begin : Sys Mock
begin = record {
  orch = record {
    cameras = [];
    offline_since = [];
    media_connected = true;
    positions = ("a", free "a") ∷ ("b", free "b") ∷ [];
    scenes = ("s", record { id = "s"; name = "Abertura"; position_ids = "a" ∷ [] }) ∷ [];
    audio_position_id = "";
    live = record {
      preview_kind = LiveKind.scene;
      preview_id = "s";
      live_kind = LiveKind.none;
      live_id = "";
    };
    hidden_ready = false;
  };
  hub = new_hub;
  world = record new_mock {
    inputs = ("pos_a", "") ∷ ("pos_b", "") ∷ [];
    enabled = ("pos_a", false) ∷ ("pos_b", true) ∷ [];
  };
}

abbrev deps : Deps Mock
deps = with_obs mock

abbrev hidden : Sys Mock
hidden = (ensure_hidden_position (with_mock deps) begin).1

planned : (plan_cut hidden.orch).0 ≡ ok (to_scene ("a" ∷ []) "s")
unfolding plan_cut collect_enabled get put ensure_hidden_position register_hidden
planned = refl

one_of :
    (i : String)
    → get i hidden.orch.positions ≢ none
    → ("a" ≡ i) ⊎ (("b" ≡ i) ⊎ (simple_position_id ≡ i))
unfolding get put ensure_hidden_position register_hidden
one_of i n = ground (arith, eq_iff "a" i, eq_iff "b" i, eq_iff simple_position_id i)

abbrev HasInput : String → Type 0
HasInput i = get (position_input_name i) hidden.world.inputs ≢ none

ready : IsReady hidden.orch.positions hidden.world
unfolding get put ensure_hidden_position register_hidden create_position_input position_input_name
ready = (
  λ i n. elim (one_of i n) [
    | inl e ↦ subst HasInput e (λ z. ground arith)
    | inr (inl e) ↦ subst HasInput e (λ z. ground arith)
    | inr (inr e) ↦ subst HasInput e (λ z. ground arith)
  ],
  refl,
)

there : get simple_position_id hidden.orch.positions ≢ none
unfolding get put ensure_hidden_position register_hidden
there e = ground arith

there_b : get "b" hidden.orch.positions ≢ none
unfolding get put ensure_hidden_position register_hidden
there_b e = ground arith

cut_succeeds_example :
    ((l : LiveState) × ((cut (with_mock deps) begin).0 ≡ ok l))
    × (shown (cut (with_mock deps) begin).1.world (position_input_name "b") ≡ false)
cut_succeeds_example =
    cut_succeeds deps (to_scene ("a" ∷ []) "s") begin "b" planned ready there there_b

desk_item :
    (input : String) (id : ℕ)
    → item_of input desk_items ≡ some id
    → ((input ≡ "pos_a") × (id ≡ 1)) ⊎ ((input ≡ "pos_b") × (id ≡ 2))
unfolding item_of
desk_item input id e = ground (arith, eq_iff "pos_a" input, eq_iff "pos_b" input)

listed_item :
    (items : List SceneItem) (input : String) (id : ℕ)
    → some desk_items ≡ some items
    → item_of input items ≡ some id
    → ((input ≡ "pos_a") × (id ≡ 1)) ⊎ ((input ≡ "pos_b") × (id ≡ 2))
listed_item items input id l e =
    desk_item input id
      (subst (λ x. item_of input x ≡ some id) (sym (some-injective desk_items items l)) e)

goobs-AreItems : AreItems goobs "program" desk_shows
goobs-AreItems = record {
  sets = λ c v items input id b l e t. elim (listed_item items input id l e) [
    | inl (p, q) ↦ rw (p, q) refl
    | inr (p, q) ↦ rw (p, q) refl
  ];
  leaves = λ c v items input id b j l e n. elim (listed_item items input id l e) [
    | inl (p, q) ↦ ground (arith, p, q, eq_iff j "pos_a", n)
    | inr (p, q) ↦ ground (arith, p, q, eq_iff j "pos_b", n)
  ];
  mutes = λ c v input b j. refl;
}

controller-IsFaithful_example :
    IsFaithful
      (record (with_obs (controller goobs)) { obs = controller goobs })
      (obs_shows desk_shows)
controller-IsFaithful_example =
    controller-IsFaithful goobs (with_obs (controller goobs)) desk_shows goobs-AreItems
