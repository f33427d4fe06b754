-- ===== src/Orchestrator/Tests.antt =====
-- Runs of the orchestrator with OBS, a media server and stores that always answer, and the
-- theorems on them.
use po_c_go_live.Base.{
  arith, contains, ℕ, suc, String, ◌≡◌, refl, true, false, none, some, List, [], ◌∷◌,
}
use po_c_go_live.Base.Text.{trim_space}
use po_c_go_live.Dict.{IsDistinct, get, put, del, find, keys}
use po_c_go_live.Events.{new_hub}
use po_c_go_live.Obs.{Controller, Call}
use po_c_go_live.Orchestrator.Models.{Position, PositionDef, Scene}
use po_c_go_live.Orchestrator.Ids.{new_id}
use po_c_go_live.Orchestrator.State.{Orch, Deps, Sys}
use po_c_go_live.Orchestrator.Start.{start, load_positions, load_scenes, new_orch}
use po_c_go_live.Orchestrator.Positions.{
  position_input_name, register_hidden, ensure_hidden_position,
}
use po_c_go_live.Orchestrator.Assignment.{
  check_assign, commit_assign, assign_camera, check_audio, commit_audio, move_sound, silence_bumped,
  set_audio_position,
}
use po_c_go_live.Orchestrator.Visibility.{set_each, apply_exclusive_visibility}
use po_c_go_live.Orchestrator.Sync.{
  see_stream, see_streams, age_cameras, reconcile, remove_cameras, silence_all, carry_out,
  sync_with, sync_once,
}
use po_c_go_live.Orchestrator.Live
use po_c_go_live.Orchestrator.Live.{
  preview_scene, set_preview_scene, plan_cut, collect_enabled, commit_scene, show, cut_scene, cut,
}
use po_c_go_live.Orchestrator.Names.{
  scene_named, validate_scene_name, dedupe_position_ids, validate_scene_position_ids,
}
use po_c_go_live.Orchestrator.Queries.{persist_scenes}
use po_c_go_live.Orchestrator.Scenes.{check_scene, create_scene}
use po_c_go_live.Orchestrator.Commands.{
  creates_position, Command, starts, syncs, assigns, sets_audio, creates_scene, previews_scene,
  cuts, execute, run,
}
use po_c_go_live.Orchestrator.Occupancy.{IsOccupied}
use po_c_go_live.Orchestrator.OnAir.{IsOnAir}
use po_c_go_live.Orchestrator.OnAir.Keeping.{AreFresh}
use po_c_go_live.Orchestrator.Models.{online, offline}
use po_c_go_live.Orchestrator.State.{ok}
use po_c_go_live.Orchestrator.Assignment.{clear_camera_from_positions, vacate_first}
use po_c_go_live.Orchestrator.Sync.{Actions, take_offline}
use po_c_go_live.Orchestrator.Step.{online_at}
use po_c_go_live.Orchestrator.Online.{online_at-reconcile}
use po_c_go_live.Orchestrator.Removed.{is_removable, remove_ids-reconcile}
use po_c_go_live.Orchestrator.Naming.{IsNamed}
use po_c_go_live.Orchestrator.Naming.Keeping.{run-IsNamed}
use po_c_go_live.Orchestrator.Naming.Hidden.{IsHidden, run-IsHidden}
use po_c_go_live.Orchestrator.Commands.{renames_position, deletes_position, starts}
use po_c_go_live.Orchestrator.Sound.Keeping.{run-IsSounding}
use po_c_go_live.Orchestrator.Start.{start}
use po_c_go_live.Orchestrator.Positions.{ensure_hidden_position, register_hidden}
use po_c_go_live.Base.{not, ◌&&◌, ◌==◌}
use po_c_go_live.Orchestrator.Enabled.{
  public_ids, collect_enabled-eq-public_ids, IsUnique, dedupe_position_ids-IsUnique,
}
use po_c_go_live.Orchestrator.Fresh.{
  new_orch-IsSounding, stored_ids, new-run-IsOccupied, new-one_audio_source, new-run-IsOnAir,
}

abbrev accepts : Call ℕ
accepts w = (none, w)

abbrev obs : Controller ℕ
obs = record {
  ensure_scene = λ n. accepts;
  create_position_input = λ n i. accepts;
  update_position_source = λ i u. accepts;
  set_position_enabled = λ n i b. accepts;
  set_input_audio_muted = λ i b. accepts;
  remove_input = λ i. accepts;
  is_connected = λ w. true;
  reconnect = accepts;
  start_program_stream = λ u. accepts;
  stop_program_stream = accepts;
  is_streaming = λ w. false;
}

-- The n-th draw ends in the byte n, and two cameras are on.
abbrev deps : Deps ℕ
deps = record {
  program_scene = "program";
  media_source_base_url = "rtmp://media";
  obs = obs;
  save_positions = λ ps w. (true, w);
  save_scenes = λ scs w. (true, w);
  rand_read =
      λ w. (record { b0 = 0; b1 = 0; b2 = 0; b3 = 0; b4 = 0; b5 = 0; b6 = 0; b7 = w }, suc w);
  list_active_streams = λ w. (some ("cam1" ∷ "cam2" ∷ []), w);
  now = λ w. (1000, w);
}

abbrev stored : List PositionDef
stored = record { id = "a"; name = "Palco" } ∷ record { id = "b"; name = "Púlpito" } ∷ []

abbrev stored_scenes : List Scene
stored_scenes = record { id = "s"; name = "Abertura"; position_ids = "a" ∷ "b" ∷ [] } ∷ []

abbrev begin : Sys ℕ
begin = record { orch = new_orch (some stored) (some stored_scenes); hub = new_hub; world = 0 }

-- A camera goes to one position and then to another, the sound follows, and a scene goes on air.
abbrev rehearsal : List Command
rehearsal =
    starts
    ∷ syncs
    ∷ assigns "a" "cam1"
    ∷ sets_audio "a"
    ∷ assigns "b" "cam1"
    ∷ sets_audio "b"
    ∷ previews_scene "s"
    ∷ cuts
    ∷ []

abbrev after : Orch
after = (run deps rehearsal begin).orch

abbrev on_b : Position
on_b = record { id = "b"; name = "Púlpito"; camera_id = "cam1"; is_audio_source = true }

cam1_in_b : get "b" after.positions ≡ some on_b
unfolding run execute new_orch load_positions load_scenes get put del find start
    ensure_hidden_position register_hidden sync_once sync_with reconcile see_streams see_stream
    age_cameras carry_out silence_all remove_cameras assign_camera check_assign commit_assign
    set_audio_position check_audio move_sound commit_audio set_preview_scene preview_scene cut
    plan_cut collect_enabled Live.carry_out cut_scene show apply_exclusive_visibility set_each
    commit_scene position_input_name keys silence_bumped
cam1_in_b = refl

new-run-IsOccupied_example : IsOccupied after
new-run-IsOccupied_example =
    new-run-IsOccupied deps (some stored) (some stored_scenes) rehearsal begin refl

no_empty_id : contains "" (stored_ids (some stored)) ≡ false
unfolding stored_ids
no_empty_id = refl

new-one_audio_source_example : ◌≡◌ {A = String} "b" "b"
new-one_audio_source_example =
    new-one_audio_source deps (some stored) (some stored_scenes) rehearsal begin "b" "b" on_b on_b
      refl no_empty_id cam1_in_b cam1_in_b refl refl

-- A scene is made, one is put in preview, and it goes on air.
abbrev opening : List Command
opening = creates_scene "Fim" ("b" ∷ []) ∷ previews_scene "s" ∷ cuts ∷ []

opening-AreFresh : AreFresh deps opening begin
unfolding AreFresh execute new_orch load_scenes load_positions get put find new_id create_scene
    set_preview_scene preview_scene cut persist_scenes check_scene validate_scene_name
    dedupe_position_ids validate_scene_position_ids trim_space scene_named
opening-AreFresh = (refl, (refl, (refl, tt)))

new-run-IsOnAir_example : IsOnAir (run deps opening begin).orch
new-run-IsOnAir_example =
    new-run-IsOnAir deps (some stored) (some stored_scenes) opening begin refl opening-AreFresh

-- One camera was on, and another has been off for 60 seconds.
abbrev watched : Orch
watched = record (new_orch none none) {
  cameras =
      (
        "cam1",
        record { id = "cam1"; name = "cam1"; source_url = ""; status = online; last_seen_at = 0 },
      )
      ∷ (
        "cam2",
        record { id = "cam2"; name = "cam2"; source_url = ""; status = offline; last_seen_at = 0 },
      )
      ∷ [];
  offline_since = ("cam2", 5) ∷ [];
}

watched-IsDistinct : IsDistinct watched.cameras
unfolding get
watched-IsDistinct = (refl, (refl, tt))

online_at-reconcile_example :
    online_at "cam1" (reconcile "rtmp://media" 60000000005 ("cam3" ∷ []) watched).1.cameras ≡ false
online_at-reconcile_example =
    online_at-reconcile "rtmp://media" 60000000005 ("cam3" ∷ []) "cam1" watched watched-IsDistinct

abbrev actions : Actions
actions = record { remove_ids = "cam2" ∷ []; offline_unassign = []; changed = true }

reconciled : (reconcile "rtmp://media" 60000000005 ("cam3" ∷ []) watched).0 ≡ ok actions
unfolding reconcile see_streams see_stream age_cameras take_offline clear_camera_from_positions
    vacate_first new_orch load_positions get put find
reconciled = refl

remove_ids-reconcile_example :
    true
    ≡ is_removable 60000000005
        ("cam3" ∷ [])
        (get "cam2" watched.offline_since)
        watched.cameras
        "cam2"
remove_ids-reconcile_example =
    remove_ids-reconcile "rtmp://media" 60000000005 ("cam3" ∷ []) "cam2" watched actions
      watched-IsDistinct reconciled

abbrev empty : Sys ℕ
empty = record { orch = new_orch none none; hub = new_hub; world = 0 }

empty-IsNamed : IsNamed empty.orch
unfolding new_orch load_positions load_scenes get
empty-IsNamed = record {
  positions = record { key = λ k p g. ground arith; unique = λ i j p q a b x y e. ground arith };
  scenes = λ i j a b p q e. ground arith;
}

empty_ids : contains "" (stored_ids none) ≡ false
unfolding stored_ids
empty_ids = refl

run-IsNamed_example :
    IsNamed (run deps (creates_position "Palco" ∷ creates_position " Palco" ∷ []) empty).orch
run-IsNamed_example =
    run-IsNamed deps (creates_position "Palco" ∷ creates_position " Palco" ∷ []) empty
      (new_orch-IsSounding none none empty_ids) empty-IsNamed

collect_enabled-eq-public_ids_example :
    collect_enabled ("a" ∷ "__simple__" ∷ "b" ∷ "c" ∷ []) after
    ≡ ok (public_ids ("a" ∷ "__simple__" ∷ "b" ∷ "c" ∷ []) after.positions)
collect_enabled-eq-public_ids_example =
    collect_enabled-eq-public_ids ("a" ∷ "__simple__" ∷ "b" ∷ "c" ∷ []) after
      (new-run-IsOccupied deps (some stored) (some stored_scenes) rehearsal begin refl)

dedupe_position_ids-IsUnique_example :
    IsUnique (dedupe_position_ids ("a" ∷ "" ∷ "b" ∷ "a" ∷ []))
    × ((id : String)
        → contains id (dedupe_position_ids ("a" ∷ "" ∷ "b" ∷ "a" ∷ []))
          ≡ (not (id == "") && contains id ("a" ∷ "" ∷ "b" ∷ "a" ∷ [])))
dedupe_position_ids-IsUnique_example = dedupe_position_ids-IsUnique ("a" ∷ "" ∷ "b" ∷ "a" ∷ [])

-- `Run` has made the hidden position.
abbrev started : Sys ℕ
started = run deps (starts ∷ []) empty

started-IsHidden : IsHidden started.orch
unfolding run execute start ensure_hidden_position register_hidden new_orch load_positions
    load_scenes get put
started-IsHidden = refl

-- It is asked to be renamed and deleted.
abbrev attacks : List Command
attacks = renames_position "__simple__" "Palco" ∷ deletes_position "__simple__" ∷ []

run-IsHidden_example : IsHidden (run deps attacks started).orch
run-IsHidden_example =
    run-IsHidden deps attacks started
      (run-IsSounding deps (starts ∷ []) empty (new_orch-IsSounding none none empty_ids))
      started-IsHidden
