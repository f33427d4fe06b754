-- ===== src/Orchestrator/Start.antt =====
-- `New` and the start of `Run` of backend/internal/orchestrator/orchestrator.go.
use po_c_go_live.Base.{false, Option, none, some, List, [], ◌∷◌, if◌then◌else◌}
use po_c_go_live.Dict.{Dict, put}
use po_c_go_live.Orchestrator.Models.{Position, PositionDef, Scene, LiveKind, is_simple}
use po_c_go_live.Orchestrator.State.{Orch, Deps, M, ◌>>◌, attempt, ignore_error}
use po_c_go_live.Orchestrator.Positions.{ensure_hidden_position}

-- The loop over the positions that the store returned.
unfoldable pub load_positions : List PositionDef → Dict Position → Dict Position
load_positions [] m = m
load_positions (p ∷ ps) m =
    let q : Position = record {
      id = p.id;
      name = p.name;
      camera_id = "";
      is_audio_source = false;
    } in
    load_positions ps (if is_simple p.id then m else put p.id q m)

-- The loop over the scenes.
unfoldable pub load_scenes : List Scene → Dict Scene → Dict Scene
load_scenes [] m = m
load_scenes (sc ∷ scs) m = load_scenes scs (put sc.id sc m)

abbrev loaded {ℓ} : {A : Type ℓ} → Option (List A) → List A
loaded none = []
loaded (some xs) = xs

-- `New`, from what the two stores' `Load` returned: `none` is an error.
unfoldable pub new_orch : Option (List PositionDef) → Option (List Scene) → Orch
new_orch positions scenes = record {
  cameras = [];
  offline_since = [];
  media_connected = false;
  positions = load_positions (loaded positions) [];
  scenes = load_scenes (loaded scenes) [];
  audio_position_id = "";
  live = record {
    preview_kind = LiveKind.none;
    preview_id = "";
    live_kind = LiveKind.none;
    live_id = "";
  };
  hidden_ready = false;
}

-- What `Run` does before its loop.
unfoldable pub start : {W : Type 0} → Deps W → M W (Unit {0})
start d = do attempt (d.obs.ensure_scene d.program_scene); ignore_error (ensure_hidden_position d)
