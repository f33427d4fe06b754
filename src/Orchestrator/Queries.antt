-- ===== src/Orchestrator/Queries.antt =====
-- The snapshots, the status, the two persist functions and the publish functions of
-- backend/internal/orchestrator/orchestrator.go.
use po_c_go_live.Base.{
  String, Bool, true, false, not, ◌||◌, List, [], ◌∷◌, map, ◌==◌, if◌then◌else◌,
}
use po_c_go_live.Base.Sort.{sort_by}
use po_c_go_live.Dict.{Dict}
use po_c_go_live.Orchestrator.Models.{
  Camera, Position, Scene, LiveKind, SystemStatus, PositionDef, store_failed, is_simple,
  cameras_updated, system_status, positions_updated, scenes_updated, live_updated, error,
}
use po_c_go_live.Orchestrator.State.{Orch, Deps, Sys, M, ok, err, publish_event}

values {ℓ} : {A : Type ℓ} → Dict A → List A
values [] = []
values ((k, v) ∷ m) = v ∷ values m

-- `for _, p := range … { if p.ID == simplePositionID { continue }; … }`
public : List Position → List Position
public [] = []
public (p ∷ ps) = let rest = public ps in if is_simple p.id then rest else p ∷ rest

unfoldable pub cameras : Orch → List Camera
unfolding values
cameras o = sort_by (λ c. c.id) (values o.cameras)

unfoldable pub positions : Orch → List Position
unfolding values public
positions o = sort_by (λ p. p.id) (public (values o.positions))

unfoldable pub scenes : Orch → List Scene
unfolding values
scenes o = sort_by (λ s. s.id) (values o.scenes)

any_occupied : List Position → Bool
any_occupied [] = false
any_occupied (p ∷ ps) = if p.camera_id == "" then any_occupied ps else true

abbrev pub is_none : LiveKind → Bool
is_none LiveKind.none = true
is_none _ = false

module _ {W : Type 0} (d : Deps W) where
  unfoldable pub status : Sys W → SystemStatus
  unfolding any_occupied public values
  status s = record {
    obs_connected = d.obs.is_connected s.world;
    media_server_connected = s.orch.media_connected;
    streaming =
        any_occupied (public (values s.orch.positions)) || not (is_none s.orch.live.live_kind);
    active_scene_name = d.program_scene;
  }

  abbrev definition : Position → PositionDef
  definition p = record { id = p.id; name = p.name }

  -- `persistPositionsLocked`
  unfoldable pub persist_positions : M W (Unit {0})
  unfolding public values
  persist_positions s =
      let (saved, w) =
        d.save_positions (sort_by (λ p. p.id) (map definition (public (values s.orch.positions))))
          s.world in
      (if saved then ok tt else err store_failed, record s { world = w })

  -- `persistScenesLocked`
  unfoldable pub persist_scenes : M W (Unit {0})
  unfolding values
  persist_scenes s =
      let (saved, w) = d.save_scenes (sort_by (λ c. c.id) (values s.orch.scenes)) s.world in
      (if saved then ok tt else err store_failed, record s { world = w })

  abbrev pub publish_status : M W (Unit {0})
  publish_status = publish_event (λ s. system_status (status s))

module _ {W : Type 0} where
  abbrev pub publish_cameras : M W (Unit {0})
  publish_cameras = publish_event (λ s. cameras_updated (cameras s.orch))

  abbrev pub publish_positions : M W (Unit {0})
  publish_positions = publish_event (λ s. positions_updated (positions s.orch))

  abbrev pub publish_scenes : M W (Unit {0})
  publish_scenes = publish_event (λ s. scenes_updated (scenes s.orch))

  abbrev pub publish_live_state : M W (Unit {0})
  publish_live_state = publish_event (λ s. live_updated s.orch.live)

  abbrev pub publish_error : String → M W (Unit {0})
  publish_error message = publish_event (λ s. error message)
