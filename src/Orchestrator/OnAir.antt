-- ===== src/Orchestrator/OnAir.antt =====
-- What is in preview and on air: the invariant on `LiveState` and the scenes of
-- backend/internal/orchestrator/orchestrator.go.
mod Sections
pub mod Keeping
use po_c_go_live.Base.{String, ◌≡◌, ◌≢◌, none, some}
use po_c_go_live.Dict.{get}
use po_c_go_live.Orchestrator.Models.{Scene, LiveKind}
use po_c_go_live.Orchestrator.State.{Orch}

-- The scenes are stored under their identifiers, and a scene in preview or on air is one of them.
pub record IsOnAir (o : Orch) : Type 0 where
  pub scene_key : (k : String) (sc : Scene) → get k o.scenes ≡ some sc → sc.id ≡ k
  pub live_scene : o.live.live_kind ≡ LiveKind.scene → get o.live.live_id o.scenes ≢ none
  pub preview_scene : o.live.preview_kind ≡ LiveKind.scene → get o.live.preview_id o.scenes ≢ none
