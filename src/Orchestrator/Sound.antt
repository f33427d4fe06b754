-- ===== src/Orchestrator/Sound.antt =====
-- Which position is the audio source: the invariant on `IsAudioSource` and `audioPositionID` in
-- backend/internal/orchestrator/orchestrator.go.
mod Sections
pub mod Keeping
use po_c_go_live.Base.{String, ◌≡◌, true, none, some}
use po_c_go_live.Dict.{Dict, get, IsDistinct}
use po_c_go_live.Orchestrator.Models.{Position}
use po_c_go_live.Orchestrator.State.{Orch}

-- A position that is marked as the source is the one that `audioPositionID` names, which is never
-- the empty text.
pub record IsSounding (o : Orch) : Type 0 where
  pub cameras_distinct : IsDistinct o.cameras
  pub distinct : IsDistinct o.positions
  pub named : get "" o.positions ≡ none
  pub source :
      (i : String) (p : Position)
      → get i o.positions ≡ some p
      → p.is_audio_source ≡ true
      → o.audio_position_id ≡ i
