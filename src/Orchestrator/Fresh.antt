-- ===== src/Orchestrator/Fresh.antt =====
-- A new orchestrator: what `New` of backend/internal/orchestrator/orchestrator.go establishes, and
-- what every run from there keeps.
use po_c_go_live.Base.{
  String, if_intro, contains, map, ◌≡◌, refl, true, false, Option, none, some, List, [], ◌∷◌, arith,
  eq_iff,
}
use po_c_go_live.Dict.{Dict, get, put, get-put, put-IsDistinct, IsDistinct}
use po_c_go_live.Orchestrator.Models.{Position, PositionDef, Scene, is_simple}
use po_c_go_live.Orchestrator.State.{Deps, Sys}
use po_c_go_live.Orchestrator.Start.{load_positions, load_scenes, new_orch}
use po_c_go_live.Orchestrator.Occupancy.{IsOccupied}
use po_c_go_live.Orchestrator.Sound.{IsSounding}
use po_c_go_live.Orchestrator.OnAir.{IsOnAir}
use po_c_go_live.Orchestrator.Commands.{Command, run}
use po_c_go_live.Orchestrator.Occupancy.Keeping.{run-IsOccupied}
use po_c_go_live.Orchestrator.Sound.Keeping.{one_audio_source}
use po_c_go_live.Orchestrator.OnAir.Keeping.{AreFresh, run-IsOnAir}

-- What the positions are after the load: each is free and silent.
record IsLoaded (m : Dict Position) : Type 0 where
  distinct : IsDistinct m
  free : (i : String) (p : Position) → get i m ≡ some p → p.camera_id ≡ ""
  silent : (i : String) (p : Position) → get i m ≡ some p → p.is_audio_source ≡ false

abbrev loaded_position : PositionDef → Position
loaded_position p = record { id = p.id; name = p.name; camera_id = ""; is_audio_source = false }

put-IsLoaded :
    (id name : String) (m : Dict Position)
    → IsLoaded m
    → IsLoaded (put id (loaded_position (record { id = id; name = name })) m)
put-IsLoaded id name m h = record {
  distinct = put-IsDistinct id _ m h.distinct;
  free = λ i p g.
      ground
        (arith, get-put id i (loaded_position (record { id = id; name = name })) m, h.free i p);
  silent = λ i p g.
      ground
        (arith, get-put id i (loaded_position (record { id = id; name = name })) m, h.silent i p);
}

load_positions-IsLoaded :
    (ps : List PositionDef) (m : Dict Position) → IsLoaded m → IsLoaded (load_positions ps m)
unfolding load_positions
load_positions-IsLoaded [] m h = h
load_positions-IsLoaded (p ∷ ps) m h =
    load_positions-IsLoaded ps _
      (if_intro IsLoaded (is_simple p.id) h (put-IsLoaded p.id p.name m h))

load_positions_named :
    (ps : List PositionDef) (m : Dict Position)
    → contains "" (map (λ p. p.id) ps) ≡ false
    → get "" m ≡ none
    → get "" (load_positions ps m) ≡ none
unfolding load_positions
load_positions_named [] m n h = h
load_positions_named (p ∷ ps) m n h = load_positions_named ps _ (ground arith) (
    if_intro (λ x. get "" x ≡ none) (is_simple p.id) {x = m} {y = put p.id (loaded_position p) m} h
      (ground (arith, get-put p.id "" (loaded_position p) m, eq_iff p.id "", eq_iff "" p.id)))

load_scenes_key :
    (scs : List Scene) (m : Dict Scene)
    → ((k : String) (sc : Scene) → get k m ≡ some sc → sc.id ≡ k)
    → (k : String) (sc : Scene) → get k (load_scenes scs m) ≡ some sc
    → sc.id ≡ k
unfolding load_scenes
load_scenes_key [] m h = h
load_scenes_key (x ∷ scs) m h =
    load_scenes_key scs _ λ k sc g. ground (arith, get-put x.id k x m, eq_iff x.id k, h k sc)

new_orch-IsLoaded :
    (ps : Option (List PositionDef)) (scs : Option (List Scene))
    → IsLoaded (new_orch ps scs).positions
unfolding new_orch get
new_orch-IsLoaded ps scs =
    load_positions-IsLoaded _ []
      (record { distinct = tt; free = λ i p g. ground arith; silent = λ i p g. ground arith })

new_orch-IsOccupied :
    (ps : Option (List PositionDef)) (scs : Option (List Scene)) → IsOccupied (new_orch ps scs)
unfolding get new_orch
new_orch-IsOccupied ps scs =
    let l = new_orch-IsLoaded ps scs in
    record {
      cameras_distinct = tt;
      camera_key = λ k c g. ground arith;
      positions_once = record {
        distinct = l.distinct;
        once = λ i j p q a b e n. absurd (n (l.free i p a));
      };
      holds_online = λ i p g n. absurd (n (l.free i p g));
    }

-- The identifiers that the position store returned.
unfoldable pub stored_ids : Option (List PositionDef) → List String
stored_ids none = []
stored_ids (some ps) = map (λ p. p.id) ps

new_orch_named :
    (ps : Option (List PositionDef)) (scs : Option (List Scene))
    → contains "" (stored_ids ps) ≡ false
    → get "" (new_orch ps scs).positions ≡ none
unfolding new_orch stored_ids get
new_orch_named none scs h = load_positions_named [] [] refl refl
new_orch_named (some ps) scs h = load_positions_named ps [] h refl

pub new_orch-IsSounding :
    (ps : Option (List PositionDef)) (scs : Option (List Scene))
    → contains "" (stored_ids ps) ≡ false
    → IsSounding (new_orch ps scs)
new_orch-IsSounding ps scs h =
    let l = new_orch-IsLoaded ps scs in
    record {
      cameras_distinct = (new_orch-IsOccupied ps scs).cameras_distinct;
      distinct = l.distinct;
      named = new_orch_named ps scs h;
      source = λ i p g e. absurd (ground (arith, l.silent i p g));
    }

new_orch-IsOnAir :
    (ps : Option (List PositionDef)) (scs : Option (List Scene)) → IsOnAir (new_orch ps scs)
unfolding new_orch get
new_orch-IsOnAir ps scs = record {
  scene_key = load_scenes_key _ [] (λ k sc g. ground arith);
  live_scene = λ g. ground arith;
  preview_scene = λ g. ground arith;
}

module _ {W : Type 0} (d : Deps W) where
  -- From `New` on, whatever the stores returned, whatever is asked and whatever the collaborators
  -- answer: no camera is ever in two positions, and a position holds only a camera that is known and
  -- online.
  pub new-run-IsOccupied :
      (ps : Option (List PositionDef)) (scs : Option (List Scene)) (cs : List Command) (s : Sys W)
      → s.orch ≡ new_orch ps scs
      → IsOccupied (run d cs s).orch
  new-run-IsOccupied ps scs cs s e = run-IsOccupied d cs s (rw e (new_orch-IsOccupied ps scs))

  -- From `New` on, if the position store returned no empty identifier: whatever is asked and whatever
  -- the collaborators answer, at most one position is marked as the audio source.
  pub new-one_audio_source :
      (ps : Option (List PositionDef)) (scs : Option (List Scene)) (cs : List Command) (s : Sys W)
      (i j : String) (p q : Position)
      → s.orch ≡ new_orch ps scs
      → contains "" (stored_ids ps) ≡ false
      → get i (run d cs s).orch.positions ≡ some p
      → get j (run d cs s).orch.positions ≡ some q
      → p.is_audio_source ≡ true
      → q.is_audio_source ≡ true
      → i ≡ j
  new-one_audio_source ps scs cs s i j p q e n a b x y =
      (one_audio_source d cs s i j p q (rw e (new_orch-IsSounding ps scs n)) a b x y).0

  -- From `New` on, if `NewID` never returns an identifier that a scene has: whatever is asked and
  -- whatever the collaborators answer, a scene that is on air or in preview is one of the scenes.
  pub new-run-IsOnAir :
      (ps : Option (List PositionDef)) (scs : Option (List Scene)) (cs : List Command) (s : Sys W)
      → s.orch ≡ new_orch ps scs
      → AreFresh d cs s
      → IsOnAir (run d cs s).orch
  new-run-IsOnAir ps scs cs s e f =
      run-IsOnAir d cs s (rw e (new_orch-IsOccupied ps scs)) (rw e (new_orch-IsOnAir ps scs)) f
