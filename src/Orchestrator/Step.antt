-- ===== src/Orchestrator/Step.antt =====
-- The writes that the methods of the orchestrator make to its struct, as a step relation.
use po_c_go_live.Base.{
  ℕ, String, ◌≡◌, sym, subst, ◌≢◌, Bool, true, false, none, some, List, arith, ap,
}
use po_c_go_live.Dict.{Dict, get, del}
use po_c_go_live.Orchestrator.Models.{Camera, Scene, is_online, is_simple}
use po_c_go_live.Orchestrator.State.{Orch, ok}
use po_c_go_live.Orchestrator.Positions.{
  register_hidden, add_position, rename_position_to, remove_position, without_position,
}
use po_c_go_live.Orchestrator.Assignment.{
  commit_assign, commit_unassign, commit_audio, commit_audio_internal,
}
use po_c_go_live.Orchestrator.Scenes.{
  check_scene, with_scene, without_scene, rename_scene_to, replace_positions, remove_scene,
}
use po_c_go_live.Orchestrator.Live.{preview_camera, preview_scene, commit_camera, commit_scene}
use po_c_go_live.Orchestrator.Sync.{see_stream, take_offline}

-- The camera is known and online.
abbrev pub online_at : String → Dict Camera → Bool
online_at id m = elim (get id m) [ none ↦ false | some c ↦ is_online c.status ]

pub online_at-some :
    (key id : String) (c : Camera) (m : Dict Camera)
    → get key m ≡ some c
    → is_online c.status ≡ true
    → id ≡ key
    → online_at id m ≡ true
online_at-some key id c m g n e = ground (arith, ap (λ (k : String). get k m) e)

-- One write. Its condition is what the method has checked in front of it. `C` is what is known if
-- `NewID` returns an identifier that a scene has: `Unit` is nothing, and `⊥` that it does not.
pub data Step (C : Type 0) (o o' : Orch) : Type 0 where
  hides : o' ≡ (register_hidden o).1 → Step C o o'
  adds :
      (id name : String)
      → id ≢ ""
      → is_simple id ≡ false
      → o' ≡ (add_position id name o).1
      → Step C o o'
  undoes_add :
      (id name : String)
      → id ≢ ""
      → is_simple id ≡ false
      → o' ≡ without_position id (add_position id name o).1
      → Step C o o'
  renames :
      (id name : String)
      → is_simple id ≡ false
      → o' ≡ (rename_position_to id name o).1
      → Step C o o'
  removes : (id : String) → is_simple id ≡ false → o' ≡ (remove_position id o).1 → Step C o o'
  assigns :
      (id camera_id : String)
      → online_at camera_id o.cameras ≡ true
      → is_simple id ≡ false
      → o' ≡ (commit_assign id camera_id o).1
      → Step C o o'
  unassigns : (id : String) → is_simple id ≡ false → o' ≡ (commit_unassign id o).1 → Step C o o'
  sounds :
      (id : String)
      → is_simple id ≡ false
      → o' ≡ (commit_audio id o.audio_position_id o).1
      → Step C o o'
  sounds_hidden :
      (id : String) → o' ≡ (commit_audio_internal id o.audio_position_id o).1 → Step C o o'
  adds_scene :
      (sc : Scene)
      → (check_scene sc.name sc.position_ids o).0 ≡ ok tt
      → o' ≡ with_scene sc.id sc o
      → Step C o o'
  undoes_scene :
      (sc : Scene)
      → (get sc.id o.scenes ≢ none → C)
      → o' ≡ without_scene sc.id (with_scene sc.id sc o)
      → Step C o o'
  renames_scene : (id name : String) → o' ≡ (rename_scene_to id name o).1 → Step C o o'
  replaces : (id : String) (ids : List String) → o' ≡ (replace_positions id ids o).1 → Step C o o'
  removes_scene : (id : String) → o' ≡ (remove_scene id o).1 → Step C o o'
  previews_camera : (id : String) → o' ≡ (preview_camera id o).1 → Step C o o'
  previews_scene : (id : String) → o' ≡ (preview_scene id o).1 → Step C o o'
  airs_camera :
      (id : String) (c : Camera)
      → get id o.cameras ≡ some c
      → is_online c.status ≡ true
      → o' ≡ (commit_camera c.id o).1
      → Step C o o'
  airs_scene :
      (id : String) (sc : Scene)
      → get id o.scenes ≡ some sc
      → o' ≡ (commit_scene sc.id o).1
      → Step C o o'
  hears : (b : Bool) → o' ≡ record o { media_connected = b } → Step C o o'
  sees :
      (base : String) (now : ℕ) (name : String) → o' ≡ (see_stream base now name o).1 → Step C o o'
  loses :
      (now : ℕ) (id : String) (c : Camera)
      → get id o.cameras ≡ some c
      → o' ≡ (take_offline now id c o).1
      → Step C o o'
  forgets :
      (id : String)
      → online_at id o.cameras ≡ false
      → o' ≡ record o { cameras = del id o.cameras; offline_since = del id o.offline_since }
      → Step C o o'

pub data Steps (C : Type 0) (o : Orch) : Orch → Type 0 where
  here : Steps C o o
  next : {o' o'' : Orch} → Steps C o o' → Step C o' o'' → Steps C o o''

pub still : {C : Type 0} {o o' : Orch} → o' ≡ o → Steps C o o'
still {C} {o} e = subst (λ x. Steps C o x) (sym e) here

pub one : {C : Type 0} {o o' : Orch} → Step C o o' → Steps C o o'
one s = next here s

pub Steps-trans : {C : Type 0} {a b c : Orch} → Steps C a b → Steps C b c → Steps C a c
Steps-trans h here = h
Steps-trans h (next k s) = next (Steps-trans h k) s

-- What every write keeps, every sequence of writes keeps.
pub Steps_induction :
    {C : Type 0} (P : Orch → Type 0)
    → ((o o' : Orch) → Step C o o' → P o → P o')
    → {a b : Orch} → Steps C a b
    → P a
    → P b
Steps_induction P keep here p = p
Steps_induction P keep (next k s) p = keep _ _ s (Steps_induction P keep k p)
