-- ===== src/Orchestrator/Scenes.antt =====
-- `CreateScene`, `RenameScene`, `UpdateScenePositions` and `DeleteScene` of
-- backend/internal/orchestrator/orchestrator.go.
use po_c_go_live.Base.{String, Bool, true, false, ◌&&◌, none, some, List, ◌==◌, if◌then◌else◌}
use po_c_go_live.Dict.{get, put, del}
use po_c_go_live.Orchestrator.Ids.{new_id}
use po_c_go_live.Orchestrator.Models.{
  Scene, LiveKind, LiveState, scene_not_found, scene_name_taken, scene_is_live,
}
use po_c_go_live.Orchestrator.State.{
  Orch, Deps, ok, err, M, Section, pure, fail, locked, read, ask, lift, ◌>>=◌, ◌>>◌, on_error,
  run_if, ignore_error,
}
use po_c_go_live.Orchestrator.Queries.{persist_scenes, publish_scenes, publish_live_state}
use po_c_go_live.Orchestrator.Names.{
  validate_scene_name, dedupe_position_ids, validate_scene_position_ids, scene_named,
  other_scene_named, exists,
}
use po_c_go_live.Orchestrator.Visibility.{apply_exclusive_visibility}

abbrev pub with_scene : String → Scene → Orch → Orch
with_scene id sc o = record o { scenes = put id sc o.scenes }

abbrev pub without_scene : String → Orch → Orch
without_scene id o = record o { scenes = del id o.scenes }

-- The scene `id` is in preview, or on air.
abbrev pub is_scene : LiveKind → Bool
is_scene LiveKind.scene = true
is_scene _ = false

abbrev pub shows : LiveKind → String → String → Bool
shows kind shown id = is_scene kind && shown == id

-- The locked part of `CreateScene`, in front of the new identifier.
unfoldable pub check_scene : String → List String → Section (Unit {0})
check_scene name ids o =
    if exists (scene_named name) o.scenes
    then (err scene_name_taken, o)
    else (validate_scene_position_ids ids o.positions, o)

-- The locked part of `RenameScene`, up to the call of `persistScenesLocked`.
unfoldable pub rename_scene_to : String → String → Section (Scene × Bool)
rename_scene_to id name o = elim (get id o.scenes) [
  | none ↦ (err scene_not_found, o)
  | some sc ↦
      let renamed = record sc { name = name } in
      if sc.name == name
      then (ok (sc, false), o)
      else if exists (other_scene_named id name) o.scenes
      then (err scene_name_taken, o)
      else (ok (renamed, true), with_scene id renamed o)
]

-- The locked part of `UpdateScenePositions`, up to the call of `persistScenesLocked`.
unfoldable pub replace_positions : String → List String → Section Scene
replace_positions id ids o = elim (get id o.scenes) [
  | none ↦ (err scene_not_found, o)
  | some sc ↦
      let replaced = record sc { position_ids = ids } in
      elim (validate_scene_position_ids ids o.positions) [
        | err e ↦ (err e, o)
        | ok u ↦ (ok replaced, with_scene id replaced o)
      ]
]

clear_preview : LiveState → LiveState
clear_preview l = record l { preview_kind = LiveKind.none; preview_id = "" }

-- The locked part of `DeleteScene`, up to the call of `persistScenesLocked`, with whether the
-- preview was cleared.
unfoldable pub remove_scene : String → Section Bool
unfolding clear_preview
remove_scene id o = elim (get id o.scenes) [
  | none ↦ (err scene_not_found, o)
  | some sc ↦
      let l = o.live in
      let previewed = shows l.preview_kind l.preview_id id in
      if shows l.live_kind l.live_id id then (err scene_is_live, o) else (
        ok previewed,
        record (without_scene id o) { live = if previewed then clear_preview l else l },
      )
]

module _ {W : Type 0} (d : Deps W) where
  -- A failed save takes the new scene out again.
  save_or_undo : String → M W (Unit {0})
  save_or_undo id =
      on_error (persist_scenes d) λ e. do locked (λ o. (ok tt, without_scene id o)); fail e

  unfoldable pub create_scene : String → List String → M W Scene
  unfolding save_or_undo
  create_scene name position_ids = do
    trimmed ← lift (validate_scene_name name)
    let ids = dedupe_position_ids position_ids
    locked (check_scene trimmed ids)
    bytes ← ask d.rand_read
    let id = new_id bytes
    let sc : Scene = record { id = id; name = trimmed; position_ids = ids }
    locked (λ o. (ok tt, with_scene id sc o))
    save_or_undo id
    publish_scenes
    pure sc

  unfoldable pub rename_scene : String → String → M W Scene
  rename_scene id new_name = do
    trimmed ← lift (validate_scene_name new_name)
    r ← locked (rename_scene_to id trimmed)
    if r.1 then (do persist_scenes d; publish_scenes; pure r.0) else pure r.0

  abbrev pub finish_update : List String → Scene → Bool → M W Scene
  finish_update ids sc is_live = do
    run_if is_live (ignore_error (apply_exclusive_visibility d ids))
    publish_scenes
    pure sc

  -- What follows the write: the save, and the visibility if the scene is on air.
  unfoldable pub show_update : String → List String → Scene → M W Scene
  show_update id ids sc = do
    persist_scenes d
    is_live ← read (λ o. shows o.live.live_kind o.live.live_id id)
    finish_update ids sc is_live

  unfoldable pub update_scene_positions : String → List String → M W Scene
  update_scene_positions id position_ids = do
    let ids = dedupe_position_ids position_ids
    sc ← locked (replace_positions id ids)
    show_update id ids sc

  unfoldable pub delete_scene : String → M W (Unit {0})
  delete_scene id = do
    preview_cleared ← locked (remove_scene id)
    persist_scenes d
    publish_scenes
    run_if preview_cleared publish_live_state
