-- ===== src/Orchestrator/Positions.antt =====
-- `CreatePosition`, `RenamePosition` and `DeletePosition`, and the hidden position, of
-- backend/internal/orchestrator/orchestrator.go.
use Prim.Native.String.{◌++◌}
use po_c_go_live.Base.{String, Bool, true, false, not, none, some, ◌==◌, if◌then◌else◌}
use po_c_go_live.Dict.{get, put, del}
use po_c_go_live.Obs.{Fault}
use po_c_go_live.Orchestrator.Ids.{new_id}
use po_c_go_live.Orchestrator.Models.{
  Position, Err, obs_unreachable, position_not_found, position_name_taken, reserved_position,
  is_simple, simple_position_id,
}
use po_c_go_live.Orchestrator.State.{
  Orch, Deps, ok, err, M, Section, pure, fail, locked, read, ask, ◌>>=◌, ◌>>◌, reject_if, call,
  attempt, attempt_if, found, lift, on_error,
}
use po_c_go_live.Orchestrator.Queries.{persist_positions, publish_positions}
use po_c_go_live.Orchestrator.Names.{
  validate_position_name, position_named, other_position_named, exists,
}

-- `positionInputName`
unfoldable pub position_input_name : String → String
position_input_name id = "pos_" ++ id

abbrev pub unreachable : Fault → Err
unreachable f = obs_unreachable

-- `audioPositionID = ""` if it was this position's.
abbrev pub forget_audio : String → String → String
forget_audio id audio = if audio == id then "" else audio

-- A change of the positions' map alone.
abbrev pub with_position : String → Position → Orch → Orch
with_position id p o = record o { positions = put id p o.positions }

abbrev pub without_position : String → Orch → Orch
without_position id o = record o { positions = del id o.positions }

-- The first locked section of `ensureHiddenPosition`: it is ready if the flag is set and the
-- position is there.
hidden_is_ready : Orch → Bool
hidden_is_ready o =
    if o.hidden_ready
    then elim (get simple_position_id o.positions) [ none ↦ false | some p ↦ true ]
    else false

hidden_position : Position
hidden_position = record {
  id = simple_position_id;
  name = simple_position_id;
  camera_id = "";
  is_audio_source = false;
}

-- The second one.
unfoldable pub register_hidden : Section (Unit {0})
unfolding hidden_position
register_hidden o = elim (get simple_position_id o.positions) [
  | none ↦
      (ok tt, record (with_position simple_position_id hidden_position o) { hidden_ready = true })
  | some p ↦ (ok tt, record o { hidden_ready = true })
]

-- `CreatePosition` under the lock, up to the call of `persistPositionsLocked`.
unfoldable pub add_position : String → String → Section Position
add_position id name o =
    let p : Position = record { id = id; name = name; camera_id = ""; is_audio_source = false } in
    if exists (position_named name) o.positions
    then (err position_name_taken, o)
    else (ok p, with_position id p o)

-- `RenamePosition` under the lock, up to the call of `persistPositionsLocked`; with whether the
-- name changed.
unfoldable pub rename_position_to : String → String → Section (Position × Bool)
rename_position_to id name o = elim (get id o.positions) [
  | none ↦ (err position_not_found, o)
  | some p ↦
      let renamed = record p { name = name } in
      if p.name == name
      then (ok (p, false), o)
      else if exists (other_position_named id name) o.positions
      then (err position_name_taken, o)
      else (ok (renamed, true), with_position id renamed o)
]

-- The last section of `DeletePosition`, up to the call of `persistPositionsLocked`.
unfoldable pub remove_position : String → Section (Unit {0})
remove_position id o = elim (get id o.positions) [
  | none ↦ (err position_not_found, o)
  | some p ↦ (
    ok tt,
    record (without_position id o) { audio_position_id = forget_audio id o.audio_position_id },
  )
]

module _ {W : Type 0} (d : Deps W) where
  unfoldable pub ensure_hidden_position : M W (Unit {0})
  unfolding hidden_is_ready
  ensure_hidden_position = do
    ready ← read hidden_is_ready
    if ready then pure tt else do
      attempt (d.obs.create_position_input d.program_scene (position_input_name simple_position_id))
      locked register_hidden

  -- A failed save takes the new position out again.
  persist_or_undo : String → M W (Unit {0})
  persist_or_undo id =
      on_error (persist_positions d) λ e. do locked (λ o. (ok tt, without_position id o)); fail e

  -- A name that was taken in the meantime takes the new OBS input away again.
  add_or_clean_up : String → String → M W Position
  add_or_clean_up id name =
      on_error (locked (add_position id name))
        λ e. do attempt (d.obs.remove_input (position_input_name id)); fail e

  unfoldable pub create_position : String → M W Position
  unfolding persist_or_undo add_or_clean_up
  create_position name = do
    trimmed ← lift (validate_position_name name)
    taken ← read (λ o. exists (position_named trimmed) o.positions)
    reject_if taken position_name_taken
    bytes ← ask d.rand_read
    let id = new_id bytes
    call (d.obs.create_position_input d.program_scene (position_input_name id)) unreachable
    p ← add_or_clean_up id trimmed
    persist_or_undo id
    publish_positions
    pure p

  unfoldable pub rename_position : String → String → M W Position
  rename_position id new_name = do
    reject_if (is_simple id) reserved_position
    trimmed ← lift (validate_position_name new_name)
    r ← locked (rename_position_to id trimmed)
    if r.1 then (do persist_positions d; publish_positions; pure r.0) else pure r.0

  unfoldable pub delete_position : String → M W (Unit {0})
  delete_position id = do
    reject_if (is_simple id) reserved_position
    p ← locked (λ o. (found (get id o.positions) position_not_found, o))
    attempt_if (not (p.camera_id == ""))
        (d.obs.set_position_enabled d.program_scene (position_input_name id) false)
    attempt_if p.is_audio_source (d.obs.set_input_audio_muted (position_input_name id) true)
    attempt (d.obs.remove_input (position_input_name id))
    locked (remove_position id)
    persist_positions d
    publish_positions
