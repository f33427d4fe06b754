-- ===== src/Orchestrator/Sync.antt =====
-- `SyncOnce` of backend/internal/orchestrator/orchestrator.go: one reconciliation of the cameras with
-- the streams that the media server reports.
use Prim.Native.String.{◌++◌}
use po_c_go_live.Base.{
  ℕ, ◌-◌, String, Bool, true, false, not, ◌||◌, Option, none, some, List, [], ◌∷◌, contains, leb,
  if◌then◌else◌,
}
use po_c_go_live.Base.Text.{trim_slashes}
use po_c_go_live.Dict.{Dict, get, put, del}
use po_c_go_live.Orchestrator.Models.{Camera, online, offline, is_online, offline_remove_after}
use po_c_go_live.Orchestrator.State.{
  Orch, Deps, ok, M, Section, pure, locked, read, ask, run_if, ◌>>=◌, ◌>>◌,
}
use po_c_go_live.Orchestrator.Queries.{
  cameras, publish_cameras, publish_positions, publish_status, publish_error,
}
use po_c_go_live.Orchestrator.Assignment.{Unassignment, clear_camera_from_positions, silence}

unfoldable pub new_camera : String → ℕ → String → Camera
new_camera base now name = record {
  id = name;
  name = name;
  source_url = trim_slashes base ++ ("/" ++ name);
  status = online;
  last_seen_at = now;
}

-- The first loop's body: what a reported stream does, with whether a camera appeared or came back.
unfoldable pub see_stream : String → ℕ → String → Orch → Bool × Orch
unfolding new_camera
see_stream base now name o = elim (get name o.cameras) [
  | none ↦ (true, record o { cameras = put name (new_camera base now name) o.cameras })
  | some c ↦
      let seen : Camera = record c { status = online; last_seen_at = now } in
      if is_online c.status then (false, record o { cameras = put name seen o.cameras }) else (
        true,
        record o { cameras = put name seen o.cameras; offline_since = del name o.offline_since },
      )
]

unfoldable pub see_streams : String → ℕ → List String → Orch → Bool × Orch
see_streams base now [] o = (false, o)
see_streams base now (name ∷ names) o =
    let (changed, o') = see_stream base now name o in
    let (later, o'') = see_streams base now names o' in (changed || later, o'')

-- `pendingActions`, with `camsChanged`.
pub record Actions : Type 0 where
  pub remove_ids : List String
  pub offline_unassign : List Unassignment
  pub changed : Bool

abbrev pub no_actions : Actions
no_actions = record { remove_ids = []; offline_unassign = []; changed = false }

abbrev pub add_unassign : Option Unassignment → List Unassignment → List Unassignment
add_unassign none us = us
add_unassign (some u) us = u ∷ us

-- A camera that was online and is not reported goes offline, and leaves its position.
unfoldable pub take_offline : ℕ → String → Camera → Orch → Option Unassignment × Orch
take_offline now id c o = clear_camera_from_positions id (record o {
  cameras = put id (record c { status = offline }) o.cameras;
  offline_since = put id now o.offline_since;
})

unfoldable pub is_overdue : ℕ → Option ℕ → Bool
is_overdue now none = false
is_overdue now (some since) = leb offline_remove_after (now - since)

-- The second loop, over the cameras as they are when it starts: its body changes only the entry
-- that it visits.
unfoldable pub age_cameras : ℕ → List String → Dict Camera → Orch → Actions × Orch
unfolding is_overdue
age_cameras now seen [] o = (no_actions, o)
age_cameras now seen ((id, c) ∷ m) o =
    let skipped = age_cameras now seen m o in
    let (u, o') = take_offline now id c o in
    let (later, o'') = age_cameras now seen m o' in
    if contains id seen
    then skipped
    else if is_online c.status
    then (
      record {
        remove_ids = later.remove_ids;
        offline_unassign = add_unassign u later.offline_unassign;
        changed = true;
      },
      o'',
    )
    else if is_overdue now (get id o.offline_since)
    then (record skipped.0 { remove_ids = id ∷ skipped.0.remove_ids }, skipped.1)
    else skipped

-- The locked part of a reconciliation.
unfoldable pub reconcile : String → ℕ → List String → Section Actions
reconcile base now names o =
    let (appeared, o') = see_streams base now names (record o { media_connected = true }) in
    let (actions, o'') = age_cameras now names o'.cameras o' in
    (ok (record actions { changed = appeared || actions.changed }), o'')

unfoldable pub remove_cameras : List String → Orch → Orch
remove_cameras [] o = o
remove_cameras (id ∷ ids) o =
    remove_cameras ids
      (record o { cameras = del id o.cameras; offline_since = del id o.offline_since })

-- The locked part when the media server does not answer, with whether it did before.
unfoldable pub lose_media : Section Bool
lose_media o = (ok o.media_connected, record o { media_connected = false })

abbrev is_empty {ℓ} : {A : Type ℓ} → List A → Bool
is_empty [] = true
is_empty (x ∷ xs) = false

module _ {W : Type 0} (d : Deps W) where
  unfoldable pub silence_all : List Unassignment → M W (Unit {0})
  silence_all [] = pure tt
  silence_all (u ∷ us) = silence d u >> silence_all us

  -- What follows the locked part.
  unfoldable pub carry_out : Actions → M W (Unit {0})
  carry_out actions = do
    silence_all actions.offline_unassign
    locked (λ o. (ok tt, remove_cameras actions.remove_ids o))
    run_if (not (is_empty actions.remove_ids) || actions.changed) publish_cameras
    run_if (not (is_empty actions.offline_unassign)) (publish_positions >> publish_status d)

  unfoldable pub sync_with : Option (List String) → M W (Unit {0})
  sync_with none = do
    was_connected ← locked lose_media
    run_if was_connected
        (publish_error "Não foi possível conectar ao servidor de mídia." >> publish_status d)
  sync_with (some names) = do
    now ← ask d.now
    actions ← locked (reconcile d.media_source_base_url now names)
    carry_out actions

  unfoldable pub sync_once : M W (List Camera)
  sync_once = do streams ← ask d.list_active_streams; sync_with streams; read cameras
