-- ===== src/Orchestrator/Names.antt =====
-- The validation of names and of position lists in
-- backend/internal/orchestrator/orchestrator.go.
use Prim.Native.String.{count}
use po_c_go_live.Base.{
  String, Bool, true, false, ◌&&◌, not, none, some, List, [], ◌∷◌, ltb, contains, ◌==◌,
  if◌then◌else◌,
}
use po_c_go_live.Base.Text.{trim_space}
use po_c_go_live.Dict.{Dict, get, find}
use po_c_go_live.Orchestrator.Models.{
  Position, Scene, position_name_empty, position_name_too_long, scene_name_required,
  reserved_position, position_not_found, is_simple, max_position_name_length,
}
use po_c_go_live.Orchestrator.State.{Result, ok, err}

-- `utf8.RuneCountInString` counts characters.
unfoldable pub validate_position_name : String → Result String
validate_position_name name =
    let trimmed = trim_space name in
    if trimmed == ""
    then err position_name_empty
    else if ltb max_position_name_length (count trimmed)
    then err position_name_too_long
    else ok trimmed

unfoldable pub validate_scene_name : String → Result String
validate_scene_name name =
    let trimmed = trim_space name in if trimmed == "" then err scene_name_required else ok trimmed

-- The loop of `dedupePositionIDs`, with the set `seen` as the list of its members.
unfoldable pub dedupe_from : List String → List String → List String
dedupe_from seen [] = []
dedupe_from seen (id ∷ ids) =
    let skipped = dedupe_from seen ids in
    let kept = id ∷ dedupe_from (id ∷ seen) ids in
    if id == "" then skipped else if contains id seen then skipped else kept

unfoldable pub dedupe_position_ids : List String → List String
unfolding dedupe_from
dedupe_position_ids ids = dedupe_from [] ids

unfoldable pub validate_scene_position_ids : List String → Dict Position → Result (Unit {0})
validate_scene_position_ids [] m = ok tt
validate_scene_position_ids (id ∷ ids) m =
    let rest = validate_scene_position_ids ids m in
    if is_simple id
    then err reserved_position
    else elim (get id m) [ none ↦ err position_not_found | some p ↦ rest ]

-- Another public position than `except` has the name. `CreatePosition` tests the `ID` field of an
-- entry against the reserved one, and `RenamePosition` its key.
unfoldable pub position_named : String → String → Position → Bool
position_named name id p = not (is_simple p.id) && p.name == name

unfoldable pub other_position_named : String → String → String → Position → Bool
other_position_named except name id p = not (is_simple id) && not (id == except) && p.name == name

unfoldable pub scene_named : String → String → Scene → Bool
scene_named name id sc = sc.name == name

unfoldable pub other_scene_named : String → String → String → Scene → Bool
other_scene_named except name id sc = not (id == except) && sc.name == name

abbrev pub exists {ℓ} : {V : Type ℓ} → (String → V → Bool) → Dict V → Bool
exists p m = elim (find p m) [ none ↦ false | some e ↦ true ]
