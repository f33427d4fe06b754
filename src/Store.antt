-- ===== src/Store.antt =====
-- `FileStore` of backend/internal/positions/positions.go and backend/internal/scenes/scenes.go, which are the
-- same but for what they store: a list as JSON in one file. The files are a map from paths to contents.
pub mod Atomic
mod Tests
use po_c_go_live.Base.{
  String, Bool, true, false, Option, none, some, List, [], ◌∷◌, ◌++◌, if◌then◌else◌,
}
use po_c_go_live.Dict.{Dict, get, put, del}

abbrev pub Files : Type 0
Files = Dict String

-- What the system answers in one `Save`: whether a call succeeds, the name of the temporary file, and what it
-- holds while it is written.
pub record Calls : Type 0 where
  pub makes_dir : Bool
  pub temp : Option String
  pub parts : List String
  pub writes : Bool
  pub closes : Bool
  pub renames : Bool
  pub removes : Bool

-- A file's text as what it stores; a file that there is not has an empty list.
abbrev pub decoded : {A : Type 0} → (String → Option (List A)) → Option String → Option (List A)
decoded decode none = some []
decoded decode (some text) = decode text

-- What `Load` returns: `none` is an error. `readable` tells whether `os.ReadFile` returns the file's text, or
-- that there is no file, and no other error.
unfoldable pub load :
    {A : Type 0} → (String → Option (List A)) → Bool → String → Files → Option (List A)
load decode readable path s = if readable then decoded decode (get path s) else none

-- `os.Rename`
unfoldable pub rename : String → String → Files → Files
rename from to s = elim (get from s) [ none ↦ s | some text ↦ put to text (del from s) ]

-- The deferred `os.Remove`.
unfoldable pub remove_temp : Calls → String → Files → Files
remove_temp c tmp s = if c.removes then del tmp s else s

-- The files while the temporary one is written.
unfoldable pub while_written : String → Files → List String → List Files
while_written tmp s [] = []
while_written tmp s (x ∷ xs) = put tmp x s ∷ while_written tmp s xs

-- The last of them, or the first if nothing was done.
unfoldable pub last_files : Files → List Files → Files
last_files s [] = s
last_files s (x ∷ xs) = last_files x xs

module _ (c : Calls) (path text : String) where
  -- `Save` from `os.CreateTemp` on: whether it succeeds, and the files after each call.
  unfoldable pub rename_over : String → Files → Bool × List Files
  rename_over tmp s =
      let s' = rename tmp path s in
      if c.renames
      then (true, s' ∷ remove_temp c tmp s' ∷ [])
      else (false, remove_temp c tmp s ∷ [])

  unfoldable pub close_temp : String → Files → Bool × List Files
  close_temp tmp s = if c.closes then rename_over tmp s else (false, remove_temp c tmp s ∷ [])

  unfoldable pub write_temp : String → Files → Bool × List Files
  write_temp tmp s =
      let s' = put tmp text s in
      let (done, after) = close_temp tmp s' in
      if c.writes then (done, while_written tmp s c.parts ++ s' ∷ after) else (
        false,
        while_written tmp s c.parts
            ++ remove_temp c tmp (last_files s (while_written tmp s c.parts)) ∷ [],
      )

  abbrev pub with_temp : Option String → Files → Bool × List Files
  with_temp none s = (false, [])
  with_temp (some tmp) s =
      let (done, after) = write_temp tmp (put tmp "" s) in (done, put tmp "" s ∷ after)

  unfoldable pub save_text : Files → Bool × List Files
  save_text s = if c.makes_dir then with_temp c.temp s else (false, [])

abbrev pub save_encoded : Calls → String → Option String → Files → Bool × List Files
save_encoded c path none s = (false, [])
save_encoded c path (some text) s = save_text c path text s

-- `Save`: whether it succeeds, and the files after each call of the system.
unfoldable pub save :
    {A : Type 0} → (List A → Option String) → Calls → String → List A → Files → Bool × List Files
save encode c path xs s = save_encoded c path (encode xs) s
