-- ===== src/LiveId/Tests.antt =====
-- A run on the table of live identifiers.
use po_c_go_live.Base.{String, true, none, some, List, [], ◌∷◌, arith}
use po_c_go_live.Dict.{get}
use po_c_go_live.LiveId.Model.{CreateRequest}
use po_c_go_live.LiveId.Service.{Table, Deps}
use po_c_go_live.LiveId.Unique.{Command, creates, deletes, run, IsUnique, run-IsUnique}

abbrev key_of : Table → String
key_of [] = "1"
key_of (row ∷ rows) = "2"

abbrev deps : Deps
deps = record {
  answers = true;
  client_exists = λ c. some true;
  platform_exists = λ p. some true;
  random_uuid = key_of;
  now = 7;
}

abbrev youtube : String → CreateRequest
youtube live = record { platform_id = "y"; live_id = live; stream_key = ""; is_active = none }

abbrev commands : List Command
commands =
    creates deps "c" (youtube "abc")
    ∷ creates deps "c" (youtube " abc")
    ∷ creates deps "c" (youtube "xyz")
    ∷ deletes deps "1"
    ∷ []

empty-IsUnique : IsUnique []
unfolding get
empty-IsUnique i j a b p q e = ground arith

run-IsUnique_example : IsUnique (run commands [])
run-IsUnique_example = run-IsUnique commands [] empty-IsUnique
