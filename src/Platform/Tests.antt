-- ===== src/Platform/Tests.antt =====
-- A run of the platforms' service.
use Prim.Native.Char.{Char}
use po_c_go_live.Base.{String, true, false, List, [], ◌∷◌, arith}
use po_c_go_live.Dict.{get}
use po_c_go_live.Platform.Model.{CreateRequest}
use po_c_go_live.Platform.Service.{Deps}
use po_c_go_live.Platform.Rules.{Command, creates, deletes, run, ArePlatforms, run-ArePlatforms}

abbrev same : Char → Char
same c = c

abbrev deps : String → Deps
deps id = record { answers = true; now = 5; random_uuid = λ t. id; in_use = λ p. false }

abbrev request : CreateRequest
request = record { slug = " youtube"; display_name = "YouTube"; ingest_url_template = "rtmp://yt" }

abbrev commands : List Command
commands = creates (deps "1") request ∷ creates (deps "2") request ∷ deletes (deps "3") "1" ∷ []

empty-ArePlatforms : ArePlatforms same []
unfolding get
empty-ArePlatforms = (λ i j a b k p q x y. absurd (ground arith), λ i a p. absurd (ground arith))

run-ArePlatforms_example : ArePlatforms same (run same commands [])
run-ArePlatforms_example = run-ArePlatforms same commands [] empty-ArePlatforms
