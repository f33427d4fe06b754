-- ===== src/Ingest/Tests.antt =====
-- A run of the ingests' service.
use po_c_go_live.Base.{String, true, false, Option, none, some, List, [], ◌∷◌, arith}
use po_c_go_live.Dict.{get}
use po_c_go_live.Ingest.Model.{Urls, Url, CreateRequest}
use po_c_go_live.Ingest.Service.{Deps}
use po_c_go_live.Ingest.Rules.{Command, creates, updates, run, AreIngests, run-AreIngests}

abbrev parse : String → Option Url
parse text = some (record { scheme = "https"; host = "live.tv"; has_user = false; rest = text })

abbrev urls : Urls
urls = record {
  parse_url = parse;
  url_string = λ u. u.rest;
  unicode_lower = λ c. c;
  parse_error = λ t. "";
  quote = λ t. t;
}

abbrev deps : String → Deps
deps id = record { answers = true; now = 5; random_uuid = λ t. id; client_exists = λ c. some true }

abbrev request : CreateRequest
request = record { url = "https://live.tv/a"; is_active = none }

abbrev commands : List Command
commands =
    creates (deps "1") "c" request
    ∷ creates (deps "2") "c" request
    ∷ updates (deps "3") "1" (record { url = some "https://live.tv/b"; is_active = some false })
    ∷ []

empty-AreIngests : AreIngests urls []
unfolding get
empty-AreIngests = (λ i j a b k p q x y. absurd (ground arith), λ i a p. absurd (ground arith))

run-AreIngests_example : AreIngests urls (run urls commands [])
run-AreIngests_example = run-AreIngests urls commands [] empty-AreIngests
