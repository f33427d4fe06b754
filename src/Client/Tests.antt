-- ===== src/Client/Tests.antt =====
-- Runs of the clients' service.
use po_c_go_live.Base.{
  ◌≡◌, refl, ◌↔◌, ℕ, String, Bool, true, false, Option, none, some, List, [], ◌∷◌, arith,
}
use po_c_go_live.Dict.{get, find}
use po_c_go_live.Database.{ok, insert_unless, insert_row}
use po_c_go_live.Client.Email.{
  Address, matches_email, at_later, is_domain, dot_later, some_plain, all_plain, is_plain, is_at,
  is_dot, matches_email-Address,
}
use po_c_go_live.Client.Model.{
  Client, CreateRequest, UpdateFields, new_client, normalize_name, normalize_email,
}
use po_c_go_live.Client.Service.{
  Table, Deps, row, unless_deleted, create, get_by_id, update, change, with_name, named_other,
}
use po_c_go_live.Client.Valid.{AreClients}
use po_c_go_live.Client.Rules.{Command, creates, updates, run, run-AreClients}
use po_c_go_live.Client.Reads.{create-get_by_id, update-get_by_id}

abbrev deps : String → Deps
deps id = record { answers = true; now = 5001; random_uuid = λ t. id }

abbrev ana : CreateRequest
ana = record { name = " Ana "; email = some "ana@live.tv" }

abbrev rename : UpdateFields
rename = record { name = some "Bia"; email_set = true; email_value = none }

abbrev commands : List Command
commands = creates (deps "1") ana ∷ creates (deps "2") ana ∷ updates (deps "3") "1" rename ∷ []

empty-AreClients : AreClients []
unfolding get
empty-AreClients = (λ i j a b k p q x y. ground arith, λ i a p. absurd (ground arith))

run-AreClients_example : AreClients (run commands [])
run-AreClients_example = run-AreClients commands [] empty-AreClients

matches_email-Address_example : (matches_email "ana@live.tv" ≡ true) ↔ Address "ana@live.tv"
matches_email-Address_example = matches_email-Address "ana@live.tv"

no_dot : matches_email "ana@live" ≡ false
unfolding matches_email at_later is_domain dot_later some_plain all_plain is_plain is_at is_dot
no_dot = refl

abbrev saved : Client
saved = record { name = "Ana"; email = some "ana@live.tv"; created_at = 5001; is_deleted = false }

abbrev renamed : Client
renamed = record { name = "Bia"; email = none; created_at = 5001; is_deleted = false }

created : (create (deps "1") ana []).0 ≡ ok saved
unfolding create new_client normalize_name normalize_email insert_unless insert_row get find
    po_c_go_live.Base.Text.trim_space matches_email at_later is_domain dot_later some_plain
    all_plain is_plain is_at is_dot
created = refl

create-get_by_id_example :
    get_by_id (deps "9") "1" (create (deps "1") ana []).1 ≡ ok (record saved { created_at = 5000 })
create-get_by_id_example = create-get_by_id (deps "1") (deps "9") ana saved [] refl created

abbrev one : Table
one = ("1", saved) ∷ []

updated : (update (deps "9") "1" rename one).0 ≡ ok renamed
unfolding update normalize_name normalize_email change row unless_deleted with_name named_other get
    find po_c_go_live.Base.Text.trim_space
updated = refl

update-get_by_id_example :
    get_by_id (deps "9") "1" (update (deps "9") "1" rename one).1 ≡ ok renamed
update-get_by_id_example =
    update-get_by_id (deps "9") (deps "9") "1" rename renamed one refl updated
