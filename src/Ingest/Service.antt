-- ===== src/Ingest/Service.antt =====
-- `Create`, `GetByID`, `Update` and `Delete` of backend/internal/ingest/service.go.
use po_c_go_live.Base.{
  ℕ, String, Bool, true, false, not, ◌&&◌, Option, none, some, ◌==◌, if◌then◌else◌,
}
use po_c_go_live.Dict.{Dict, get, put, del, find}
use po_c_go_live.Database.{micros, Outcome, ok, err, insert_unless, require}
use po_c_go_live.Database.Listing.{is_text, is_flag, Cursor, list_rows}
use po_c_go_live.Pagination.Page.{Page}
use po_c_go_live.Pagination.Request.{Request}
use po_c_go_live.Ingest.Model.{
  Refusal, not_found, duplicate_url, client_not_found, url_required, database_failed, Urls, Ingest,
  CreateRequest, UpdateRequest, active_or_default, new_ingest, change_url,
}

abbrev pub Table : Type 0
Table = Dict Ingest

-- What the table keeps of a new row.
abbrev pub stored : Ingest → Ingest
stored r = record r { created_at = micros r.created_at }

-- `answers` tells whether the database answers the call, and `client_exists` is `ClientChecker`, where
-- `none` is an error.
pub record Deps : Type 0 where
  pub answers : Bool
  pub now : ℕ
  pub random_uuid : Table → String
  pub client_exists : String → Option Bool

-- client_id = ? AND url = ?
unfoldable pub has_url : String → String → String → Ingest → Bool
has_url client url id r = r.client_id == client && r.url == url

-- client_id = ? AND url = ? AND id <> ?
unfoldable pub other_has_url : String → String → String → String → Ingest → Bool
other_has_url except client url id r = not (id == except) && (r.client_id == client && r.url == url)

unfoldable pub create_row : Deps → Ingest → Table → Outcome Refusal Ingest × Table
create_row d r t =
    require (if d.answers then d.client_exists r.client_id else none) database_failed
      client_not_found
      (insert_unless stored (has_url r.client_id r.url) duplicate_url database_failed
        (d.random_uuid t) r t)
      t

unfoldable pub create :
    Urls → Deps → String → CreateRequest → Table → Outcome Refusal Ingest × Table
create u d client req t =
    elim (new_ingest u client req.url (active_or_default req.is_active) d.now) [
      | err e ↦ (err e, t)
      | ok r ↦ create_row d r t
    ]

unfoldable pub get_by_id : Deps → String → Table → Outcome Refusal Ingest
get_by_id d id t =
    if d.answers
    then elim (get id t) [ none ↦ err not_found | some r ↦ ok r ]
    else err database_failed

-- The new URL and its protocol, with the check that the client has no other ingest of it.
unfoldable pub with_url : Urls → String → Option String → Ingest → Table → Outcome Refusal Ingest
with_url u id none r t = ok r
with_url u id (some raw) r t = elim (change_url u raw r) [
  | err e ↦ err e
  | ok r' ↦ elim (find (other_has_url id r'.client_id r'.url) t) [
    | some other ↦ err duplicate_url
    | none ↦ ok r'
  ]
]

abbrev pub with_active : Option Bool → Ingest → Ingest
with_active none r = r
with_active (some b) r = record r { is_active = b }

-- The transaction of `Update`.
unfoldable pub change : Urls → String → UpdateRequest → Table → Outcome Refusal Ingest × Table
change u id req t = elim (get id t) [
  | none ↦ (err not_found, t)
  | some r ↦ elim (with_url u id req.url r t) [
    | err e ↦ (err e, t)
    | ok r' ↦ (ok (with_active req.is_active r'), put id (with_active req.is_active r') t)
  ]
]

abbrev pub is_empty : UpdateRequest → Bool
is_empty req = elim req.url [
  | some raw ↦ false
  | none ↦ elim req.is_active [ none ↦ true | some b ↦ false ]
]

unfoldable pub update :
    Urls → Deps → String → UpdateRequest → Table → Outcome Refusal Ingest × Table
update u d id req t =
    if is_empty req
    then (err url_required, t)
    else if d.answers
    then change u id req t
    else (err database_failed, t)

unfoldable pub delete : Deps → String → Table → Outcome Refusal (Unit {0}) × Table
delete d id t =
    if d.answers
    then elim (get id t) [ none ↦ (err not_found, t) | some r ↦ (ok tt, del id t) ]
    else (err database_failed, t)

pub record ListFilter : Type 0 where
  pub client_id : Option String
  pub is_active : Option Bool

abbrev pub is_listed : ListFilter → String × Ingest → Bool
is_listed f (id, r) = is_text f.client_id r.client_id && is_flag f.is_active r.is_active

-- The check of the filter's client: `none` is no refusal.
abbrev filter_refusal : Deps → Option String → Option Refusal
filter_refusal d none = none
filter_refusal d (some client) = elim (d.client_exists client) [
  | none ↦ some database_failed
  | some false ↦ some client_not_found
  | some true ↦ none
]

-- `List`. `number` and `encode` are as in Database/Listing.
unfoldable pub list :
    (String → ℕ)
    → (Cursor → String)
    → Deps
    → ListFilter
    → Request Cursor
    → Table
    → Outcome Refusal (Page (String × Ingest))
list number encode d f req t = elim (filter_refusal d f.client_id) [
  | some e ↦ err e
  | none ↦
      if d.answers
      then ok (list_rows number (λ r. r.created_at) encode (is_listed f) req t)
      else err database_failed
]
