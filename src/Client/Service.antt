-- ===== src/Client/Service.antt =====
-- backend/internal/client/service.go. A row that is deleted stays in the table, and no query sees it.
use po_c_go_live.Base.{
  ℕ, String, Bool, true, false, not, ◌&&◌, Option, none, some, ◌==◌, if◌then◌else◌,
}
use po_c_go_live.Dict.{Dict, get, put, find}
use po_c_go_live.Database.{micros, Outcome, ok, err, insert_unless}
use po_c_go_live.Database.Listing.{Cursor, list_rows}
use po_c_go_live.Pagination.Page.{Page}
use po_c_go_live.Pagination.Request.{Request}
use po_c_go_live.Client.Model.{
  Refusal, not_found, duplicate_name, database_failed, Client, CreateRequest, UpdateFields,
  normalize_name, normalize_email, new_client,
}

abbrev pub Table : Type 0
Table = Dict Client

-- What the table keeps of a new row.
abbrev pub stored : Client → Client
stored r = record r { created_at = micros r.created_at }

-- `answers` tells whether the database answers the call: where it does not, its error is returned
-- and nothing is written. `random_uuid` is the key that it gives to a new row.
pub record Deps : Type 0 where
  pub answers : Bool
  pub now : ℕ
  pub random_uuid : Table → String

-- name = ?
unfoldable pub named : String → String → Client → Bool
named name id c = not c.is_deleted && c.name == name

-- name = ? AND id <> ?
unfoldable pub named_other : String → String → String → Client → Bool
named_other except name id c = not (id == except) && (not c.is_deleted && c.name == name)

unfoldable pub unless_deleted : Client → Option Client
unless_deleted c = if c.is_deleted then none else some c

-- First(&c, "id = ?", id)
unfoldable pub row : String → Table → Option Client
unfolding unless_deleted
row id t = elim (get id t) [ none ↦ none | some c ↦ unless_deleted c ]

unfoldable pub create : Deps → CreateRequest → Table → Outcome Refusal Client × Table
create d req t = elim (new_client req.name req.email d.now) [
  | err e ↦ (err e, t)
  | ok c ↦
      if d.answers
      then insert_unless stored (named c.name) duplicate_name database_failed (d.random_uuid t) c t
      else (err database_failed, t)
]

unfoldable pub get_by_id : Deps → String → Table → Outcome Refusal Client
get_by_id d id t =
    if d.answers
    then elim (row id t) [ none ↦ err not_found | some c ↦ ok c ]
    else err database_failed

abbrev pub checked_name : Option String → Outcome Refusal (Option String)
checked_name none = ok none
checked_name (some text) = elim (normalize_name text) [ err e ↦ err e | ok name ↦ ok (some name) ]

abbrev pub checked_email : UpdateFields → Outcome Refusal (Option String)
checked_email f = if f.email_set then normalize_email f.email_value else ok none

-- The new name, with the check that no other client has it.
unfoldable pub with_name : String → Option String → Client → Table → Outcome Refusal Client
with_name id none c t = ok c
with_name id (some name) c t = elim (find (named_other id name) t) [
  | some other ↦ err duplicate_name
  | none ↦ ok (record c { name = name })
]

abbrev pub with_email : Bool → Option String → Client → Client
with_email true email c = record c { email = email }
with_email false email c = c

-- The transaction of `Update`.
unfoldable pub change :
    String → Option String → Bool → Option String → Table → Outcome Refusal Client × Table
change id name email_set email t = elim (row id t) [
  | none ↦ (err not_found, t)
  | some c ↦ elim (with_name id name c t) [
    | err e ↦ (err e, t)
    | ok c' ↦ (ok (with_email email_set email c'), put id (with_email email_set email c') t)
  ]
]

unfoldable pub update : Deps → String → UpdateFields → Table → Outcome Refusal Client × Table
update d id f t = elim (checked_name f.name) [
  | err e ↦ (err e, t)
  | ok name ↦ elim (checked_email f) [
    | err e ↦ (err e, t)
    | ok email ↦ if d.answers then change id name f.email_set email t else (err database_failed, t)
  ]
]

-- `Delete` sets `DeletedAt`.
unfoldable pub delete : Deps → String → Table → Outcome Refusal (Unit {0}) × Table
delete d id t =
    if d.answers
    then elim (row id t) [
      | none ↦ (err not_found, t)
      | some c ↦ (ok tt, put id (record c { is_deleted = true }) t)
    ]
    else (err database_failed, t)

-- `Exists`, where `none` is an error.
unfoldable pub exists : Deps → String → Table → Option Bool
exists d id t = if d.answers then some (elim (row id t) [ none ↦ false | some c ↦ true ]) else none

abbrev pub is_listed : String × Client → Bool
is_listed (id, c) = not c.is_deleted

-- `List`. `number` and `encode` are as in Database/Listing.
unfoldable pub list :
    (String → ℕ)
    → (Cursor → String)
    → Deps
    → Request Cursor
    → Table
    → Outcome Refusal (Page (String × Client))
list number encode d req t =
    if d.answers
    then ok (list_rows number (λ c. c.created_at) encode is_listed req t)
    else err database_failed
