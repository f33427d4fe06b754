-- ===== src/Platform/Service.antt =====
-- backend/internal/streamplatform/service.go.
use Prim.Native.Char.{Char}
use po_c_go_live.Base.{
  ℕ, String, Bool, true, false, not, ◌&&◌, Option, none, some, ◌==◌, if◌then◌else◌,
}
use po_c_go_live.Base.Text.{trim_space}
use po_c_go_live.Dict.{Dict, get, put, del, find}
use po_c_go_live.Database.{micros, Outcome, ok, err, insert_unless}
use po_c_go_live.Database.Listing.{Cursor, list_rows}
use po_c_go_live.Pagination.Page.{Page}
use po_c_go_live.Pagination.Request.{Request}
use po_c_go_live.Platform.Model.{
  Refusal, not_found, duplicate_slug, platform_in_use, database_failed, Platform, CreateRequest,
  UpdateRequest, checked_slug, checked_display_name, new_platform,
}

abbrev pub Table : Type 0
Table = Dict Platform

-- What the table keeps of a new row.
abbrev pub stored : Platform → Platform
stored r = record r { created_at = micros r.created_at }

-- `answers` tells whether the database answers the call, and `in_use` whether its foreign key keeps the
-- platform, as a live identifier refers to it.
pub record Deps : Type 0 where
  pub answers : Bool
  pub now : ℕ
  pub random_uuid : Table → String
  pub in_use : String → Bool

-- slug = ?
unfoldable pub has_slug : String → String → Platform → Bool
has_slug slug id p = p.slug == slug

-- slug = ? AND id <> ?
unfoldable pub other_has_slug : String → String → String → Platform → Bool
other_has_slug except slug id p = not (id == except) && p.slug == slug

unfoldable pub get_by_id : Deps → String → Table → Outcome Refusal Platform
get_by_id d id t =
    if d.answers
    then elim (get id t) [ none ↦ err not_found | some p ↦ ok p ]
    else err database_failed

unfoldable pub with_display_name : Option String → Platform → Outcome Refusal Platform
with_display_name none p = ok p
with_display_name (some text) p = elim (checked_display_name text) [
  | err e ↦ err e
  | ok name ↦ ok (record p { display_name = name })
]

abbrev pub with_template : Option String → Platform → Platform
with_template none p = p
with_template (some text) p = record p { ingest_url_template = trim_space text }

unfoldable pub delete : Deps → String → Table → Outcome Refusal (Unit {0}) × Table
delete d id t =
    if d.answers
    then elim (get id t) [
      | none ↦ (err not_found, t)
      | some p ↦ if d.in_use id then (err platform_in_use, t) else (ok tt, del id t)
    ]
    else (err database_failed, t)

-- `Exists`, where `none` is an error.
unfoldable pub exists : Deps → String → Table → Option Bool
exists d id t = if d.answers then some (elim (get id t) [ none ↦ false | some p ↦ true ]) else none

-- `List`. `number` and `encode` are as in Database/Listing.
unfoldable pub list :
    (String → ℕ)
    → (Cursor → String)
    → Deps
    → Request Cursor
    → Table
    → Outcome Refusal (Page (String × Platform))
list number encode d req t =
    if d.answers
    then ok (list_rows number (λ p. p.created_at) encode (λ x. true) req t)
    else err database_failed

-- `lower` is Go's `unicode.ToLower`.
module _ (lower : Char → Char) where
  unfoldable pub create : Deps → CreateRequest → Table → Outcome Refusal Platform × Table
  create d req t = elim (new_platform lower req d.now) [
    | err e ↦ (err e, t)
    | ok p ↦
        if d.answers
        then insert_unless stored (has_slug p.slug) duplicate_slug database_failed (d.random_uuid t)
            p t
        else (err database_failed, t)
  ]

  -- The new slug, with the check that no other platform has it.
  unfoldable pub with_slug : String → Option String → Platform → Table → Outcome Refusal Platform
  with_slug id none p t = ok p
  with_slug id (some text) p t = elim (checked_slug lower text) [
    | err e ↦ err e
    | ok slug ↦ elim (find (other_has_slug id slug) t) [
      | some other ↦ err duplicate_slug
      | none ↦ ok (record p { slug = slug })
    ]
  ]

  -- The row that `Update` saves.
  unfoldable pub changed : String → UpdateRequest → Platform → Table → Outcome Refusal Platform
  changed id req p t = elim (with_slug id req.slug p t) [
    | err e ↦ err e
    | ok p' ↦ elim (with_display_name req.display_name p') [
      | err e ↦ err e
      | ok q ↦ ok (with_template req.ingest_url_template q)
    ]
  ]

  unfoldable pub update : Deps → String → UpdateRequest → Table → Outcome Refusal Platform × Table
  update d id req t =
      if d.answers
      then elim (get id t) [
        | none ↦ (err not_found, t)
        | some p ↦ elim (changed id req p t) [ err e ↦ (err e, t) | ok q ↦ (ok q, put id q t) ]
      ]
      else (err database_failed, t)
