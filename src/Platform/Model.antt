-- ===== src/Platform/Model.antt =====
-- backend/internal/streamplatform/model.go and the requests of dto.go. A time is its count of
-- nanoseconds, and a `uuid.UUID` its text.
use Prim.Native.Char.{Char}
use Prim.Native.String.{len}
use po_c_go_live.Base.{ℕ, String, Option, ltb, ◌||◌, ◌==◌, if◌then◌else◌}
use po_c_go_live.Base.Text.{trim_space, to_lower}
use po_c_go_live.Database.{Outcome, ok, err}

abbrev pub max_slug_len : ℕ
max_slug_len = 100

abbrev pub max_name_len : ℕ
max_name_len = 200

-- `database_failed` stands for an error of the database, which is passed on.
pub data Refusal : Type 0 where
  not_found duplicate_slug invalid_slug invalid_name platform_in_use database_failed : Refusal

pub record Platform : Type 0 where
  pub slug : String
  pub display_name : String
  pub ingest_url_template : String
  pub created_at : ℕ

pub record CreateRequest : Type 0 where
  pub slug : String
  pub display_name : String
  pub ingest_url_template : String

pub record UpdateRequest : Type 0 where
  pub slug : Option String
  pub display_name : Option String
  pub ingest_url_template : Option String

unfoldable pub checked_display_name : String → Outcome Refusal String
checked_display_name text =
    let trimmed = trim_space text in
    if trimmed == "" || ltb max_name_len (len trimmed) then err invalid_name else ok trimmed

-- `lower` is Go's `unicode.ToLower`.
module _ (lower : Char → Char) where
  abbrev pub normalize_slug : String → String
  normalize_slug text = to_lower lower (trim_space text)

  unfoldable pub checked_slug : String → Outcome Refusal String
  checked_slug text =
      let slug = normalize_slug text in
      if slug == "" || ltb max_slug_len (len slug) then err invalid_slug else ok slug

  -- `New`, with the template that `Create` sets and the time of creation.
  unfoldable pub new_platform : CreateRequest → ℕ → Outcome Refusal Platform
  new_platform req now = elim (checked_slug req.slug) [
    | err e ↦ err e
    | ok slug ↦ elim (checked_display_name req.display_name) [
      | err e ↦ err e
      | ok name ↦ ok (record {
        slug = slug;
        display_name = name;
        ingest_url_template = trim_space req.ingest_url_template;
        created_at = now;
      })
    ]
  ]
