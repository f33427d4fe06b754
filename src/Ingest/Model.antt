-- ===== src/Ingest/Model.antt =====
-- backend/internal/ingest/model.go and the requests of dto.go. A time is its count of nanoseconds, and a
-- `uuid.UUID` its text.
use Prim.Native.Char.{Char}
use Prim.Native.String.{len, ◌++◌}
use po_c_go_live.Base.{
  ℕ, String, Bool, true, Option, none, some, List, [], ◌∷◌, contains, ltb, ◌||◌, ◌==◌,
  if◌then◌else◌,
}
use po_c_go_live.Base.Text.{trim_space, to_lower}
use po_c_go_live.Database.{Outcome, ok, err}

abbrev pub max_url_len : ℕ
max_url_len = 2048

-- `database_failed` stands for an error of the database, which is passed on. The text of the other two is
-- what `fmt.Errorf` puts after the error's own, from the colon on.
pub data Refusal : Type 0 where
  not_found duplicate_url client_not_found : Refusal
  invalid_url unsupported_proto : String → Refusal
  url_required database_failed : Refusal

-- `url.URL`, with the parts that are not looked at in one text.
pub record Url : Type 0 where
  pub scheme : String
  pub host : String
  pub has_user : Bool
  pub rest : String

-- Go's `net/url` and `unicode`: `url.Parse`, where `none` is an error, `URL.String` and `ToLower`;
-- the error's text of `url.Parse`, and `%q`.
pub record Urls : Type 0 where
  pub parse_url : String → Option Url
  pub url_string : Url → String
  pub unicode_lower : Char → Char
  pub parse_error : String → String
  pub quote : String → String

abbrev pub valid_protocols : List String
valid_protocols = "http" ∷ "https" ∷ "ftp" ∷ "sftp" ∷ "s3" ∷ []

pub record Ingest : Type 0 where
  pub client_id : String
  pub url : String
  pub protocol : String
  pub is_active : Bool
  pub created_at : ℕ

pub record CreateRequest : Type 0 where
  pub url : String
  pub is_active : Option Bool

pub record UpdateRequest : Type 0 where
  pub url : Option String
  pub is_active : Option Bool

abbrev pub active_or_default : Option Bool → Bool
active_or_default none = true
active_or_default (some b) = b

module _ (u : Urls) where
  unfoldable pub parse_protocol : String → Outcome Refusal String
  parse_protocol text =
      let p = to_lower u.unicode_lower (trim_space text) in
      if contains p valid_protocols then ok p else err (unsupported_proto (": " ++ u.quote text))

  abbrev lower_case : Url → Url
  lower_case l = record l {
    scheme = to_lower u.unicode_lower l.scheme;
    host = to_lower u.unicode_lower l.host;
  }

  -- From the protocol on.
  abbrev pub normalized : Url → String → Outcome Refusal (String × String)
  normalized l proto =
      if l.has_user
      then err (invalid_url ": credentials must not be embedded in the url")
      else ok (u.url_string (lower_case l), proto)

  unfoldable pub validate_url : Url → Outcome Refusal (String × String)
  validate_url l =
      if l.scheme == ""
      then err (invalid_url ": missing scheme")
      else if l.host == ""
      then err (invalid_url ": missing host")
      else elim (parse_protocol l.scheme) [ err e ↦ err e | ok proto ↦ normalized l proto ]

  -- `parseAndValidateURL`: the normalized URL and its protocol.
  unfoldable pub parse_and_validate_url : String → Outcome Refusal (String × String)
  parse_and_validate_url raw =
      let trimmed = trim_space raw in
      if trimmed == "" || ltb max_url_len (len trimmed)
      then err (invalid_url "")
      else elim (u.parse_url trimmed) [
        | none ↦ err (invalid_url (": " ++ u.parse_error trimmed))
        | some l ↦ validate_url l
      ]

  -- `New`, with the time of creation.
  unfoldable pub new_ingest : String → String → Bool → ℕ → Outcome Refusal Ingest
  new_ingest client raw active now = elim (parse_and_validate_url raw) [
    | err e ↦ err e
    | ok (url, protocol) ↦ ok (record {
      client_id = client;
      url = url;
      protocol = protocol;
      is_active = active;
      created_at = now;
    })
  ]

  -- `ChangeURL`
  unfoldable pub change_url : String → Ingest → Outcome Refusal Ingest
  change_url raw r = elim (parse_and_validate_url raw) [
    | err e ↦ err e
    | ok (url, protocol) ↦ ok (record r { url = url; protocol = protocol })
  ]
