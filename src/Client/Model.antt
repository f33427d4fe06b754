-- ===== src/Client/Model.antt =====
-- backend/internal/client/model.go and dto.go. A time is its count of nanoseconds, and a `uuid.UUID` its
-- text.
use Prim.Native.String.{len}
use po_c_go_live.Base.{
  ℕ, String, Bool, true, false, not, Option, none, some, ltb, ◌||◌, ◌==◌, if◌then◌else◌,
}
use po_c_go_live.Base.Text.{trim_space}
use po_c_go_live.Database.{Outcome, ok, err}
use po_c_go_live.Client.Email.{matches_email}

abbrev pub max_name_len : ℕ
max_name_len = 200

abbrev pub max_email_len : ℕ
max_email_len = 320

-- `database_failed` stands for an error of the database, which is passed on.
pub data Refusal : Type 0 where
  not_found duplicate_name invalid_name invalid_email database_failed : Refusal

-- `is_deleted` tells whether `DeletedAt` is set.
pub record Client : Type 0 where
  pub name : String
  pub email : Option String
  pub created_at : ℕ
  pub is_deleted : Bool

pub record CreateRequest : Type 0 where
  pub name : String
  pub email : Option String

pub record UpdateFields : Type 0 where
  pub name : Option String
  pub email_set : Bool
  pub email_value : Option String

unfoldable pub normalize_name : String → Outcome Refusal String
normalize_name text =
    let trimmed = trim_space text in
    if trimmed == "" || ltb max_name_len (len trimmed) then err invalid_name else ok trimmed

unfoldable pub normalize_email : Option String → Outcome Refusal (Option String)
normalize_email none = ok none
normalize_email (some text) =
    let trimmed = trim_space text in
    if trimmed == ""
    then ok none
    else if ltb max_email_len (len trimmed) || not (matches_email trimmed)
    then err invalid_email
    else ok (some trimmed)

-- `New`, with the time of creation.
unfoldable pub new_client : String → Option String → ℕ → Outcome Refusal Client
new_client name email now = elim (normalize_name name) [
  | err e ↦ err e
  | ok n ↦ elim (normalize_email email) [
    | err e ↦ err e
    | ok m ↦ ok (record { name = n; email = m; created_at = now; is_deleted = false })
  ]
]

-- A key of the body of a PATCH: it is not there, it is null, a text, or something else.
pub data Field : Type 0 where
  absent null other : Field
  text : String → Field

-- `json.Unmarshal` into a `*string`: `none` is an error.
abbrev pub pointer : Field → Option (Option String)
pointer absent = some none
pointer null = some none
pointer other = none
pointer (text s) = some (some s)

abbrev pub is_there : Field → Bool
is_there absent = false
is_there _ = true

abbrev nothing : String → Field
nothing key = absent

-- `ParseUpdateFields`. `unmarshal` reads the keys of a JSON object.
unfoldable pub parse_update_fields :
    (String → Option (String → Field)) → String → Option UpdateFields
parse_update_fields unmarshal body = elim (if body == "" then some nothing else unmarshal body) [
  | none ↦ none
  | some raw ↦ elim (pointer (raw "name")) [
    | none ↦ none
    | some name ↦ elim (pointer (raw "email")) [
      | none ↦ none
      | some email ↦
          some (record { name = name; email_set = is_there (raw "email"); email_value = email })
    ]
  ]
]
