-- ===== src/Http/Query.antt =====
-- backend/internal/httpapi/helpers.go: what a handler reads of a request, each with the reply that it
-- writes where it cannot. The parsing of a UUID and the text of a cursor are libraries'.
use Prim.Native.String.{◌++◌}
use po_c_go_live.Base.{ℕ, String, Bool, true, false, Option, none, some, ◌==◌, if◌then◌else◌}
use po_c_go_live.Database.Listing.{Cursor}
use po_c_go_live.Database as Db
use po_c_go_live.Pagination.Page.{Page}
use po_c_go_live.Pagination.Request as Paging
use po_c_go_live.Http.Reply.{Reply, write_error}

-- `parse_uuid` is `uuid.Parse`, where `none` is an error. The others are as in Database/Listing.
pub record Texts : Type 0 where
  pub parse_uuid : String → Option String
  pub number : String → ℕ
  pub encode : Cursor → String
  pub decode : String → Option Cursor

-- The parameters of a query; "" is none.
abbrev pub Values : Type 0
Values = String → String

-- What a `json.Decoder` makes of a body; `ended` is `io.EOF`.
pub data Decoded (A : Type 0) : Type 0 where
  decoded : A → Decoded A
  ended malformed : Decoded A

-- A value, or the reply that is written instead.
pub data Checked (P A : Type 0) : Type 0 where
  valid : A → Checked P A
  refused : Reply P → Checked P A

-- What a reply shows of a table.
pub data Shown (R : Type 0) : Type 0 where
  one : R → Shown R
  page : Page (String × R) → Shown R

module _ {P : Type 0} where
  unfoldable pub decode_json : {A : Type 0} → Decoded A → Checked P A
  decode_json (decoded a) = valid a
  decode_json ended = refused (write_error 400 "request body is required")
  decode_json malformed = refused (write_error 400 "malformed request body")

  -- `io.ReadAll`, where `none` is an error.
  unfoldable pub read_body : Option String → Checked P String
  read_body none = refused (write_error 400 "malformed request body")
  read_body (some b) = valid b

  abbrev pub parsed_path : String → Option String → Checked P String
  parsed_path name none = refused (write_error 400 ("invalid " ++ (name ++ " in path")))
  parsed_path name (some id) = valid id

  unfoldable pub path_uuid : Texts → String → String → Checked P String
  path_uuid t name raw = parsed_path name (t.parse_uuid raw)

  abbrev bad_parameter : String → Reply P
  bad_parameter name = write_error 400 ("invalid " ++ (name ++ " query parameter"))

  unfoldable pub query_uuid : Texts → Values → String → Checked P (Option String)
  query_uuid t q name = if q name == "" then valid none else elim (t.parse_uuid (q name)) [
    | none ↦ refused (bad_parameter name)
    | some id ↦ valid (some id)
  ]

  unfoldable pub query_bool : Values → String → Checked P (Option Bool)
  query_bool q name =
      if q name == ""
      then valid none
      else if q name == "true"
      then valid (some true)
      else if q name == "false"
      then valid (some false)
      else refused (bad_parameter name)

  abbrev checked_page : Paging.Parsed (Paging.Request Cursor) → Checked P (Paging.Request Cursor)
  checked_page (Paging.Parsed.ok r) = valid r
  checked_page Paging.Parsed.invalid_limit =
      refused (write_error 400 "limit must be a positive integer")
  checked_page Paging.Parsed.invalid_cursor = refused (write_error 400 "invalid cursor")

  unfoldable pub parse_page : Texts → Values → Checked P (Paging.Request Cursor)
  parse_page t q = checked_page (Paging.parse_request t.decode (q "limit") (q "cursor"))

  -- if !ok { return }
  abbrev pub with_valid : {A S : Type 0} → Checked P A → (A → S → Reply P × S) → S → Reply P × S
  with_valid (refused r) f s = (r, s)
  with_valid (valid a) f s = f a s

  -- What a method returned, as a reply.
  abbrev pub reply_to :
      {E A S : Type 0} → (A → Reply P) → (E → Reply P) → Db.Outcome E A × S → Reply P × S
  reply_to good bad (Db.ok a, s) = (good a, s)
  reply_to good bad (Db.err e, s) = (bad e, s)

  unfoldable pub write_internal_error : Reply P
  write_internal_error = write_error 500 "internal error"
