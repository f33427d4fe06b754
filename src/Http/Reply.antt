-- ===== src/Http/Reply.antt =====
-- Requests and replies, and `writeJSON` and `writeError` of backend/internal/httpapi/httpapi.go and
-- `writeValidationError` of helpers.go.
use po_c_go_live.Base.{ℕ, String, List, [], ◌∷◌}

pub data Method : Type 0 where
  get post patch delete options other : Method

-- `header_token` is the header X-Api-Token, and `query_token` the parameter api_token; "" is none.
pub record Request : Type 0 where
  pub method : Method
  pub path : String
  pub header_token : String
  pub query_token : String
  pub body : String

-- The body of a reply: none, a value as JSON, an error's message, and one with the field that it is of.
pub data Body (P : Type 0) : Type 0 where
  empty : Body P
  value : P → Body P
  message : String → Body P
  invalid : String → String → Body P

pub record Reply (P : Type 0) : Type 0 where
  pub status : ℕ
  pub headers : List (String × String)
  pub body : Body P

abbrev json : List (String × String)
json = ("Content-Type", "application/json") ∷ []

module _ {P : Type 0} where
  abbrev pub write_json : ℕ → P → Reply P
  write_json status v = record { status = status; headers = json; body = value v }

  abbrev pub write_error : ℕ → String → Reply P
  write_error status text = record { status = status; headers = json; body = message text }

  abbrev pub write_validation_error : String → String → Reply P
  write_validation_error field text = record {
    status = 422;
    headers = json;
    body = invalid field text;
  }

  -- w.WriteHeader(status)
  abbrev pub write_header : ℕ → Reply P
  write_header status = record { status = status; headers = []; body = empty }
