-- ===== src/Http/Guard.antt =====
-- `corsMiddleware` and `authMiddleware` of backend/internal/httpapi/middleware.go. `S` is the state that
-- a handler changes.
use po_c_go_live.Base.{
  ◌≡◌, ◌≢◌, ◌⊎◌, inl, inr, arith, eq_iff, String, Bool, true, false, not, ◌||◌, List, [], ◌∷◌, ◌++◌,
  ◌==◌, if◌then◌else◌,
}
use po_c_go_live.Http.Reply.{Method, options, Request, Reply, write_error, write_header}

abbrev pub Handler : Type 0 → Type 0 → Type 0
Handler P S = Request → S → Reply P × S

abbrev pub is_options : Method → Bool
is_options options = true
is_options _ = false

abbrev pub health_path : String
health_path = "/api/v1/health"

abbrev cors_headers : List (String × String)
cors_headers =
    ("Access-Control-Allow-Origin", "http://localhost:4200")
    ∷ ("Access-Control-Allow-Headers", "Content-Type, X-Api-Token")
    ∷ ("Access-Control-Allow-Methods", "GET, POST, PATCH, DELETE, OPTIONS")
    ∷ []

-- The header, or the parameter where there is none.
unfoldable pub token_of : Request → String
token_of r = if r.header_token == "" then r.query_token else r.header_token

module _ {P S : Type 0} where
  abbrev with_cors : Reply P × S → Reply P × S
  with_cors (r, s) = (record r { headers = cors_headers ++ r.headers }, s)

  unfoldable pub cors_middleware : Handler P S → Handler P S
  cors_middleware next r s =
      with_cors (if is_options r.method then (write_header 204, s) else next r s)

  unfoldable pub auth_middleware : String → Handler P S → Handler P S
  unfolding token_of
  auth_middleware token next r s =
      if is_options r.method || r.path == health_path
      then next r s
      else if token_of r == "" || not (token_of r == token)
      then (write_error 401 "token de acesso inválido ou ausente", s)
      else next r s

  -- `Handler`
  unfoldable pub guarded : String → Handler P S → Handler P S
  unfolding cors_middleware auth_middleware
  guarded token next = cors_middleware (auth_middleware token next)

  -- A request without the token, other than for the health of the server, gets to no handler: its reply
  -- is 401, or 204 if it only asks for the options, and nothing is changed.
  pub guarded_refuses :
      (token : String) (next : Handler P S) (r : Request) (s : S)
      → (r.path == health_path) ≡ false
      → (token_of r ≡ "") ⊎ (token_of r ≢ token)
      → ((guarded token next r s).1 ≡ s)
        × ((guarded token next r s).0.status ≡ (if is_options r.method then 204 else 401))
  unfolding guarded token_of
  guarded_refuses token next r s p (inl e) = ground (arith, eq_iff (token_of r) "")
  guarded_refuses token next r s p (inr n) = ground (arith, eq_iff (token_of r) token)

  -- A guard lets the handler change the state, or nobody.
  pub guarded-cases :
      (token : String) (next : Handler P S) (r : Request) (s : S)
      → ((guarded token next r s).1 ≡ s) ⊎ ((guarded token next r s).1 ≡ (next r s).1)
  unfolding guarded
  guarded-cases token next r s = ground arith
