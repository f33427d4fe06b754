-- ===== src/Pagination/Request.antt =====
-- `ParseRequest` and `DecodeCursor` of backend/internal/pagination/pagination.go. A cursor's text is
-- base64 of JSON: `decode` stands for reading both, and is `none` where either fails.
use po_c_go_live.Base.{
  ℕ, ◌≤◌, String, ◌≡◌, Bool, true, false, Option, none, some, arith, ltb, ◌==◌, if◌then◌else◌,
}
use po_c_go_live.Pagination.Decimal.{atoi}

abbrev pub default_limit : ℕ
default_limit = 25

abbrev pub max_limit : ℕ
max_limit = 100

pub record Request (C : Type 0) : Type 0 where
  pub limit : ℕ
  pub cursor : Option C

pub data Parsed (A : Type 0) : Type 0 where
  ok : A → Parsed A
  invalid_limit invalid_cursor : Parsed A

-- n < 1 is an error, and more than the maximum is the maximum.
abbrev cap : Option (Bool × ℕ) → Parsed ℕ
cap none = invalid_limit
cap (some (true, n)) = invalid_limit
cap (some (false, n)) =
    if ltb n 1 then invalid_limit else ok (if ltb max_limit n then max_limit else n)

unfoldable pub parse_limit : String → Parsed ℕ
parse_limit raw = if raw == "" then ok default_limit else cap (atoi raw)

module _ {C : Type 0} (decode : String → Option C) where
  -- `DecodeCursor`, whose nil without an error is the empty text's.
  unfoldable pub decode_cursor : String → Parsed (Option C)
  decode_cursor text =
      if text == ""
      then ok none
      else elim (decode text) [ none ↦ invalid_cursor | some c ↦ ok (some c) ]

  abbrev with_limit : Parsed ℕ → Parsed (Option C) → Parsed (Request C)
  with_limit invalid_limit r = invalid_limit
  with_limit invalid_cursor r = invalid_cursor
  with_limit (ok n) (ok c) = ok (record { limit = n; cursor = c })
  with_limit (ok n) invalid_limit = invalid_limit
  with_limit (ok n) invalid_cursor = invalid_cursor

  -- `ParseRequest`, of the two parameters' texts.
  unfoldable pub parse_request : String → String → Parsed (Request C)
  parse_request limit cursor = with_limit (parse_limit limit) (decode_cursor cursor)

  cap-bounds : (n : Option (Bool × ℕ)) (k : ℕ) → cap n ≡ ok k → (1 ≤ k) × (k ≤ 100)
  cap-bounds none k e = ground arith
  cap-bounds (some (true, n)) k e = ground arith
  cap-bounds (some (false, n)) k e = ground arith

  -- Whatever the query says, a request that `ParseRequest` accepts asks for 1 to 100 rows.
  pub limit-bounds :
      (limit cursor : String) (r : Request C)
      → parse_request limit cursor ≡ ok r
      → (1 ≤ r.limit) × (r.limit ≤ 100)
  unfolding parse_request parse_limit
  limit-bounds limit cursor r e = ground (arith, cap-bounds (atoi limit) r.limit)
