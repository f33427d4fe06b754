-- ===== src/Pagination/Decimal.antt =====
-- `strconv.Atoi`, which backend/internal/pagination/pagination.go reads a limit with.
use Prim.Native.Nat.{◌^◌}
use Prim.Native.Char.{code}
use Prim.Native.String.{String, [], ◌∷◌}
use po_c_go_live.Base.{
  ℕ, ◌+◌, ◌-◌, ◌*◌, Bool, true, false, ◌&&◌, Option, none, some, ltb, leb, eqb, if◌then◌else◌,
}

digits : ℕ → String → Option ℕ
digits n [] = some n
digits n (ch ∷ rest) =
    let c = code ch in
    let later = digits (n * 10 + (c - 48)) rest in if leb 48 c && leb c 57 then later else none

-- A number in front of which stands no sign: at least one digit.
magnitude : String → Option ℕ
unfolding digits
magnitude [] = none
magnitude (ch ∷ rest) = digits 0 (ch ∷ rest)

-- The range of an `int` of 64 bits, of which the negative half has one more.
abbrev in_range : Bool → Option ℕ → Option (Bool × ℕ)
in_range negative none = none
in_range negative (some n) =
    if ltb n (if negative then 2 ^ 63 + 1 else 2 ^ 63) then some (negative, n) else none

-- The number with its sign, `true` for a minus.
unfoldable pub atoi : String → Option (Bool × ℕ)
unfolding magnitude
atoi [] = none
atoi (ch ∷ rest) =
    if eqb (code ch) b'-'
    then in_range true (magnitude rest)
    else if eqb (code ch) b'+'
    then in_range false (magnitude rest)
    else in_range false (magnitude (ch ∷ rest))
