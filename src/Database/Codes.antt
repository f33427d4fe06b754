-- ===== src/Database/Codes.antt =====
-- A code for the cursors of a listing.
use Prim.Native.Char.{code}
use Prim.Native.String.{[], ◌∷◌}
use po_c_go_live.Base.{
  ◌≡◌, refl, ℕ, zero, suc, String, Option, none, some, arith, eqb, if◌then◌else◌,
}
use po_c_go_live.Database.Listing.{Cursor}

-- A time in unary, and the identifier.
encode_time : ℕ → String → String
encode_time zero id = "," ∷ id
encode_time (suc n) id = "1" ∷ encode_time n id

later : Option Cursor → Option Cursor
later none = none
later (some (n, id)) = some (suc n, id)

unfoldable pub decode : String → Option Cursor
unfolding later
decode [] = none
decode (c ∷ s) = let rest = decode s in if eqb (code c) b',' then some (0, s) else later rest

unfoldable pub encode : Cursor → String
unfolding encode_time
encode (n, id) = encode_time n id

decode-encode_time : (n : ℕ) (id : String) → decode (encode_time n id) ≡ some (n, id)
unfolding decode encode_time later
decode-encode_time zero id = refl
decode-encode_time (suc n) id = let e = decode-encode_time n id in ground arith

pub decode-encode : (c : Cursor) → decode (encode c) ≡ some c
unfolding encode
decode-encode (n, id) = decode-encode_time n id
