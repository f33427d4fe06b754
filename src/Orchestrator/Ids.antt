-- ===== src/Orchestrator/Ids.antt =====
-- `NewID` of backend/internal/positions/positions.go and of backend/internal/scenes/scenes.go: the
-- same text in both. `crypto/rand` fills the eight bytes.
use Prim.Native.Nat.{◌/◌, ◌%◌}
use Prim.Native.Char.{Char}
use Prim.Native.String.{[], ◌∷◌, char_at, count}
use text.Mathlib.TextLemmas.{length-cons}
use po_c_go_live.Base.{
  ℕ, String, ◌≡◌, ◌≢◌, refl, ap, false, ◌==◌, eq_iff, arith, Bool-cases, inl, inr, ◌+◌,
}

pub record Bytes : Type 0 where
  pub b0 : ℕ
  pub b1 : ℕ
  pub b2 : ℕ
  pub b3 : ℕ
  pub b4 : ℕ
  pub b5 : ℕ
  pub b6 : ℕ
  pub b7 : ℕ

hex_digit : ℕ → Char
hex_digit n = char_at "0123456789abcdef" n

-- The two digits of a byte, in front of a text.
hex_byte : ℕ → String → String
unfolding hex_digit
hex_byte b rest = hex_digit (b / 16 % 16) ∷ hex_digit (b % 16) ∷ rest

-- `hex.EncodeToString` of the bytes.
unfoldable pub new_id : Bytes → String
unfolding hex_byte
new_id b = hex_byte b.b0 (
    hex_byte b.b1 (
      hex_byte b.b2
        (hex_byte b.b3 (hex_byte b.b4 (hex_byte b.b5 (hex_byte b.b6 (hex_byte b.b7 [])))))))

pub new_id-ne-empty : (b : Bytes) → new_id b ≢ ""
unfolding new_id
new_id-ne-empty b e = cc

count-hex_byte : (b : ℕ) (rest : String) → count (hex_byte b rest) ≡ count rest + 2
unfolding hex_byte
count-hex_byte b rest = ground (
  arith,
  length-cons (hex_digit (b / 16 % 16)) (hex_digit (b % 16) ∷ rest),
  length-cons (hex_digit (b % 16)) rest,
)

-- It has 16 characters.
count-new_id : (b : Bytes) → count (new_id b) ≡ 16
unfolding new_id
count-new_id b =
    let r7 = hex_byte b.b7 [] in
    let r6 = hex_byte b.b6 r7 in
    let r5 = hex_byte b.b5 r6 in
    let r4 = hex_byte b.b4 r5 in
    let r3 = hex_byte b.b3 r4 in
    let r2 = hex_byte b.b2 r3 in
    let r1 = hex_byte b.b1 r2 in
    omega (
      arith,
      count-hex_byte b.b7 [],
      count-hex_byte b.b6 r7,
      count-hex_byte b.b5 r6,
      count-hex_byte b.b4 r5,
      count-hex_byte b.b3 r4,
      count-hex_byte b.b2 r3,
      count-hex_byte b.b1 r2,
      count-hex_byte b.b0 r1,
    )

-- No identifier is that of the hidden position, which has ten characters.
pub new_id-ne-simple : (b : Bytes) → (new_id b == "__simple__") ≡ false
new_id-ne-simple b = elim (Bool-cases (new_id b == "__simple__")) [
  | inr z ↦ z
  | inl z ↦ absurd (omega (arith, count-new_id b, ap count ((eq_iff (new_id b) "__simple__").0 z)))
]

new_id_example :
    new_id (record { b0 = 1; b1 = 0x2a; b2 = 255; b3 = 0; b4 = 16; b5 = 9; b6 = 10; b7 = 171 })
    ≡ "012aff0010090aab"
unfolding new_id
new_id_example = refl
