-- ===== src/Database.antt =====
-- The tables that the services of backend/internal/client, ingest and streamplatform keep in Postgres:
-- a map from primary keys to rows. A transaction that returns an error leaves its table as it was.
pub mod Listing
pub mod Paging
pub mod Complete
pub mod Codes
mod Tests
use Prim.Native.Nat.{◌/◌, ◌*◌}
use po_c_go_live.Base.{
  ℕ, ◌≡◌, refl, sym, subst, ◌∙◌, ◌⊎◌, inl, inr, String, Bool, true, false, Option, none, some,
  arith, ◌==◌, eq_iff, Option-cases, if◌then◌else◌,
}
use po_c_go_live.Dict.{Dict, get, put, del, find, get-put, get-del, get-put-cases}

-- What a method returns: a value, or one of its package's errors.
pub data Outcome (E A : Type 0) : Type 0 where
  ok : A → Outcome E A
  err : E → Outcome E A

pub Outcome-cases :
    {E A : Type 0} (r : Outcome E A) → ((a : A) × (r ≡ ok a)) ⊎ ((e : E) × (r ≡ err e))
Outcome-cases (ok a) = inl (a, refl)
Outcome-cases (err e) = inr (e, refl)

-- A timestamptz keeps the microseconds of a time; the rest of its nanoseconds is cut off.
abbrev pub micros : ℕ → ℕ
micros time = time / 1000 * 1000

-- `stored` is what the database keeps of a row; the caller has the row as it was.
module _ {E R : Type 0} (stored : R → R) where
  -- An INSERT, which fails if the key is there.
  unfoldable pub insert_row : E → String → R → Dict R → Outcome E R × Dict R
  insert_row e id r t = elim (get id t) [
    | none ↦ (ok r, put id (stored r) t)
    | some old ↦ (err e, t)
  ]

  -- Create: the insert, unless a row passes the test.
  unfoldable pub insert_unless :
      (String → R → Bool) → E → E → String → R → Dict R → Outcome E R × Dict R
  unfolding insert_row
  insert_unless test duplicate failed id r t = elim (find test t) [
    | some row ↦ (err duplicate, t)
    | none ↦ insert_row failed id r t
  ]

  pub insert_unless-cases :
      (test : String → R → Bool) (duplicate failed : E) (id : String) (r : R) (t : Dict R)
      → ((insert_unless test duplicate failed id r t).1 ≡ t)
        ⊎ ((find test t ≡ none)
            × (get id t ≡ none)
            × ((insert_unless test duplicate failed id r t).1 ≡ put id (stored r) t))
  unfolding insert_unless insert_row
  insert_unless-cases test duplicate failed id r t = elim (Option-cases (find test t)) [
    | inr (row, z) ↦ inl (ground arith)
    | inl z ↦ elim (Option-cases (get id t)) [
      | inr (old, y) ↦ inl (ground arith)
      | inl y ↦ inr (z, y, ground arith)
    ]
  ]

-- The check of a parent row: `none` is an error of the database.
abbrev pub require : {E A T : Type 0} → Option Bool → E → E → Outcome E A × T → T → Outcome E A × T
require none failed missing next t = (err failed, t)
require (some false) failed missing next t = (err missing, t)
require (some true) failed missing next t = next

module _ {R K : Type 0} (key : R → Option K) where
  -- No two rows have one key. A row without a key does not count.
  abbrev pub IsUniqueBy : Dict R → Type 0
  IsUniqueBy t =
      (i j : String) (a b : R) (k : K)
      → get i t ≡ some a
      → get j t ≡ some b
      → key a ≡ some k
      → key b ≡ some k
      → i ≡ j

  -- No other row has the row's key.
  abbrev pub IsFree : String → R → Dict R → Type 0
  IsFree id r t =
      (j : String) (b : R) (k : K)
      → get j t ≡ some b
      → (id == j) ≡ false
      → key r ≡ some k
      → key b ≡ some k
      → ⊥

  pub put-IsUniqueBy :
      (id : String) (r : R) (t : Dict R) → IsFree id r t → IsUniqueBy t → IsUniqueBy (put id r t)
  put-IsUniqueBy id r t f h i j a b k p q x y = elim (get-put-cases id r t i a p) [
    | inl (s, u) ↦ elim (get-put-cases id r t j b q) [
      | inl (s', u') ↦ sym s ∙ s'
      | inr (n, g) ↦ absurd (f j b k g n (rw u x) y)
    ]
    | inr (n, g) ↦ elim (get-put-cases id r t j b q) [
      | inl (s', u') ↦ absurd (f i a k g n (rw u' y) x)
      | inr (n', g') ↦ h i j a b k g g' x y
    ]
  ]

  pub del-IsUniqueBy : (id : String) (t : Dict R) → IsUniqueBy t → IsUniqueBy (del id t)
  del-IsUniqueBy id t h i j a b k p q x y =
      ground (arith, get-del id i t, get-del id j t, h i j a b k)

module _ {R : Type 0} (IsGood : R → Type 0) where
  -- Every row is good.
  abbrev pub AreRows : Dict R → Type 0
  AreRows t = (i : String) (a : R) → get i t ≡ some a → IsGood a

  pub put-AreRows : (id : String) (r : R) (t : Dict R) → IsGood r → AreRows t → AreRows (put id r t)
  put-AreRows id r t g h i a p = elim (get-put-cases id r t i a p) [
    | inl (s, u) ↦ subst IsGood u g
    | inr (n, q) ↦ h i a q
  ]

  pub del-AreRows : (id : String) (t : Dict R) → AreRows t → AreRows (del id t)
  del-AreRows id t h i a p = h i a (ground (arith, get-del id i t))
