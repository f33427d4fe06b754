-- ===== src/Dict.antt =====
-- Go's `map[string]V`, as the list of its entries. A `range` over a map visits its entries in an
-- unspecified order: here it visits them in the order of the list, and as nothing fixes that order,
-- a theorem about every list of entries holds of every order.
use po_c_go_live.Base.{
  ◌⊎◌, String, ◌≡◌, refl, Bool, true, false, Option, none, some, List, [], ◌∷◌, arith, ◌==◌, eq_iff,
  if◌then◌else◌, contains,
}

abbrev pub Dict {ℓ} : Type ℓ → Type ℓ
Dict V = List (String × V)

module _ {ℓ} {V : Type ℓ} where
  -- v, ok := m[k]
  unfoldable pub get : String → Dict V → Option V
  get k [] = none
  get k ((j, v) ∷ m) = if j == k then some v else get k m

  -- m[k] = v
  unfoldable pub put : String → V → Dict V → Dict V
  put k v [] = (k, v) ∷ []
  put k v ((j, w) ∷ m) = if j == k then (j, v) ∷ m else (j, w) ∷ put k v m

  -- delete(m, k)
  unfoldable pub del : String → Dict V → Dict V
  del k [] = []
  del k ((j, v) ∷ m) = let rest = del k m in if j == k then rest else (j, v) ∷ rest

  -- A loop over the map that stops at the first entry which passes a test.
  unfoldable pub find : (String → V → Bool) → Dict V → Option (String × V)
  find p [] = none
  find p ((k, v) ∷ m) = if p k v then some (k, v) else find p m

  -- A loop over the map that replaces each value.
  unfoldable pub update_all : (String → V → V) → Dict V → Dict V
  update_all f [] = []
  update_all f ((k, v) ∷ m) = (k, f k v) ∷ update_all f m

  unfoldable pub keys : Dict V → List String
  keys [] = []
  keys ((k, v) ∷ m) = k ∷ keys m

  -- No key has two entries.
  abbrev pub IsDistinct : Dict V → Type ℓ
  IsDistinct [] = Unit
  IsDistinct ((k, v) ∷ m) = (get k m ≡ none) × IsDistinct m

  pub get-put :
      (k j : String) (v : V) (m : Dict V) → get j (put k v m) ≡ (if k == j then some v else get j m)
  unfolding get put
  get-put k j v [] = refl
  get-put k j v ((i, w) ∷ m) = ground (arith, eq_iff i k, eq_iff i j, eq_iff k j, get-put k j v m)

  pub get-del : (k j : String) (m : Dict V) → get j (del k m) ≡ (if k == j then none else get j m)
  unfolding get del
  get-del k j [] = ground arith
  get-del k j ((i, w) ∷ m) = ground (arith, eq_iff i k, eq_iff i j, eq_iff k j, get-del k j m)

  pub get-update_all :
      (f : String → V → V) (j : String) (m : Dict V)
      → get j (update_all f m) ≡ elim (get j m) [ none ↦ none | some v ↦ some (f j v) ]
  unfolding get update_all
  get-update_all f j [] = refl
  get-update_all f j ((i, w) ∷ m) = ground (arith, eq_iff i j, get-update_all f j m)

  pub put-IsDistinct : (k : String) (v : V) (m : Dict V) → IsDistinct m → IsDistinct (put k v m)
  unfolding put get
  put-IsDistinct k v [] h = (refl, tt)
  put-IsDistinct k v ((i, w) ∷ m) h =
      ground (arith, eq_iff i k, eq_iff k i, get-put k i v m, put-IsDistinct k v m)

  pub del-IsDistinct : (k : String) (m : Dict V) → IsDistinct m → IsDistinct (del k m)
  unfolding del
  del-IsDistinct k [] h = h
  del-IsDistinct k ((i, w) ∷ m) h = ground (arith, get-del k i m, del-IsDistinct k m)

  pub update_all-IsDistinct :
      (f : String → V → V) (m : Dict V) → IsDistinct m → IsDistinct (update_all f m)
  unfolding update_all
  update_all-IsDistinct f [] h = h
  update_all-IsDistinct f ((i, w) ∷ m) h =
      ground (arith, get-update_all f i m, update_all-IsDistinct f m)

  -- An entry that a loop stops at is in the map, and passes the test.
  pub find-get :
      (p : String → V → Bool) (m : Dict V) (k : String) (v : V)
      → IsDistinct m
      → find p m ≡ some (k, v)
      → (get k m ≡ some v) × (p k v ≡ true)
  unfolding find get
  find-get p [] k v h e = ground arith
  find-get p ((i, w) ∷ m) k v h e = ground (arith, eq_iff i k, eq_iff i i, find-get p m k v)

  -- A loop that runs to the end has found no entry that passes.
  pub find_none :
      (p : String → V → Bool) (m : Dict V) (k : String) (v : V)
      → find p m ≡ none
      → get k m ≡ some v
      → p k v ≡ false
  unfolding find get
  find_none p [] k v h e = ground arith
  find_none p ((i, w) ∷ m) k v h e = ground (arith, eq_iff i k, find_none p m k v)

  -- What is under a key after a write: the new value, or what was there.
  pub get-put-cases :
      (id : String) (x : V) (m : Dict V) (k : String) (v : V)
      → get k (put id x m) ≡ some v
      → ((id ≡ k) × (x ≡ v)) ⊎ (((id == k) ≡ false) × (get k m ≡ some v))
  get-put-cases id x m k v g = ground (arith, get-put id k x m, eq_iff id k)

  -- A key is among the keys if it has an entry.
  pub contains-keys :
      (k : String) (m : Dict V)
      → contains k (keys m) ≡ elim (get k m) [ none ↦ false | some v ↦ true ]
  unfolding get keys
  contains-keys k [] = refl
  contains-keys k ((i, w) ∷ m) = ground (arith, eq_iff i k, contains-keys k m)
