-- ===== src/Pagination/Page.antt =====
-- `NewPage` of backend/internal/pagination/pagination.go. `encode` stands for `Cursor.Encode`.
use po_c_go_live.Base.{
  ℕ, zero, suc, ◌-◌, ◌<◌, ap, ◌∙◌, inl, inr, ◌++◌, Bool-cases, ◌≤◌, String, ◌≡◌, refl, Bool, true,
  false, Option, none, some, List, [], ◌∷◌, arith, ltb, length, take, if◌then◌else◌,
}

pub record Page (A : Type 0) : Type 0 where
  pub items : List A
  pub next_cursor : Option String
  pub has_more : Bool

module _ {A : Type 0} where
  -- items[len(items)-1], which is only asked of a list that has items.
  abbrev pub last : A → List A → A
  last x [] = x
  last x (y ∷ ys) = last y ys

  abbrev pub next_of : (A → String) → Bool → List A → Option String
  next_of token false xs = none
  next_of token true [] = none
  next_of token true (x ∷ xs) = some (token (last x xs))

  -- `token` is `cursorOf` and `Encode`.
  unfoldable pub new_page : List A → ℕ → (A → String) → Page A
  new_page xs limit token =
      let more = ltb limit (length xs) in
      let kept = if more then take limit xs else xs in
      record { items = kept; next_cursor = next_of token more kept; has_more = more }

  unfoldable pub drop : ℕ → List A → List A
  drop zero xs = xs
  drop (suc n) [] = []
  drop (suc n) (x ∷ xs) = drop n xs

  pub append-nil : (xs : List A) → xs ++ [] ≡ xs
  append-nil [] = refl
  append-nil (x ∷ xs) = ap (λ ys. x ∷ ys) (append-nil xs)

  pub more-take : (n : ℕ) (xs : List A) → ltb n (length (take (suc n) xs)) ≡ ltb n (length xs)
  more-take n [] = refl
  more-take zero (x ∷ xs) = ground arith
  more-take (suc n) (x ∷ xs) = ground (arith, more-take n xs)

  pub take-take : (n : ℕ) (xs : List A) → take n (take (suc n) xs) ≡ take n xs
  take-take zero xs = refl
  take-take (suc n) [] = refl
  take-take (suc n) (x ∷ xs) = ap (λ ys. x ∷ ys) (take-take n xs)

  pub take_all : (n : ℕ) (xs : List A) → length xs ≤ n → take n xs ≡ xs
  take_all zero [] h = refl
  take_all zero (x ∷ xs) h = absurd (omega arith)
  take_all (suc n) [] h = refl
  take_all (suc n) (x ∷ xs) h = ap (λ ys. x ∷ ys) (take_all n xs (omega arith))

  pub append-take-drop : (n : ℕ) (xs : List A) → take n xs ++ drop n xs ≡ xs
  unfolding drop
  append-take-drop zero xs = refl
  append-take-drop (suc n) [] = refl
  append-take-drop (suc n) (x ∷ xs) = ap (λ ys. x ∷ ys) (append-take-drop n xs)

  pub length-drop : (n : ℕ) (xs : List A) → length (drop n xs) ≡ length xs - n
  unfolding drop
  length-drop zero xs = omega arith
  length-drop (suc n) [] = omega arith
  length-drop (suc n) (x ∷ xs) = omega (arith, length-drop n xs)

  -- The page of one row more than the limit has the rows up to the limit, and says whether there are
  -- more.
  pub items-new_page :
      (limit : ℕ) (token : A → String) (xs : List A)
      → ((new_page (take (suc limit) xs) limit token).items ≡ take limit xs)
        × ((new_page (take (suc limit) xs) limit token).has_more ≡ ltb limit (length xs))
  unfolding new_page
  items-new_page limit token xs =
      ground
        (arith, more-take limit xs, take-take limit xs, take_all limit xs, take_all (suc limit) xs)

  -- A client that asks for page after page while there are more, each from where the last one ended.
  unfoldable pub read_all : ℕ → ℕ → (A → String) → List A → List A
  read_all zero limit token xs = []
  read_all (suc fuel) limit token xs =
      let page = new_page (take (suc limit) xs) limit token in
      let later = read_all fuel limit token (drop limit xs) in
      page.items ++ (if page.has_more then later else [])

  pub drop_shorter :
      (limit : ℕ) (xs : List A) (fuel : ℕ)
      → 1 ≤ limit
      → ltb limit (length xs) ≡ true
      → length xs < suc fuel
      → length (drop limit xs) < fuel
  drop_shorter limit xs fuel l m h = ground (arith, length-drop limit xs)

  more_rows :
      (fuel limit : ℕ) (token : A → String) (xs : List A)
      → ltb limit (length xs) ≡ true
      → read_all fuel limit token (drop limit xs) ≡ drop limit xs
      → read_all (suc fuel) limit token xs ≡ xs
  unfolding read_all
  more_rows fuel limit token xs m e =
      let (items, more) = items-new_page limit token xs in
      rw (items, more, m, e) (append-take-drop limit xs)

  last_rows :
      (fuel limit : ℕ) (token : A → String) (xs : List A)
      → ltb limit (length xs) ≡ false
      → read_all (suc fuel) limit token xs ≡ xs
  unfolding read_all
  last_rows fuel limit token xs m =
      let (items, more) = items-new_page limit token xs in
      rw (items, more, m) (append-nil (take limit xs) ∙ take_all limit xs (ground arith))

  -- With a limit of at least one row, the pages of a listing that are read one after the other, each
  -- from one row more than the limit, are all its rows in their order, without a gap or a repetition.
  -- As many pages as there are rows, and one, are enough.
  pub read_all_complete :
      (fuel limit : ℕ) (token : A → String) (xs : List A)
      → 1 ≤ limit
      → length xs < fuel
      → read_all fuel limit token xs ≡ xs
  unfolding read_all
  read_all_complete zero limit token xs l h = absurd (omega arith)
  read_all_complete (suc fuel) limit token xs l h = elim (Bool-cases (ltb limit (length xs))) [
    | inl m ↦
        more_rows fuel limit token xs m
          (read_all_complete fuel limit token (drop limit xs) l (drop_shorter limit xs fuel l m h))
    | inr m ↦ last_rows fuel limit token xs m
  ]
