-- ===== src/Database/Paging.antt =====
-- Page after page of a listing of backend/internal/client, ingest, streamplatform or liveid, by cursors.
use po_c_go_live.Base.{
  ◌≡◌, refl, sym, ap, subst, ◌∙◌, ℕ, zero, suc, String, Bool, true, false, inl, inr, Option, none,
  some, List, [], ◌∷◌, arith, eqb, take, Bool-cases,
}
use po_c_go_live.Dict.{Dict}
use po_c_go_live.Pagination.Page.{last, drop}
use po_c_go_live.Database.Listing.{Cursor, filter, before, cursor_of, place, ordered, rows_from}

module _ (number : String → ℕ) {R : Type 0} (created : R → ℕ) where
  abbrev Precedes : String × R → String × R → Type 0
  Precedes x y = before number (cursor_of number created x) (cursor_of number created y) ≡ true

  abbrev Leads : String × R → List (String × R) → Type 0
  Leads x [] = Unit
  Leads x (y ∷ ys) = Precedes x y × Leads x ys

  -- Each row precedes all that follow.
  abbrev IsOrdered : List (String × R) → Type 0
  IsOrdered [] = Unit
  IsOrdered (x ∷ xs) = Leads x xs × IsOrdered xs

  -- No other row has the identifier's number.
  abbrev IsApart : String × R → List (String × R) → Type 0
  IsApart x [] = Unit
  IsApart x (y ∷ ys) = (eqb (number x.0) (number y.0) ≡ false) × IsApart x ys

  abbrev pub AreApart : List (String × R) → Type 0
  AreApart [] = Unit
  AreApart (x ∷ xs) = IsApart x xs × AreApart xs

  Precedes-trans : (x y z : String × R) → Precedes x y → Precedes y z → Precedes x z
  unfolding before
  Precedes-trans x y z p q = ground arith

  Precedes-asym :
      (x y : String × R)
      → Precedes x y
      → before number (cursor_of number created y) (cursor_of number created x) ≡ false
  unfolding before
  Precedes-asym x y p = ground arith

  Precedes-total :
      (x y : String × R)
      → eqb (number x.0) (number y.0) ≡ false
      → before number (cursor_of number created x) (cursor_of number created y) ≡ false
      → Precedes y x
  unfolding before
  Precedes-total x y n p = ground arith

  Leads-trans : (x y : String × R) (zs : List (String × R)) → Precedes x y → Leads y zs → Leads x zs
  Leads-trans x y [] p h = tt
  Leads-trans x y (z ∷ zs) p h = (Precedes-trans x y z p h.0, Leads-trans x y zs p h.1)

  place-Leads :
      (w x : String × R) (ys : List (String × R))
      → Precedes w x
      → Leads w ys
      → Leads w (place number created x ys)
  unfolding place
  place-Leads w x [] p h = (p, tt)
  place-Leads w x (y ∷ ys) p h =
      elim (Bool-cases (before number (cursor_of number created x) (cursor_of number created y))) [
        | inl z ↦ rw z (p, h)
        | inr z ↦ rw z (h.0, place-Leads w x ys p h.1)
      ]

  place-IsOrdered :
      (x : String × R) (ys : List (String × R))
      → IsApart x ys
      → IsOrdered ys
      → IsOrdered (place number created x ys)
  unfolding place
  place-IsOrdered x [] a h = (tt, tt)
  place-IsOrdered x (y ∷ ys) a h =
      elim (Bool-cases (before number (cursor_of number created x) (cursor_of number created y))) [
        | inl z ↦ rw z ((z, Leads-trans x y ys z h.0), h)
        | inr z ↦
            rw z (place-Leads y x ys (Precedes-total x y a.0 z) h.0, place-IsOrdered x ys a.1 h.1)
      ]

  place-IsApart :
      (w x : String × R) (ys : List (String × R))
      → eqb (number w.0) (number x.0) ≡ false
      → IsApart w ys
      → IsApart w (place number created x ys)
  unfolding place
  place-IsApart w x [] p h = (p, tt)
  place-IsApart w x (y ∷ ys) p h =
      elim (Bool-cases (before number (cursor_of number created x) (cursor_of number created y))) [
        | inl z ↦ rw z (p, h)
        | inr z ↦ rw z (h.0, place-IsApart w x ys p h.1)
      ]

  ordered-IsApart :
      (w : String × R) (xs : List (String × R))
      → IsApart w xs
      → IsApart w (ordered number created xs)
  unfolding ordered
  ordered-IsApart w [] h = tt
  ordered-IsApart w (x ∷ xs) h =
      place-IsApart w x (ordered number created xs) h.0 (ordered-IsApart w xs h.1)

  ordered-IsOrdered : (xs : List (String × R)) → AreApart xs → IsOrdered (ordered number created xs)
  unfolding ordered
  ordered-IsOrdered [] h = tt
  ordered-IsOrdered (x ∷ xs) h =
      place-IsOrdered x (ordered number created xs) (ordered-IsApart x xs h.0)
        (ordered-IsOrdered xs h.1)

  filter-IsApart :
      (p : String × R → Bool) (w : String × R) (xs : List (String × R))
      → IsApart w xs
      → IsApart w (filter p xs)
  unfolding filter
  filter-IsApart p w [] h = tt
  filter-IsApart p w (x ∷ xs) h = elim (Bool-cases (p x)) [
    | inl z ↦ rw z (h.0, filter-IsApart p w xs h.1)
    | inr z ↦ rw z (filter-IsApart p w xs h.1)
  ]

  filter-AreApart :
      (p : String × R → Bool) (xs : List (String × R)) → AreApart xs → AreApart (filter p xs)
  unfolding filter
  filter-AreApart p [] h = tt
  filter-AreApart p (x ∷ xs) h = elim (Bool-cases (p x)) [
    | inl z ↦ rw z (filter-IsApart p x xs h.0, filter-AreApart p xs h.1)
    | inr z ↦ rw z (filter-AreApart p xs h.1)
  ]

  filter-Leads :
      (p : String × R → Bool) (w : String × R) (xs : List (String × R))
      → Leads w xs
      → Leads w (filter p xs)
  unfolding filter
  filter-Leads p w [] h = tt
  filter-Leads p w (x ∷ xs) h = elim (Bool-cases (p x)) [
    | inl z ↦ rw z (h.0, filter-Leads p w xs h.1)
    | inr z ↦ rw z (filter-Leads p w xs h.1)
  ]

  filter-IsOrdered :
      (p : String × R → Bool) (xs : List (String × R)) → IsOrdered xs → IsOrdered (filter p xs)
  unfolding filter
  filter-IsOrdered p [] h = tt
  filter-IsOrdered p (x ∷ xs) h = elim (Bool-cases (p x)) [
    | inl z ↦ rw z (filter-Leads p x xs h.0, filter-IsOrdered p xs h.1)
    | inr z ↦ rw z (filter-IsOrdered p xs h.1)
  ]

  -- What a query after the row's cursor keeps.
  abbrev after : String × R → List (String × R) → List (String × R)
  after k = filter (λ x. before number (cursor_of number created k) (cursor_of number created x))

  after_leader : (k : String × R) (xs : List (String × R)) → Leads k xs → after k xs ≡ xs
  unfolding filter
  after_leader k [] h = refl
  after_leader k (x ∷ xs) h = let p = h.0 in rw p (ap (λ ys. x ∷ ys) (after_leader k xs h.1))

  precedes_self :
      (x : String × R)
      → before number (cursor_of number created x) (cursor_of number created x) ≡ false
  unfolding before
  precedes_self x = ground arith

  -- The last row of a page is one of those that its first row leads.
  Leads-last :
      (x y : String × R) (n : ℕ) (ys : List (String × R))
      → Leads x (y ∷ ys)
      → Precedes x (last y (take n ys))
  Leads-last x y zero ys h = h.0
  Leads-last x y (suc n) [] h = h.0
  Leads-last x y (suc n) (z ∷ zs) h = Leads-last x z n zs h.1

  -- After the last row of a page there is what the page leaves.
  after-last :
      (n : ℕ) (x : String × R) (xs : List (String × R))
      → IsOrdered (x ∷ xs)
      → after (last x (take n xs)) (x ∷ xs) ≡ drop n xs
  unfolding filter drop
  after-last zero x xs h = let e = precedes_self x in rw e (after_leader x xs h.0)
  after-last (suc n) x [] h = let e = precedes_self x in rw e refl
  after-last (suc n) x (y ∷ ys) h =
      let e = Precedes-asym x (last y (take n ys)) (Leads-last x y n ys h.0) in
      rw e (after-last n y ys h.1)

  -- What a query after a cursor keeps.
  abbrev after_cursor : Cursor → List (String × R) → List (String × R)
  after_cursor k = filter (λ x. before number k (cursor_of number created x))

  before_trans :
      (k l m : Cursor)
      → before number k l ≡ true
      → before number l m ≡ true
      → before number k m ≡ true
  unfolding before
  before_trans k l m p q = ground arith

  not_before :
      (k l m : Cursor)
      → before number k l ≡ true
      → before number k m ≡ false
      → before number l m ≡ false
  not_before k l m p n = elim (Bool-cases (before number l m)) [
    | inl y ↦ absurd (let q = before_trans k l m p y in ground arith)
    | inr y ↦ y
  ]

  -- A later cursor alone keeps what it keeps of an earlier one's.
  after-after_cursor :
      (k l : Cursor) (xs : List (String × R))
      → before number k l ≡ true
      → after_cursor l (after_cursor k xs) ≡ after_cursor l xs
  unfolding filter
  after-after_cursor k l [] p = refl
  after-after_cursor k l (x ∷ xs) p =
      elim (Bool-cases (before number k (cursor_of number created x))) [
        | inl z ↦ let e = after-after_cursor k l xs p in rw (z, e) refl
        | inr z ↦
            let n = not_before k l (cursor_of number created x) p z in
            rw (z, n) (after-after_cursor k l xs p)
      ]

  abbrev AllAfter : Cursor → List (String × R) → Type 0
  AllAfter k [] = Unit
  AllAfter k (x ∷ xs) = (before number k (cursor_of number created x) ≡ true) × AllAfter k xs

  after-AllAfter : (k : Cursor) (xs : List (String × R)) → AllAfter k (after_cursor k xs)
  unfolding filter
  after-AllAfter k [] = tt
  after-AllAfter k (x ∷ xs) = elim (Bool-cases (before number k (cursor_of number created x))) [
    | inl z ↦ rw z (z, after-AllAfter k xs)
    | inr z ↦ rw z (after-AllAfter k xs)
  ]

  last-AllAfter :
      (k : Cursor) (x : String × R) (n : ℕ) (xs : List (String × R))
      → AllAfter k (x ∷ xs)
      → before number k (cursor_of number created (last x (take n xs))) ≡ true
  last-AllAfter k x zero xs h = h.0
  last-AllAfter k x (suc n) [] h = h.0
  last-AllAfter k x (suc n) (y ∷ ys) h = last-AllAfter k y n ys h.1

  module _ (matches : String × R → Bool) (t : Dict R) where
    rows_from-IsOrdered :
        (cursor : Option Cursor)
        → AreApart t
        → IsOrdered (rows_from number created matches cursor t)
    unfolding rows_from
    rows_from-IsOrdered none h = ordered-IsOrdered (filter matches t) (filter-AreApart matches t h)
    rows_from-IsOrdered (some k) h =
        filter-IsOrdered (λ x. before number k (cursor_of number created x))
          (ordered number created (filter matches t))
          (ordered-IsOrdered (filter matches t) (filter-AreApart matches t h))

    -- The query after the last row of a page asks for what the page leaves.
    pub next-rows_from :
        (cursor : Option Cursor) (n : ℕ) (x : String × R) (xs : List (String × R))
        → AreApart t
        → rows_from number created matches cursor t ≡ x ∷ xs
        → rows_from number created matches (some (cursor_of number created (last x (take n xs)))) t
          ≡ drop n xs
    unfolding rows_from
    next-rows_from none n x xs h e =
        ap (after (last x (take n xs))) e
        ∙ after-last n x xs (subst IsOrdered e (rows_from-IsOrdered none h))
    next-rows_from (some k) n x xs h e =
        let all = ordered number created (filter matches t) in
        let p = last-AllAfter k x n xs (subst (AllAfter k) e (after-AllAfter k all)) in
        sym (after-after_cursor k (cursor_of number created (last x (take n xs))) all p)
        ∙ ap (after (last x (take n xs))) e
        ∙ after-last n x xs (subst IsOrdered e (rows_from-IsOrdered (some k) h))
