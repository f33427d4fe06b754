-- ===== src/Database/Complete.antt =====
-- Page after page of a listing of backend/internal/client, ingest, streamplatform or liveid, each asked
-- for with the cursor of the page before.
use po_c_go_live.Base.{
  ◌≡◌, refl, ap, ◌∙◌, ℕ, zero, suc, ◌≤◌, ◌<◌, String, Bool, true, false, inl, inr, Option, none,
  some, if◌then◌else◌, List, [], ◌∷◌, ◌++◌, arith, ltb, length, take, Bool-cases,
}
use po_c_go_live.Dict.{Dict}
use po_c_go_live.Pagination.Page.{
  Page, new_page, last, drop, more-take, take-take, take_all, append-take-drop, append-nil,
  length-drop,
}
use po_c_go_live.Database.Listing.{Cursor, cursor_of, rows_from, list_rows}
use po_c_go_live.Database.Paging.{AreApart, next-rows_from}

module _ (number : String → ℕ) {R : Type 0} (created : R → ℕ) (encode : Cursor → String)
    (decode : String → Option Cursor) (matches : String × R → Bool) (t : Dict R) where
  abbrev page_from : ℕ → Option Cursor → Page (String × R)
  page_from limit cursor =
      list_rows number created encode matches (record { limit = limit; cursor = cursor }) t

  -- A client that asks for page after page while there is a next cursor.
  unfoldable pub read_pages : ℕ → ℕ → Option Cursor → List (String × R)
  read_pages zero limit cursor = []
  read_pages (suc fuel) limit cursor =
      (page_from limit cursor).items ++ elim (page_from limit cursor).next_cursor [
        | none ↦ []
        | some text ↦ elim (decode text) [ none ↦ [] | some c ↦ read_pages fuel limit (some c) ]
      ]

  -- The page of a query that has rows: its rows, and the cursor of the last of them if there are more.
  page_of_rows :
      (n : ℕ) (x : String × R) (xs : List (String × R)) (cursor : Option Cursor)
      → rows_from number created matches cursor t ≡ x ∷ xs
      → ((page_from (suc n) cursor).items ≡ x ∷ take n xs)
        × ((page_from (suc n) cursor).next_cursor ≡ (
            if ltb n (length xs)
            then some (encode (cursor_of number created (last x (take n xs))))
            else none))
  unfolding list_rows new_page
  page_of_rows n x xs cursor e = elim (Bool-cases (ltb n (length xs))) [
    | inl z ↦
        let m : ltb (suc n) (length (take (suc (suc n)) (x ∷ xs))) ≡ true =
          ground (arith, more-take n xs) in
        let k = take-take n xs in rw (e, z, m, k) (refl, refl)
    | inr z ↦
        let m : ltb (suc n) (length (take (suc (suc n)) (x ∷ xs))) ≡ false =
          ground (arith, more-take n xs) in
        let a = take_all n xs (ground arith) in
        let b = take_all (suc n) xs (ground arith) in rw (e, z, m, a, b) (refl, refl)
  ]

  page_of_none :
      (limit : ℕ) (cursor : Option Cursor)
      → rows_from number created matches cursor t ≡ []
      → ((page_from limit cursor).items ≡ []) × ((page_from limit cursor).next_cursor ≡ none)
  unfolding list_rows new_page
  page_of_none zero cursor e = rw e (refl, refl)
  page_of_none (suc n) cursor e =
      let m : ltb (suc n) 0 ≡ false = ground arith in rw (e, m) (refl, refl)

  pages_of_rows :
      (fuel n : ℕ) (cursor : Option Cursor) (rows : List (String × R))
      → rows_from number created matches cursor t ≡ rows
      → AreApart number created t
      → ((c : Cursor) → decode (encode c) ≡ some c)
      → length rows < fuel
      → read_pages fuel (suc n) cursor ≡ rows
  unfolding read_pages
  pages_of_rows zero n cursor rows e h r l = absurd (omega arith)
  pages_of_rows (suc fuel) n cursor [] e h r l =
      let (i, x) = page_of_none (suc n) cursor e in rw (i, x) refl
  pages_of_rows (suc fuel) n cursor (x ∷ xs) e h r l =
      let (i, c) = page_of_rows n x xs cursor e in
      let last_cursor = cursor_of number created (last x (take n xs)) in
      elim (Bool-cases (ltb n (length xs))) [
        | inl z ↦
            let d = r last_cursor in
            let next = next-rows_from number created matches t cursor n x xs h e in
            let later =
              pages_of_rows fuel n (some last_cursor) (drop n xs) next h r
                (ground (arith, length-drop n xs)) in
            rw (i, c, z, d, later) (ap (λ ys. x ∷ ys) (append-take-drop n xs))
        | inr z ↦
            rw (i, c, z) (ap (λ ys. x ∷ ys) (append-nil (take n xs) ∙ take_all n xs (ground arith)))
      ]

  -- If no two rows have one number, and a cursor decodes to what it encodes: with a limit of at least one
  -- row, the pages that are read one after the other, each from the cursor of the page before, are all
  -- the rows that the filter asks for, from the newest to the oldest, without a gap or a repetition.
  -- As many pages as there are rows, and one, are enough.
  pub read_pages_complete :
      (fuel limit : ℕ)
      → AreApart number created t
      → ((c : Cursor) → decode (encode c) ≡ some c)
      → 1 ≤ limit
      → length (rows_from number created matches none t) < fuel
      → read_pages fuel limit none ≡ rows_from number created matches none t
  read_pages_complete fuel zero h r l f = absurd (omega arith)
  read_pages_complete fuel (suc n) h r l f =
      pages_of_rows fuel n none (rows_from number created matches none t) refl h r f
