-- ===== src/Database/Listing.antt =====
-- The listings of backend/internal/client, ingest, streamplatform and liveid: the query that each `List`
-- builds, and its page.
use po_c_go_live.Base.{
  ℕ, suc, String, Bool, true, false, ◌&&◌, ◌||◌, not, ◌==◌, Option, none, some, List, [], ◌∷◌, ltb,
  eqb, take, if◌then◌else◌,
}
use po_c_go_live.Dict.{Dict}
use po_c_go_live.Pagination.Page.{Page, new_page}
use po_c_go_live.Pagination.Request.{Request}

-- `pagination.Cursor`: a time of creation and an identifier.
abbrev pub Cursor : Type 0
Cursor = ℕ × String

-- A condition of a query that is left out if the filter has no value for it.
abbrev pub is_text : Option String → String → Bool
is_text none s = true
is_text (some t) s = s == t

abbrev pub is_flag : Option Bool → Bool → Bool
is_flag none b = true
is_flag (some true) b = b
is_flag (some false) b = not b

module _ {A : Type 0} where
  unfoldable pub filter : (A → Bool) → List A → List A
  filter p [] = []
  filter p (x ∷ xs) = let rest = filter p xs in if p x then x ∷ rest else rest

-- `number` is the order of Postgres on identifiers: that of the numbers that they are.
module _ (number : String → ℕ) where
  -- (created_at, id) < (?, ?), with the greater one first.
  unfoldable pub before : Cursor → Cursor → Bool
  before (c, i) (c', i') = ltb c' c || eqb c c' && ltb (number i') (number i)

  module _ {R : Type 0} (created : R → ℕ) where
    abbrev pub cursor_of : String × R → Cursor
    cursor_of (id, r) = (created r, id)

    -- ORDER BY created_at DESC, id DESC
    unfoldable pub place : String × R → List (String × R) → List (String × R)
    place x [] = x ∷ []
    place x (y ∷ ys) =
        let rest = place x ys in if before (cursor_of x) (cursor_of y) then x ∷ y ∷ ys else y ∷ rest

    unfoldable pub ordered : List (String × R) → List (String × R)
    unfolding place
    ordered [] = []
    ordered (x ∷ xs) = place x (ordered xs)

    -- The rows that a query asks for, before its limit.
    unfoldable pub rows_from : (String × R → Bool) → Option Cursor → Dict R → List (String × R)
    unfolding ordered
    rows_from matches none t = ordered (filter matches t)
    rows_from matches (some k) t = filter (λ x. before k (cursor_of x)) (ordered (filter matches t))

    -- `List`, once its filter is checked: LIMIT is one row more than the page's. `encode` is
    -- `Cursor.Encode`.
    unfoldable pub list_rows :
        (Cursor → String) → (String × R → Bool) → Request Cursor → Dict R → Page (String × R)
    unfolding rows_from
    list_rows encode matches req t =
        new_page (take (suc req.limit) (rows_from matches req.cursor t)) req.limit
          (λ x. encode (cursor_of x))
