-- ===== src/Base/Sort.antt =====
-- `sort.Slice` by a text key, as an insertion sort.
use Prim.Native.String.{String, compare}
use mathlib.Core.List.{List, [], ◌∷◌}
use text.Mathlib.Text.{is_lt}
use po_c_go_live.Base.Tests.{if◌then◌else◌}

module _ {A : Type 0} (key : A → String) where
  pub insert : A → List A → List A
  insert a [] = a ∷ []
  insert a (b ∷ bs) =
      let rest = insert a bs in if is_lt (compare (key b) (key a)) then b ∷ rest else a ∷ b ∷ bs

  unfoldable pub sort_by : List A → List A
  unfolding insert
  sort_by [] = []
  sort_by (a ∷ rest) = insert a (sort_by rest)
