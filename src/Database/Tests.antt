-- ===== src/Database/Tests.antt =====
-- A listing of three rows, two of them of one time.
use Prim.Native.String.{len}
use po_c_go_live.Base.{◌≡◌, refl, ℕ, [], ◌∷◌, ◌<◌, length, String, Bool, true, none, arith}
use po_c_go_live.Dict.{Dict}
use po_c_go_live.Database.Listing.{filter, before, place, ordered, rows_from}
use po_c_go_live.Database.Codes.{encode, decode, decode-encode}
use po_c_go_live.Database.Complete.{read_pages, read_pages_complete}

abbrev rows : Dict ℕ
rows = ("a", 1) ∷ ("bb", 2) ∷ ("ccc", 2) ∷ []

abbrev all_rows : String × ℕ → Bool
all_rows x = true

abbrev created : ℕ → ℕ
created n = n

short : length (rows_from len created all_rows none rows) < 4
unfolding rows_from ordered place before filter
short = omega arith

read_pages_complete_example :
    read_pages len created encode decode all_rows rows 4 2 none
    ≡ ("ccc", 2) ∷ ("bb", 2) ∷ ("a", 1) ∷ []
unfolding rows_from ordered place before filter
read_pages_complete_example =
    read_pages_complete len created encode decode all_rows rows 4 2
      ((refl, (refl, tt)), ((refl, tt), (tt, tt))) decode-encode (omega arith) short
