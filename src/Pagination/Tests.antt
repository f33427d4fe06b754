-- ===== src/Pagination/Tests.antt =====
-- A listing of three rows, and limits as a query has them.
use po_c_go_live.Base.{◌≤◌, String, ◌≡◌, refl, arith, Option, none, some, List, [], ◌∷◌}
use po_c_go_live.Pagination.Decimal.{atoi}
use po_c_go_live.Pagination.Request.{
  Request, ok, decode_cursor, parse_limit, parse_request, limit-bounds,
}
use po_c_go_live.Pagination.Page.{read_all, read_all_complete}

abbrev decode : String → Option String
decode text = some text

abbrev capped : Request String
capped = record { limit = 100; cursor = none }

parsed : parse_request decode "+500" "" ≡ ok capped
unfolding parse_request parse_limit decode_cursor atoi
parsed = refl

limit-bounds_example : (1 ≤ 100) × (100 ≤ 100)
limit-bounds_example = limit-bounds decode "+500" "" capped parsed

abbrev rows : List String
rows = "a" ∷ "b" ∷ "c" ∷ []

abbrev token : String → String
token row = row

read_all_complete_example : read_all 4 2 token rows ≡ rows
read_all_complete_example = read_all_complete 4 2 token rows (omega arith) (omega arith)
