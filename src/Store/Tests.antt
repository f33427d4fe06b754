-- ===== src/Store/Tests.antt =====
-- A list of texts, each of one line, in a file.
use mathlib.Core.Option.{some-injective}
use po_c_go_live.Base.{
  ◌≡◌, refl, subst, String, Bool, true, false, Option, none, some, List, [], ◌∷◌, ◌==◌, arith,
}
use po_c_go_live.Store.{Files, Calls, load, save, last_files}
use po_c_go_live.Store.Atomic.{Each, IsEither, IsCodec, save-load}

-- Only lists of one text have a text.
abbrev encode : List String → Option String
encode (x ∷ []) = some x
encode _ = none

abbrev decode : String → Option (List String)
decode text = some (text ∷ [])

encode-IsCodec : IsCodec encode decode
encode-IsCodec [] text e = ground arith
encode-IsCodec (x ∷ []) text e = ground arith
encode-IsCodec (x ∷ (y ∷ xs)) text e = ground arith

-- The disk is full after a part of the text.
abbrev calls : Bool → Calls
calls enough = record {
  makes_dir = true;
  temp = some ".scenes-1.tmp";
  parts = "Aber" ∷ [];
  writes = enough;
  closes = true;
  renames = true;
  removes = false;
}

abbrev before : Files
before = ("scenes.json", "Palco") ∷ []

save-load_example :
    Each
      (IsEither encode decode "scenes.json" ("Abertura" ∷ []) before)
      (save encode (calls true) "scenes.json" ("Abertura" ∷ []) before).1
    × ((save encode (calls true) "scenes.json" ("Abertura" ∷ []) before).0 ≡ true
        → load decode true "scenes.json"
            (last_files before (save encode (calls true) "scenes.json" ("Abertura" ∷ []) before).1)
          ≡ some ("Abertura" ∷ []))
save-load_example =
    save-load encode decode (calls true) "scenes.json" ("Abertura" ∷ []) before encode-IsCodec
      (λ tmp e.
        subst (λ t. (t == "scenes.json") ≡ false) (some-injective ".scenes-1.tmp" tmp e) refl)
