-- ===== src/Store/Atomic.antt =====
-- A save of backend/internal/positions or backend/internal/scenes that is cut off, or fails.
use po_c_go_live.Base.{
  ◌≡◌, refl, ap, ◌∙◌, ◌⊎◌, inl, inr, String, Bool, true, false, Option, none, some, List, [], ◌∷◌,
  ◌++◌, arith, ◌==◌, eq_refl, if◌then◌else◌,
}
use po_c_go_live.Dict.{get, put, del, get-put, get-del}
use po_c_go_live.Store.{
  Files, Calls, load, rename, remove_temp, while_written, rename_over, close_temp, write_temp,
  save_text, save, last_files, decoded, with_temp, save_encoded,
}

-- Of all the files.
abbrev pub Each : (Files → Type 0) → List Files → Type 0
Each P [] = Unit
Each P (x ∷ xs) = P x × Each P xs

Each-append : (P : Files → Type 0) (xs ys : List Files) → Each P xs → Each P ys → Each P (xs ++ ys)
Each-append P [] ys h k = k
Each-append P (x ∷ xs) ys (p, h) k = (p, Each-append P xs ys h k)

last-append : (s x : Files) (xs ys : List Files) → last_files s (xs ++ x ∷ ys) ≡ last_files x ys
unfolding last_files
last-append s x [] ys = refl
last-append s x (y ∷ xs) ys = last-append y x xs ys

module _ (c : Calls) (path text tmp : String) (old : Option String)
    (apart : (tmp == path) ≡ false) where
  IsOld : Files → Type 0
  IsOld x = get path x ≡ old

  abbrev IsKept : Files → Type 0
  IsKept x = (get path x ≡ old) ⊎ (get path x ≡ some text)

  put_temp : (x : String) (s : Files) → get path (put tmp x s) ≡ get path s
  put_temp x s = ground (arith, get-put tmp path x s)

  removed_temp : (s : Files) → get path (remove_temp c tmp s) ≡ get path s
  unfolding remove_temp
  removed_temp s = ground (arith, get-del tmp path s)

  renamed_path : (s : Files) → get path (rename tmp path (put tmp text s)) ≡ some text
  unfolding rename
  renamed_path s = ground (
    arith,
    get-put tmp tmp text s,
    eq_refl tmp,
    eq_refl path,
    get-put path path text (del tmp (put tmp text s)),
  )

  -- Of what a part of `Save` did to files that hold what there was.
  abbrev IsSafe : Files → Bool × List Files → Type 0
  IsSafe s (ok, xs) = Each IsKept xs × (ok ≡ true → get path (last_files s xs) ≡ some text)

  choice-IsSafe :
      (s : Files) (b : Bool) (x y : Bool × List Files)
      → IsSafe s x
      → IsSafe s y
      → IsSafe s (if b then x else y)
  choice-IsSafe s true x y h k = h
  choice-IsSafe s false x y h k = k

  -- A step after which nothing but the temporary file is touched, and that fails.
  failed-IsSafe : (s x : Files) → get path x ≡ old → IsSafe s (false, remove_temp c tmp x ∷ [])
  failed-IsSafe s x h = ((inl (removed_temp x ∙ h), tt), λ e. ground arith)

  rename_over-IsSafe :
      (s : Files)
      → get path s ≡ old
      → IsSafe (put tmp text s) (rename_over c path text tmp (put tmp text s))
  unfolding rename_over last_files
  rename_over-IsSafe s h =
      let e = removed_temp (rename tmp path (put tmp text s)) ∙ renamed_path s in
      choice-IsSafe (put tmp text s) c.renames _ _ ((inr (renamed_path s), (inr e, tt)), λ x. e)
        (failed-IsSafe (put tmp text s) (put tmp text s) (put_temp text s ∙ h))

  close_temp-IsSafe :
      (s : Files)
      → get path s ≡ old
      → IsSafe (put tmp text s) (close_temp c path text tmp (put tmp text s))
  unfolding close_temp
  close_temp-IsSafe s h =
      choice-IsSafe (put tmp text s) c.closes _ _ (rename_over-IsSafe s h)
        (failed-IsSafe (put tmp text s) (put tmp text s) (put_temp text s ∙ h))

  while_written-Each :
      (s : Files) (xs : List String) → get path s ≡ old → Each IsKept (while_written tmp s xs)
  unfolding while_written
  while_written-Each s [] h = tt
  while_written-Each s (x ∷ xs) h = (inl (put_temp x s ∙ h), while_written-Each s xs h)

  last-while_written :
      (s x : Files) (xs : List String)
      → get path s ≡ old
      → get path x ≡ old
      → get path (last_files x (while_written tmp s xs)) ≡ old
  unfolding while_written last_files
  last-while_written s x [] h k = k
  last-while_written s x (y ∷ xs) h k = last-while_written s (put tmp y s) xs h (put_temp y s ∙ h)

  write_temp-IsSafe : (s : Files) → get path s ≡ old → IsSafe s (write_temp c path text tmp s)
  unfolding write_temp
  write_temp-IsSafe s h =
      let parts = while_written tmp s c.parts in
      let w = while_written-Each s c.parts h in
      let (k, f) = close_temp-IsSafe s h in
      let (k', f') = failed-IsSafe s (last_files s parts) (last-while_written s s c.parts h h) in
      choice-IsSafe s c.writes _ _
        (
          Each-append IsKept parts _ w (inl (put_temp text s ∙ h), k),
          λ e. ap (get path) (last-append s (put tmp text s) parts _) ∙ f e,
        )
        (Each-append IsKept parts _ w k', λ e. ground arith)

module _ {A : Type 0} (encode : List A → Option String) (decode : String → Option (List A)) where
  -- `json.Unmarshal` reads what `json.MarshalIndent` has written.
  abbrev pub IsCodec : Type 0
  IsCodec = (xs : List A) (text : String) → encode xs ≡ some text → decode text ≡ some xs

  -- The temporary file is not the file that is saved to.
  abbrev pub IsApart : Calls → String → Type 0
  IsApart c path = (tmp : String) → c.temp ≡ some tmp → (tmp == path) ≡ false

  load-same :
      (path : String) (x s : Files)
      → get path x ≡ get path s
      → load decode true path x ≡ load decode true path s
  unfolding load
  load-same path x s e = ap (decoded decode) e

  load-new :
      (path text : String) (xs : List A) (x : Files)
      → decode text ≡ some xs
      → get path x ≡ some text
      → load decode true path x ≡ some xs
  unfolding load
  load-new path text xs x d e = ap (decoded decode) e ∙ d

  -- What `Load` returns.
  abbrev pub IsEither : String → List A → Files → Files → Type 0
  IsEither path xs s x =
      (load decode true path x ≡ load decode true path s) ⊎ (load decode true path x ≡ some xs)

  kept-IsEither :
      (path text : String) (xs : List A) (s : Files) (ss : List Files)
      → decode text ≡ some xs
      → Each (λ x. (get path x ≡ get path s) ⊎ (get path x ≡ some text)) ss
      → Each (IsEither path xs s) ss
  kept-IsEither path text xs s [] d h = tt
  kept-IsEither path text xs s (x ∷ ss) d (inl e, h) =
      (inl (load-same path x s e), kept-IsEither path text xs s ss d h)
  kept-IsEither path text xs s (x ∷ ss) d (inr e, h) =
      (inr (load-new path text xs x d e), kept-IsEither path text xs s ss d h)

  abbrev IsSaved : String → List A → Files → Bool × List Files → Type 0
  IsSaved path xs s (ok, ss) =
      Each (IsEither path xs s) ss × (ok ≡ true → load decode true path (last_files s ss) ≡ some xs)

  with_temp-IsSaved :
      (c : Calls) (path text : String) (xs : List A) (s : Files) (o : Option String)
      → decode text ≡ some xs
      → ((tmp : String) → o ≡ some tmp → (tmp == path) ≡ false)
      → IsSaved path xs s (with_temp c path text o s)
  unfolding last_files
  with_temp-IsSaved c path text xs s none d a = (tt, λ e. ground arith)
  with_temp-IsSaved c path text xs s (some tmp) d a =
      let n = a tmp refl in
      let e = put_temp c path text tmp (get path s) n "" s in
      let (k, f) = write_temp-IsSafe c path text tmp (get path s) n (put tmp "" s) e in
      (
        (inl (load-same path (put tmp "" s) s e), kept-IsEither path text xs s _ d k),
        λ x. load-new path text xs _ d (f x),
      )

  save_text-IsSaved :
      (c : Calls) (path text : String) (xs : List A) (s : Files) (b : Bool)
      → IsSaved path xs s (with_temp c path text c.temp s)
      → IsSaved path xs s (if b then with_temp c path text c.temp s else (false, []))
  save_text-IsSaved c path text xs s true h = h
  save_text-IsSaved c path text xs s false h = (tt, λ e. ground arith)

  save_encoded-IsSaved :
      (c : Calls) (path : String) (xs : List A) (s : Files) (o : Option String)
      → ((text : String) → o ≡ some text → decode text ≡ some xs)
      → IsApart c path
      → IsSaved path xs s (save_encoded c path o s)
  unfolding save_text
  save_encoded-IsSaved c path xs s none k a = (tt, λ e. ground arith)
  save_encoded-IsSaved c path xs s (some text) k a =
      save_text-IsSaved c path text xs s c.makes_dir
        (with_temp-IsSaved c path text xs s c.temp (k text refl) a)

  -- If a save's text is read back, and its temporary file is another than the file: after each call of the
  -- system that `Save` makes, `Load` of a readable file returns what it returned before, or what is saved,
  -- also while the temporary file is written, and whichever call fails. If `Save` succeeds, it returns what
  -- is saved.
  pub save-load :
      (c : Calls) (path : String) (xs : List A) (s : Files)
      → IsCodec
      → IsApart c path
      → Each (IsEither path xs s) (save encode c path xs s).1
        × ((save encode c path xs s).0 ≡ true
            → load decode true path (last_files s (save encode c path xs s).1) ≡ some xs)
  unfolding save
  save-load c path xs s k a = save_encoded-IsSaved c path xs s (encode xs) (k xs) a
