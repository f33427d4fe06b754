-- ===== src/Platform/Rules.antt =====
-- The rules of backend/internal/streamplatform as an invariant of its table.
use Prim.Native.Char.{Char}
use Prim.Native.String.{len}
use po_c_go_live.Base.{
  ◌≡◌, ℕ, ◌≤◌, String, false, ◌⊎◌, inl, inr, Option, none, some, List, [], ◌∷◌, arith, ◌==◌, eq_iff,
  Bool-cases, Option-cases,
}
use po_c_go_live.Dict.{get, put, del, find, find_none}
use po_c_go_live.Database.{
  Outcome-cases, ok, insert_unless-cases, IsUniqueBy, IsFree, put-IsUniqueBy, del-IsUniqueBy,
  AreRows, put-AreRows, del-AreRows,
}
use po_c_go_live.Platform.Model.{
  Platform, CreateRequest, UpdateRequest, normalize_slug, checked_slug, checked_display_name,
  new_platform, duplicate_slug, database_failed,
}
use po_c_go_live.Platform.Service.{
  stored, Table, Deps, has_slug, other_has_slug, create, with_slug, with_display_name,
  with_template, changed, update, delete,
}

pub data Command : Type 0 where
  creates : Deps → CreateRequest → Command
  updates : Deps → String → UpdateRequest → Command
  deletes : Deps → String → Command

abbrev pub key : Platform → Option String
key p = some p.slug

abbrev IsText : ℕ → String → Type 0
IsText most s = ((s == "") ≡ false) × (len s ≤ most)

checked_display_name-IsText :
    (text name : String) → checked_display_name text ≡ ok name → IsText 200 name
unfolding checked_display_name
checked_display_name-IsText text name e = ground arith

-- A platform that is in use is not deleted.
pub delete_cases :
    (d : Deps) (id : String) (t : Table)
    → ((delete d id t).1 ≡ t) ⊎ ((d.in_use id ≡ false) × ((delete d id t).1 ≡ del id t))
unfolding delete
delete_cases d id t = ground arith

module _ (lower : Char → Char) where
  unfoldable pub execute : Command → Table → Table
  execute (creates d req) t = (create lower d req t).1
  execute (updates d id req) t = (update lower d id req t).1
  execute (deletes d id) t = (delete d id t).1

  unfoldable pub run : List Command → Table → Table
  run [] t = t
  run (c ∷ cs) t = run cs (execute c t)

  -- The slug is the normal form of some text.
  abbrev pub IsPlatform : Platform → Type 0
  IsPlatform p =
      (IsText 100 p.slug × ((text : String) × (p.slug ≡ normalize_slug lower text)))
      × IsText 200 p.display_name

  abbrev pub ArePlatforms : Table → Type 0
  ArePlatforms t = IsUniqueBy key t × AreRows IsPlatform t

  checked_slug-IsText :
      (text slug : String)
      → checked_slug lower text ≡ ok slug
      → IsText 100 slug × ((raw : String) × (slug ≡ normalize_slug lower raw))
  unfolding checked_slug
  checked_slug-IsText text slug e = (ground arith, (text, ground arith))

  new_platform-IsPlatform :
      (req : CreateRequest) (now : ℕ) (p : Platform)
      → new_platform lower req now ≡ ok p
      → IsPlatform p
  unfolding new_platform
  new_platform-IsPlatform req now p e = elim (Outcome-cases (checked_slug lower req.slug)) [
    | inr (x, z) ↦ absurd (ground arith)
    | inl (slug, z) ↦ elim (Outcome-cases (checked_display_name req.display_name)) [
      | inr (x, y) ↦ absurd (ground arith)
      | inl (name, y) ↦
          let a : p.slug ≡ slug = ground arith in
          let b : p.display_name ≡ name = ground arith in
          rw (a, b)
            (
              checked_slug-IsText req.slug slug z,
              checked_display_name-IsText req.display_name name y,
            )
    ]
  ]

  IsFree-has_slug :
      (id : String) (p : Platform) (t : Table) → find (has_slug p.slug) t ≡ none → IsFree key id p t
  unfolding has_slug
  IsFree-has_slug id p t f j b k g n x y =
      ground (arith, find_none (has_slug p.slug) t j b f g, eq_iff b.slug p.slug)

  -- A create that is refused writes nothing.
  pub create_cases :
      (d : Deps) (req : CreateRequest) (t : Table)
      → ((create lower d req t).1 ≡ t)
        ⊎ ((p : Platform) × IsPlatform p
            × (find (has_slug p.slug) t ≡ none)
            × ((create lower d req t).1 ≡ put (d.random_uuid t) p t))
  unfolding create
  create_cases d req t = elim (Outcome-cases (new_platform lower req d.now)) [
    | inr (x, z) ↦ inl (ground arith)
    | inl (p, z) ↦
        elim (insert_unless-cases stored (has_slug p.slug) duplicate_slug database_failed
          (d.random_uuid t) p t) [
            | inl e ↦ inl (ground arith)
            | inr (f, k, e) ↦ elim (Bool-cases d.answers) [
              | inr a ↦ inl (ground arith)
              | inl a ↦ inr (stored p, new_platform-IsPlatform req d.now p z, f, ground arith)
            ]
          ]
  ]

  create-ArePlatforms :
      (d : Deps) (req : CreateRequest) (t : Table)
      → ArePlatforms t
      → ArePlatforms (create lower d req t).1
  create-ArePlatforms d req t h = elim (create_cases d req t) [
    | inl e ↦ rw e h
    | inr (p, g, f, e) ↦ rw e (
      put-IsUniqueBy key (d.random_uuid t) p t (IsFree-has_slug (d.random_uuid t) p t f) h.0,
      put-AreRows IsPlatform (d.random_uuid t) p t g h.1,
    )
  ]

  with_slug-keeps :
      (id : String) (text : Option String) (p p' : Platform) (t : Table)
      → with_slug lower id text p t ≡ ok p'
      → get id t ≡ some p
      → ArePlatforms t
      → IsFree key id p' t × IsPlatform p'
  unfolding with_slug other_has_slug
  with_slug-keeps id none p p' t e g h =
      let a : p' ≡ p = ground arith in
      rw a (λ j b k g' m x y. ground (arith, h.0 id j p b k g g' x y, eq_iff id j), h.1 id p g)
  with_slug-keeps id (some text) p p' t e g h = elim (Outcome-cases (checked_slug lower text)) [
    | inr (x, z) ↦ absurd (ground arith)
    | inl (slug, z) ↦ elim (Option-cases (find (other_has_slug id slug) t)) [
      | inr (o, y) ↦ absurd (ground arith)
      | inl y ↦
          let a : p' ≡ record p { slug = slug } = ground arith in
          rw a (
            λ j b k g' m x w. ground (
              arith,
              find_none (other_has_slug id slug) t j b y g',
              eq_iff b.slug slug,
              eq_iff j id,
              eq_iff id j,
            ),
            (checked_slug-IsText text slug z, (h.1 id p g).1),
          )
    ]
  ]

  -- The rest of an update leaves the slug.
  with_display_name-keeps :
      (id : String) (text : Option String) (p q : Platform) (t : Table)
      → with_display_name text p ≡ ok q
      → IsFree key id p t × IsPlatform p
      → IsFree key id q t × IsPlatform q
  unfolding with_display_name
  with_display_name-keeps id none p q t e h = let a : q ≡ p = ground arith in rw a h
  with_display_name-keeps id (some text) p q t e h =
      elim (Outcome-cases (checked_display_name text)) [
        | inr (x, z) ↦ absurd (ground arith)
        | inl (name, z) ↦
            let a : q ≡ record p { display_name = name } = ground arith in
            rw a (h.0, (h.1.0, checked_display_name-IsText text name z))
      ]

  with_template-keeps :
      (id : String) (text : Option String) (p : Platform) (t : Table)
      → IsFree key id p t × IsPlatform p
      → IsFree key id (with_template text p) t × IsPlatform (with_template text p)
  with_template-keeps id none p t h = h
  with_template-keeps id (some text) p t h = h

  changed-keeps :
      (id : String) (req : UpdateRequest) (p q : Platform) (t : Table)
      → changed lower id req p t ≡ ok q
      → get id t ≡ some p
      → ArePlatforms t
      → IsFree key id q t × IsPlatform q
  unfolding changed
  changed-keeps id req p q t e g h = elim (Outcome-cases (with_slug lower id req.slug p t)) [
    | inr (x, z) ↦ absurd (ground arith)
    | inl (p', z) ↦ elim (Outcome-cases (with_display_name req.display_name p')) [
      | inr (x, y) ↦ absurd (ground arith)
      | inl (r, y) ↦
          let a : q ≡ with_template req.ingest_url_template r = ground arith in
          rw a (
            with_template-keeps id req.ingest_url_template r t (
              with_display_name-keeps id req.display_name p' r t y
                (with_slug-keeps id req.slug p p' t z g h)))
    ]
  ]

  -- An update that is refused writes nothing.
  pub update_cases :
      (d : Deps) (id : String) (req : UpdateRequest) (t : Table)
      → ((update lower d id req t).1 ≡ t)
        ⊎ ((p : Platform) × (q : Platform) × (get id t ≡ some p)
            × (changed lower id req p t ≡ ok q)
            × ((update lower d id req t).1 ≡ put id q t))
  unfolding update
  update_cases d id req t = elim (Bool-cases d.answers) [
    | inr a ↦ inl (ground arith)
    | inl a ↦ elim (Option-cases (get id t)) [
      | inl z ↦ inl (ground arith)
      | inr (p, z) ↦ elim (Outcome-cases (changed lower id req p t)) [
        | inr (x, y) ↦ inl (ground arith)
        | inl (q, y) ↦ inr (p, q, z, y, ground arith)
      ]
    ]
  ]

  update-ArePlatforms :
      (d : Deps) (id : String) (req : UpdateRequest) (t : Table)
      → ArePlatforms t
      → ArePlatforms (update lower d id req t).1
  update-ArePlatforms d id req t h = elim (update_cases d id req t) [
    | inl e ↦ rw e h
    | inr (p, q, z, y, e) ↦
        let k = changed-keeps id req p q t y z h in
        rw e (put-IsUniqueBy key id q t k.0 h.0, put-AreRows IsPlatform id q t k.1 h.1)
  ]

  delete-ArePlatforms :
      (d : Deps) (id : String) (t : Table) → ArePlatforms t → ArePlatforms (delete d id t).1
  delete-ArePlatforms d id t h = elim (delete_cases d id t) [
    | inl e ↦ rw e h
    | inr (i, e) ↦ rw e (del-IsUniqueBy key id t h.0, del-AreRows IsPlatform id t h.1)
  ]

  pub execute-ArePlatforms : (c : Command) (t : Table) → ArePlatforms t → ArePlatforms (execute c t)
  unfolding execute
  execute-ArePlatforms (creates d req) t h = create-ArePlatforms d req t h
  execute-ArePlatforms (updates d id req) t h = update-ArePlatforms d id req t h
  execute-ArePlatforms (deletes d id) t h = delete-ArePlatforms d id t h

  -- Whatever is created, updated and deleted, and whether or not the database answers each time: no two
  -- platforms have one slug; a slug is in its normal form, lower case without space around it, not
  -- empty and of at most 100 bytes, and a display name is not empty and has at most 200. This goes on
  -- from any table where it holds.
  pub run-ArePlatforms : (cs : List Command) (t : Table) → ArePlatforms t → ArePlatforms (run cs t)
  unfolding run
  run-ArePlatforms [] t h = h
  run-ArePlatforms (c ∷ cs) t h = run-ArePlatforms cs (execute c t) (execute-ArePlatforms c t h)
