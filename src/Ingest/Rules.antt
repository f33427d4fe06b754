-- ===== src/Ingest/Rules.antt =====
-- The rules of backend/internal/ingest as an invariant of its table.
use po_c_go_live.Base.{
  ◌≡◌, refl, ℕ, String, Bool, true, false, ◌⊎◌, inl, inr, Option, none, some, List, [], ◌∷◌, arith,
  eq_iff, contains, Bool-cases, Option-cases,
}
use po_c_go_live.Base.Text.{trim_space}
use po_c_go_live.Dict.{get, put, del, find, find_none}
use po_c_go_live.Database.{
  Outcome-cases, ok, insert_unless-cases, IsUniqueBy, IsFree, put-IsUniqueBy, del-IsUniqueBy,
  AreRows, put-AreRows, del-AreRows,
}
use po_c_go_live.Ingest.Model.{
  Urls, Url, Ingest, CreateRequest, UpdateRequest, valid_protocols, active_or_default,
  parse_protocol, validate_url, parse_and_validate_url, new_ingest, change_url, duplicate_url,
  database_failed,
}
use po_c_go_live.Ingest.Service.{
  stored, Table, Deps, has_url, other_has_url, create_row, create, with_url, with_active, change,
  is_empty, update, delete,
}

pub data Command : Type 0 where
  creates : Deps → String → CreateRequest → Command
  updates : Deps → String → UpdateRequest → Command
  deletes : Deps → String → Command

unfoldable pub execute : Urls → Command → Table → Table
execute u (creates d client req) t = (create u d client req t).1
execute u (updates d id req) t = (update u d id req t).1
execute u (deletes d id) t = (delete d id t).1

unfoldable pub run : Urls → List Command → Table → Table
run u [] t = t
run u (c ∷ cs) t = run u cs (execute u c t)

abbrev pub key : Ingest → Option (String × String)
key r = some (r.client_id, r.url)

module _ (u : Urls) where
  -- The protocol is one of the five, and goes with the URL.
  abbrev pub IsDerived : String → String → Type 0
  IsDerived url protocol =
      (contains protocol valid_protocols ≡ true)
      × ((raw : String) × (parse_and_validate_url u raw ≡ ok (url, protocol)))

  abbrev pub IsIngest : Ingest → Type 0
  IsIngest r = IsDerived r.url r.protocol

  abbrev pub AreIngests : Table → Type 0
  AreIngests t = IsUniqueBy key t × AreRows IsIngest t

  parse_protocol-valid :
      (text p : String) → parse_protocol u text ≡ ok p → contains p valid_protocols ≡ true
  unfolding parse_protocol
  parse_protocol-valid text p e = ground arith

  validate_url-valid :
      (l : Url) (url p : String)
      → validate_url u l ≡ ok (url, p)
      → contains p valid_protocols ≡ true
  unfolding validate_url
  validate_url-valid l url p e = elim (Outcome-cases (parse_protocol u l.scheme)) [
    | inr (x, z) ↦ ground arith
    | inl (q, z) ↦ ground (arith, parse_protocol-valid l.scheme q z)
  ]

  parse-IsDerived :
      (raw url p : String) → parse_and_validate_url u raw ≡ ok (url, p) → IsDerived url p
  unfolding parse_and_validate_url
  parse-IsDerived raw url p e = elim (Option-cases (u.parse_url (trim_space raw))) [
    | inl z ↦ absurd (ground arith)
    | inr (l, z) ↦ (ground (arith, validate_url-valid l url p), (raw, e))
  ]

  new_ingest-IsIngest :
      (client raw : String) (active : Bool) (now : ℕ) (r : Ingest)
      → new_ingest u client raw active now ≡ ok r
      → IsIngest r
  unfolding new_ingest
  new_ingest-IsIngest client raw active now r e =
      elim (Outcome-cases (parse_and_validate_url u raw)) [
        | inr (x, z) ↦ absurd (ground arith)
        | inl ((url, p), z) ↦
            let a : r.url ≡ url = ground arith in
            let b : r.protocol ≡ p = ground arith in rw (a, b) (parse-IsDerived raw url p z)
      ]

  change_url-IsIngest :
      (raw : String) (r r' : Ingest)
      → change_url u raw r ≡ ok r'
      → IsIngest r' × (r'.client_id ≡ r.client_id)
  unfolding change_url
  change_url-IsIngest raw r r' e = elim (Outcome-cases (parse_and_validate_url u raw)) [
    | inr (x, z) ↦ absurd (ground arith)
    | inl ((url, p), z) ↦
        let a : r'.url ≡ url = ground arith in
        let b : r'.protocol ≡ p = ground arith in
        (rw (a, b) (parse-IsDerived raw url p z), ground arith)
  ]

  IsFree-has_url :
      (id : String) (r : Ingest) (t : Table)
      → find (has_url r.client_id r.url) t ≡ none
      → IsFree key id r t
  unfolding has_url
  IsFree-has_url id r t f j b k g n x y = ground (
    arith,
    find_none (has_url r.client_id r.url) t j b f g,
    eq_iff b.client_id r.client_id,
    eq_iff b.url r.url,
  )

  -- A create that is refused writes nothing, and another has found its client.
  pub create_cases :
      (d : Deps) (client : String) (req : CreateRequest) (t : Table)
      → ((create u d client req t).1 ≡ t)
        ⊎ ((r : Ingest) × IsIngest r
            × (d.client_exists r.client_id ≡ some true)
            × (find (has_url r.client_id r.url) t ≡ none)
            × ((create u d client req t).1 ≡ put (d.random_uuid t) r t))
  unfolding create create_row
  create_cases d client req t =
      elim (Outcome-cases (new_ingest u client req.url (active_or_default req.is_active) d.now)) [
        | inr (x, z) ↦ inl (ground arith)
        | inl (r, z) ↦
            let g =
              new_ingest-IsIngest client req.url (active_or_default req.is_active) d.now r z in
            elim (insert_unless-cases stored (has_url r.client_id r.url) duplicate_url
              database_failed (d.random_uuid t) r t) [
                | inl e ↦ inl (ground arith)
                | inr (f, k, e) ↦ elim (Bool-cases d.answers) [
                  | inr a ↦ inl (ground arith)
                  | inl a ↦ elim (Option-cases (d.client_exists r.client_id)) [
                    | inl b ↦ inl (ground arith)
                    | inr (false, b) ↦ inl (ground arith)
                    | inr (true, b) ↦ inr (stored r, g, b, f, ground arith)
                  ]
                ]
              ]
      ]

  create-AreIngests :
      (d : Deps) (client : String) (req : CreateRequest) (t : Table)
      → AreIngests t
      → AreIngests (create u d client req t).1
  create-AreIngests d client req t h = elim (create_cases d client req t) [
    | inl e ↦ rw e h
    | inr (r, g, b, f, e) ↦ rw e (
      put-IsUniqueBy key (d.random_uuid t) r t (IsFree-has_url (d.random_uuid t) r t f) h.0,
      put-AreRows IsIngest (d.random_uuid t) r t g h.1,
    )
  ]

  with_url-keeps :
      (id : String) (raw : Option String) (r r' : Ingest) (t : Table)
      → with_url u id raw r t ≡ ok r'
      → get id t ≡ some r
      → AreIngests t
      → IsFree key id r' t × (IsIngest r' × (r'.client_id ≡ r.client_id))
  unfolding with_url other_has_url
  with_url-keeps id none r r' t e g h =
      let a : r' ≡ r = ground arith in
      rw a
        (λ j b k g' m x y. ground (arith, h.0 id j r b k g g' x y, eq_iff id j), (h.1 id r g, refl))
  with_url-keeps id (some raw) r r' t e g h = elim (Outcome-cases (change_url u raw r)) [
    | inr (x, z) ↦ absurd (ground arith)
    | inl (q, z) ↦ elim (Option-cases (find (other_has_url id q.client_id q.url) t)) [
      | inr (o, y) ↦ absurd (ground arith)
      | inl y ↦
          let a : r' ≡ q = ground arith in
          rw a (
            λ j b k g' m x w. ground (
              arith,
              find_none (other_has_url id q.client_id q.url) t j b y g',
              eq_iff b.client_id q.client_id,
              eq_iff b.url q.url,
              eq_iff j id,
              eq_iff id j,
            ),
            change_url-IsIngest raw r q z,
          )
    ]
  ]

  with_active-keeps :
      (id : String) (active : Option Bool) (r : Ingest) (t : Table) (client : String)
      → IsFree key id r t × (IsIngest r × (r.client_id ≡ client))
      → IsFree key id (with_active active r) t
        × (IsIngest (with_active active r) × ((with_active active r).client_id ≡ client))
  with_active-keeps id none r t client h = h
  with_active-keeps id (some b) r t client h = h

  -- An update that is refused writes nothing, and another keeps the client.
  pub update_cases :
      (d : Deps) (id : String) (req : UpdateRequest) (t : Table)
      → AreIngests t
      → ((update u d id req t).1 ≡ t)
        ⊎ ((r : Ingest) × (r' : Ingest) × (get id t ≡ some r)
            × (IsFree key id r' t × (IsIngest r' × (r'.client_id ≡ r.client_id)))
            × ((update u d id req t).1 ≡ put id r' t))
  unfolding update change
  update_cases d id req t h = elim (Bool-cases d.answers) [
    | inr a ↦ inl (ground arith)
    | inl a ↦ elim (Option-cases (get id t)) [
      | inl z ↦ inl (ground arith)
      | inr (r, z) ↦ elim (Outcome-cases (with_url u id req.url r t)) [
        | inr (x, y) ↦ inl (ground arith)
        | inl (r', y) ↦ elim (Bool-cases (is_empty req)) [
          | inl w ↦ inl (ground arith)
          | inr w ↦ inr (
            r,
            with_active req.is_active r',
            z,
            with_active-keeps id req.is_active r' t r.client_id
                (with_url-keeps id req.url r r' t y z h),
            ground arith,
          )
        ]
      ]
    ]
  ]

  update-AreIngests :
      (d : Deps) (id : String) (req : UpdateRequest) (t : Table)
      → AreIngests t
      → AreIngests (update u d id req t).1
  update-AreIngests d id req t h = elim (update_cases d id req t h) [
    | inl e ↦ rw e h
    | inr (r, r', z, k, e) ↦
        rw e (put-IsUniqueBy key id r' t k.0 h.0, put-AreRows IsIngest id r' t k.1.0 h.1)
  ]

  pub delete_cases :
      (d : Deps) (id : String) (t : Table)
      → ((delete d id t).1 ≡ t) ⊎ ((delete d id t).1 ≡ del id t)
  unfolding delete
  delete_cases d id t = ground arith

  delete-AreIngests :
      (d : Deps) (id : String) (t : Table) → AreIngests t → AreIngests (delete d id t).1
  delete-AreIngests d id t h = elim (delete_cases d id t) [
    | inl e ↦ rw e h
    | inr e ↦ rw e (del-IsUniqueBy key id t h.0, del-AreRows IsIngest id t h.1)
  ]

  pub execute-AreIngests : (c : Command) (t : Table) → AreIngests t → AreIngests (execute u c t)
  unfolding execute
  execute-AreIngests (creates d client req) t h = create-AreIngests d client req t h
  execute-AreIngests (updates d id req) t h = update-AreIngests d id req t h
  execute-AreIngests (deletes d id) t h = delete-AreIngests d id t h

  -- Whatever is created, updated and deleted, and whether or not the database answers each time: no
  -- client has two ingests of one URL, and the protocol of an ingest is one of the five and the one
  -- that goes with its URL. This goes on from any table where it holds.
  pub run-AreIngests : (cs : List Command) (t : Table) → AreIngests t → AreIngests (run u cs t)
  unfolding run
  run-AreIngests [] t h = h
  run-AreIngests (c ∷ cs) t h = run-AreIngests cs (execute u c t) (execute-AreIngests c t h)
