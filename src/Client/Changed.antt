-- ===== src/Client/Changed.antt =====
-- What `Update` and `Delete` of backend/internal/client/service.go do to its rules.
use po_c_go_live.Base.{
  ◌≡◌, String, Bool, true, false, ◌⊎◌, inl, inr, Option, none, some, arith, eq_iff, Bool-cases,
  Option-cases,
}
use po_c_go_live.Dict.{get, put, find, find_none}
use po_c_go_live.Database.{Outcome-cases, ok, IsFree, put-IsUniqueBy, put-AreRows}
use po_c_go_live.Client.Model.{Client, UpdateFields, normalize_name}
use po_c_go_live.Client.Service.{
  Table, Deps, named_other, row, checked_name, checked_email, with_name, with_email, unless_deleted,
  change, update, delete,
}
use po_c_go_live.Client.Valid.{
  key, IsName, IsEmail, IsClient, AreClients, normalize_name-IsName, normalize_email-IsEmail,
}

get-row :
    (id : String) (t : Table) (c : Client)
    → row id t ≡ some c
    → (get id t ≡ some c) × (c.is_deleted ≡ false)
unfolding row unless_deleted
get-row id t c e = elim (Option-cases (get id t)) [
  | inl z ↦ ground arith
  | inr (b, z) ↦ ground arith
]

checked_name-IsName :
    (text : Option String) (name : String) → checked_name text ≡ ok (some name) → IsName name
checked_name-IsName none name e = ground arith
checked_name-IsName (some text) name e = elim (Outcome-cases (normalize_name text)) [
  | inr (x, z) ↦ ground arith
  | inl (n, z) ↦ let a : name ≡ n = ground arith in rw a (normalize_name-IsName text n z)
]

-- A name that was checked, if there is one.
abbrev AreChecked : Option String → Type 0
AreChecked none = Unit
AreChecked (some name) = IsName name

checked_name-AreChecked :
    (text name : Option String) → checked_name text ≡ ok name → AreChecked name
checked_name-AreChecked text none e = tt
checked_name-AreChecked text (some name) e = checked_name-IsName text name e

with_name-keeps :
    (id : String) (name : Option String) (c c' : Client) (t : Table)
    → with_name id name c t ≡ ok c'
    → AreChecked name
    → get id t ≡ some c
    → AreClients t
    → IsFree key id c' t × IsClient c'
unfolding with_name named_other
with_name-keeps id none c c' t e n g h =
    let a : c' ≡ c = ground arith in
    rw a (λ j b k g' m x y. ground (arith, h.0 id j c b k g g' x y, eq_iff id j), h.1 id c g)
with_name-keeps id (some name) c c' t e n g h = elim (Option-cases (find (named_other id name) t)) [
  | inr (o, z) ↦ absurd (ground arith)
  | inl z ↦
      let a : c' ≡ record c { name = name } = ground arith in
      rw a (
        λ j b k g' m x y. ground (
          arith,
          find_none (named_other id name) t j b z g',
          eq_iff b.name name,
          eq_iff j id,
          eq_iff id j,
        ),
        (n, (h.1 id c g).1),
      )
]

pub change_cases :
    (id : String) (name : Option String) (set : Bool) (email : Option String) (t : Table)
    → ((change id name set email t).1 ≡ t)
      ⊎ ((c : Client) × (c' : Client) × (get id t ≡ some c)
          × (with_name id name c t ≡ ok c')
          × ((change id name set email t).1 ≡ put id (with_email set email c') t))
unfolding change
change_cases id name set email t = elim (Option-cases (row id t)) [
  | inl z ↦ inl (ground arith)
  | inr (c, z) ↦ elim (Outcome-cases (with_name id name c t)) [
    | inr (x, y) ↦ inl (ground arith)
    | inl (c', y) ↦ inr (c, c', (get-row id t c z).0, y, ground arith)
  ]
]

with_email-keeps :
    (id : String) (set : Bool) (email : Option String) (c : Client) (t : Table)
    → IsEmail email
    → IsFree key id c t × IsClient c
    → IsFree key id (with_email set email c) t × IsClient (with_email set email c)
with_email-keeps id true email c t m h = (h.0, (h.1.0, m))
with_email-keeps id false email c t m h = h

change-AreClients :
    (id : String) (name : Option String) (set : Bool) (email : Option String) (t : Table)
    → AreChecked name
    → IsEmail email
    → AreClients t
    → AreClients (change id name set email t).1
change-AreClients id name set email t n m h = elim (change_cases id name set email t) [
  | inl e ↦ rw e h
  | inr (c, c', g, w, e) ↦
      let k = with_email-keeps id set email c' t m (with_name-keeps id name c c' t w n g h) in
      rw e (
        put-IsUniqueBy key id (with_email set email c') t k.0 h.0,
        put-AreRows IsClient id (with_email set email c') t k.1 h.1,
      )
]

checked_email-IsEmail :
    (f : UpdateFields) (email : Option String) → checked_email f ≡ ok email → IsEmail email
checked_email-IsEmail f email e = elim (Bool-cases f.email_set) [
  | inl z ↦ normalize_email-IsEmail f.email_value email (rw z at e)
  | inr z ↦ let a : email ≡ none = ground arith in rw a tt
]

pub update_cases :
    (d : Deps) (id : String) (f : UpdateFields) (t : Table)
    → ((update d id f t).1 ≡ t)
      ⊎ ((name : Option String) × (email : Option String) × AreChecked name
          × IsEmail email
          × ((update d id f t).1 ≡ (change id name f.email_set email t).1))
unfolding update
update_cases d id f t = elim (Outcome-cases (checked_name f.name)) [
  | inr (x, z) ↦ inl (ground arith)
  | inl (name, z) ↦ elim (Outcome-cases (checked_email f)) [
    | inr (x, y) ↦ inl (ground arith)
    | inl (email, y) ↦ elim (Bool-cases d.answers) [
      | inr w ↦ inl (ground arith)
      | inl w ↦ inr (
        name,
        email,
        checked_name-AreChecked f.name name z,
        checked_email-IsEmail f email y,
        ground arith,
      )
    ]
  ]
]

pub update-AreClients :
    (d : Deps) (id : String) (f : UpdateFields) (t : Table)
    → AreClients t
    → AreClients (update d id f t).1
update-AreClients d id f t h = elim (update_cases d id f t) [
  | inl e ↦ rw e h
  | inr (name, email, n, m, e) ↦ rw e (change-AreClients id name f.email_set email t n m h)
]

pub delete_cases :
    (d : Deps) (id : String) (t : Table)
    → ((delete d id t).1 ≡ t)
      ⊎ ((c : Client) × (get id t ≡ some c)
          × ((delete d id t).1 ≡ put id (record c { is_deleted = true }) t))
unfolding delete
delete_cases d id t = elim (Bool-cases d.answers) [
  | inr w ↦ inl (ground arith)
  | inl w ↦ elim (Option-cases (row id t)) [
    | inl z ↦ inl (ground arith)
    | inr (c, z) ↦ inr (c, (get-row id t c z).0, ground arith)
  ]
]

pub delete-AreClients :
    (d : Deps) (id : String) (t : Table) → AreClients t → AreClients (delete d id t).1
delete-AreClients d id t h = elim (delete_cases d id t) [
  | inl e ↦ rw e h
  | inr (c, g, e) ↦ rw e (
    put-IsUniqueBy key id (record c { is_deleted = true }) t (λ j b k g' n x y. ground arith) h.0,
    put-AreRows IsClient id (record c { is_deleted = true }) t (h.1 id c g) h.1,
  )
]
