-- ===== src/Client/Reads.antt =====
-- What `GetByID` of backend/internal/client/service.go returns after `Create` and `Update`.
use Prim.Native.Nat.{◌/◌, ◌*◌}
use po_c_go_live.Base.{
  ◌≡◌, refl, ap, sym, ◌∙◌, String, Bool, true, false, inl, inr, Option, none, some, arith, eq_iff,
  Bool-cases, Option-cases,
}
use po_c_go_live.Dict.{get, put, find, get-put}
use po_c_go_live.Database.{Outcome-cases, ok, insert_unless, insert_row}
use po_c_go_live.Client.Model.{
  Client, CreateRequest, UpdateFields, normalize_name, normalize_email, new_client, duplicate_name,
  database_failed,
}
use po_c_go_live.Client.Service.{
  stored, Table, Deps, named, row, unless_deleted, create, get_by_id, checked_name, checked_email,
  with_name, named_other, with_email, change, update,
}

-- A database that answers returns a row that is not deleted.
get_by_id-found :
    (d : Deps) (id : String) (t : Table) (c : Client)
    → d.answers ≡ true
    → get id t ≡ some c
    → c.is_deleted ≡ false
    → get_by_id d id t ≡ ok c
unfolding get_by_id row unless_deleted
get_by_id-found d id t c a g n = ground arith

new_client_there :
    (name : String) (email : Option String) (d : Deps) (c : Client)
    → new_client name email d.now ≡ ok c
    → c.is_deleted ≡ false
unfolding new_client
new_client_there name email d c e = elim (Outcome-cases (normalize_name name)) [
  | inr (x, z) ↦ absurd (ground arith)
  | inl (n, z) ↦ elim (Outcome-cases (normalize_email email)) [
    | inr (x, y) ↦ absurd (ground arith)
    | inl (m, y) ↦ ground arith
  ]
]

inserted :
    (test : String → Client → Bool) (d : Deps) (r c : Client) (t : Table)
    → (insert_unless stored test duplicate_name database_failed (d.random_uuid t) r t).0 ≡ ok c
    → (r ≡ c)
      × ((insert_unless stored test duplicate_name database_failed (d.random_uuid t) r t).1
          ≡ put (d.random_uuid t) (stored r) t)
unfolding insert_unless insert_row
inserted test d r c t e = elim (Option-cases (find test t)) [
  | inr (x, z) ↦ absurd (ground arith)
  | inl z ↦ elim (Option-cases (get (d.random_uuid t) t)) [
    | inr (x, y) ↦ absurd (ground arith)
    | inl y ↦ (ground arith, ground arith)
  ]
]

-- A client that was created is read back under its key, less what its time has below a
-- microsecond, by a database that answers.
pub create-get_by_id :
    (d a : Deps) (req : CreateRequest) (c : Client) (t : Table)
    → a.answers ≡ true
    → (create d req t).0 ≡ ok c
    → get_by_id a (d.random_uuid t) (create d req t).1
      ≡ ok (record c { created_at = c.created_at / 1000 * 1000 })
unfolding create
create-get_by_id d a req c t w e = elim (Outcome-cases (new_client req.name req.email d.now)) [
  | inr (x, z) ↦ absurd (ground arith)
  | inl (r, z) ↦ elim (Bool-cases d.answers) [
    | inr y ↦ absurd (ground arith)
    | inl y ↦
        let id = d.random_uuid t in
        let q : create d req t
            ≡ insert_unless stored (named r.name) duplicate_name database_failed id r t =
          ground arith in
        let (same, s) = inserted (named r.name) d r c t (ap (λ x. x.0) (sym q) ∙ e) in
        rw (q, s)
          (get_by_id-found a id (put id (stored r) t) (stored c) w
            (ground (arith, get-put id id (stored r) t, eq_iff id id))
            (ap (λ x. x.is_deleted) (sym same) ∙ new_client_there req.name req.email d r z))
  ]
]

with_name_there :
    (id : String) (name : Option String) (c c' : Client) (t : Table)
    → with_name id name c t ≡ ok c'
    → c'.is_deleted ≡ c.is_deleted
unfolding with_name
with_name_there id none c c' t e = ground arith
with_name_there id (some name) c c' t e = elim (Option-cases (find (named_other id name) t)) [
  | inr (o, z) ↦ absurd (ground arith)
  | inl z ↦ ground arith
]

with_email_there :
    (set : Bool) (email : Option String) (c : Client)
    → (with_email set email c).is_deleted ≡ c.is_deleted
with_email_there true email c = refl
with_email_there false email c = refl

row_there : (id : String) (t : Table) (c : Client) → row id t ≡ some c → c.is_deleted ≡ false
unfolding row unless_deleted
row_there id t c e = ground arith

change-get_by_id :
    (a : Deps) (id : String) (name : Option String) (set : Bool) (email : Option String)
    (c : Client) (t : Table)
    → a.answers ≡ true
    → (change id name set email t).0 ≡ ok c
    → get_by_id a id (change id name set email t).1 ≡ ok c
unfolding change
change-get_by_id a id name set email c t w e = elim (Option-cases (row id t)) [
  | inl z ↦ absurd (ground arith)
  | inr (r, z) ↦ elim (Outcome-cases (with_name id name r t)) [
    | inr (x, y) ↦ absurd (ground arith)
    | inl (r', y) ↦
        let q : change id name set email t
            ≡ (ok (with_email set email r'), put id (with_email set email r') t) =
          ground arith in
        let s : with_email set email r' ≡ c = ground arith in
        rw (q, s)
          (get_by_id-found a id (put id c t) c w (ground (arith, get-put id id c t, eq_iff id id)) (
            ap (λ x. x.is_deleted) (sym s)
            ∙ with_email_there set email r'
            ∙ with_name_there id name r r' t y
            ∙ row_there id t r z))
  ]
]

-- What an update returns is read back.
pub update-get_by_id :
    (d a : Deps) (id : String) (f : UpdateFields) (c : Client) (t : Table)
    → a.answers ≡ true
    → (update d id f t).0 ≡ ok c
    → get_by_id a id (update d id f t).1 ≡ ok c
unfolding update
update-get_by_id d a id f c t w e = elim (Outcome-cases (checked_name f.name)) [
  | inr (x, z) ↦ absurd (ground arith)
  | inl (name, z) ↦ elim (Outcome-cases (checked_email f)) [
    | inr (x, y) ↦ absurd (ground arith)
    | inl (email, y) ↦ elim (Bool-cases d.answers) [
      | inr v ↦ absurd (ground arith)
      | inl v ↦
          let q : update d id f t ≡ change id name f.email_set email t = ground arith in
          rw q (change-get_by_id a id name f.email_set email c t w (ap (λ x. x.0) (sym q) ∙ e))
    ]
  ]
]
