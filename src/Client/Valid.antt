-- ===== src/Client/Valid.antt =====
-- The rules of backend/internal/client, and what `Create` of its service.go does to them.
use Prim.Native.String.{len}
use po_c_go_live.Base.{
  ◌≡◌, ℕ, ◌≤◌, String, true, false, ◌⊎◌, inl, inr, Option, none, some, arith, ◌==◌, eq_iff,
  Bool-cases, if◌then◌else◌,
}
use po_c_go_live.Dict.{put, find, find_none}
use po_c_go_live.Database.{
  Outcome-cases, ok, insert_unless-cases, IsUniqueBy, IsFree, put-IsUniqueBy, AreRows, put-AreRows,
}
use po_c_go_live.Client.Email.{matches_email}
use po_c_go_live.Client.Model.{
  Client, CreateRequest, normalize_name, normalize_email, new_client, duplicate_name,
  database_failed,
}
use po_c_go_live.Client.Service.{stored, Table, Deps, named, create}

abbrev pub key : Client → Option String
key c = if c.is_deleted then none else some c.name

abbrev pub IsName : String → Type 0
IsName s = ((s == "") ≡ false) × (len s ≤ 200)

abbrev pub IsEmail : Option String → Type 0
IsEmail none = Unit
IsEmail (some s) = (matches_email s ≡ true) × (len s ≤ 320)

abbrev pub IsClient : Client → Type 0
IsClient c = IsName c.name × IsEmail c.email

abbrev pub AreClients : Table → Type 0
AreClients t = IsUniqueBy key t × AreRows IsClient t

pub normalize_name-IsName : (text name : String) → normalize_name text ≡ ok name → IsName name
unfolding normalize_name
normalize_name-IsName text name e = ground arith

pub normalize_email-IsEmail : (email r : Option String) → normalize_email email ≡ ok r → IsEmail r
unfolding normalize_email
normalize_email-IsEmail none none e = tt
normalize_email-IsEmail none (some s) e = ground arith
normalize_email-IsEmail (some text) none e = tt
normalize_email-IsEmail (some text) (some s) e = ground arith

new_client-IsClient :
    (name : String) (email : Option String) (now : ℕ) (c : Client)
    → new_client name email now ≡ ok c
    → IsClient c
unfolding new_client
new_client-IsClient name email now c e = elim (Outcome-cases (normalize_name name)) [
  | inr (x, z) ↦ ground arith
  | inl (n, z) ↦ elim (Outcome-cases (normalize_email email)) [
    | inr (x, y) ↦ ground arith
    | inl (m, y) ↦
        let a : c.name ≡ n = ground arith in
        let b : c.email ≡ m = ground arith in
        rw (a, b) (normalize_name-IsName name n z, normalize_email-IsEmail email m y)
  ]
]

IsFree-named :
    (id : String) (c : Client) (t : Table) → find (named c.name) t ≡ none → IsFree key id c t
unfolding named
IsFree-named id c t f j b k g n x y =
    ground (arith, find_none (named c.name) t j b f g, eq_iff b.name c.name)

pub create_cases :
    (d : Deps) (req : CreateRequest) (t : Table)
    → ((create d req t).1 ≡ t)
      ⊎ ((c : Client) × IsClient c
          × (find (named c.name) t ≡ none)
          × ((create d req t).1 ≡ put (d.random_uuid t) c t))
unfolding create
create_cases d req t = elim (Outcome-cases (new_client req.name req.email d.now)) [
  | inr (x, z) ↦ inl (ground arith)
  | inl (c, z) ↦ elim (Bool-cases d.answers) [
    | inr y ↦ inl (ground arith)
    | inl y ↦
        elim (insert_unless-cases stored (named c.name) duplicate_name database_failed
          (d.random_uuid t) c t) [
            | inl e ↦ inl (ground arith)
            | inr (f, g, e) ↦
                inr (stored c, new_client-IsClient req.name req.email d.now c z, f, ground arith)
          ]
  ]
]

pub create-AreClients :
    (d : Deps) (req : CreateRequest) (t : Table) → AreClients t → AreClients (create d req t).1
create-AreClients d req t h = elim (create_cases d req t) [
  | inl e ↦ rw e h
  | inr (c, g, f, e) ↦ rw e (
    put-IsUniqueBy key (d.random_uuid t) c t (IsFree-named (d.random_uuid t) c t f) h.0,
    put-AreRows IsClient (d.random_uuid t) c t g h.1,
  )
]
