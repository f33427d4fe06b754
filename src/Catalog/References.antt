-- ===== src/Catalog/References.antt =====
-- A client or a platform that a row refers to stays.
use Prim.Native.Char.{Char}
use po_c_go_live.Base.{◌≢◌, String, Bool, true, inl, inr, Option, none, arith, eq_iff, Option-cases}
use po_c_go_live.Dict.{Dict, get, put, find, find_none, get-put, get-del}
use po_c_go_live.Database.{AreRows}
use po_c_go_live.Client.Model as ClientModel
use po_c_go_live.Client.Service as Clients
use po_c_go_live.Client.Valid as ClientValid
use po_c_go_live.Client.Changed as ClientChanged
use po_c_go_live.Ingest.Model as IngestModel
use po_c_go_live.Platform.Model as PlatformModel
use po_c_go_live.Platform.Service as Platforms
use po_c_go_live.Platform.Rules as PlatformRules
use po_c_go_live.LiveId.Model as LiveIdModel
use po_c_go_live.Catalog.State.{Catalog, Call, is_of_platform, in_use, platform_deps}

abbrev pub Has : {R : Type 0} → Dict R → String → Type 0
Has t id = get id t ≢ none

-- The client of an ingest, and the client and the platform of a live identifier.
abbrev pub RefersIngest : Clients.Table → IngestModel.Ingest → Type 0
RefersIngest clients r = Has clients r.client_id

abbrev pub RefersLiveId : Clients.Table → Platforms.Table → LiveIdModel.ClientLiveId → Type 0
RefersLiveId clients platforms r = Has clients r.client_id × Has platforms r.platform_id

abbrev pub IsReferenced : Catalog → Type 0
IsReferenced s =
    AreRows (RefersIngest s.clients) s.ingests
    × AreRows (RefersLiveId s.clients s.platforms) s.live_ids

-- A table that keeps its keys.
abbrev Keeps : {R : Type 0} → Dict R → Dict R → Type 0
Keeps t t' = (k : String) → Has t k → Has t' k

put-Keeps : {R : Type 0} (id : String) (x : R) (t : Dict R) → Keeps t (put id x t)
put-Keeps id x t k h = λ e. ground (arith, get-put id k x t, h)

pub clients-Keeps :
    (s : Catalog) (t : Clients.Table)
    → Keeps s.clients t
    → IsReferenced s
    → IsReferenced (record s { clients = t })
clients-Keeps s t f h =
    (λ i r g. f r.client_id (h.0 i r g), λ i r g. (f r.client_id (h.1 i r g).0, (h.1 i r g).1))

pub platforms-Keeps :
    (s : Catalog) (t : Platforms.Table)
    → Keeps s.platforms t
    → IsReferenced s
    → IsReferenced (record s { platforms = t })
platforms-Keeps s t f h = (h.0, λ i r g. ((h.1 i r g).0, f r.platform_id (h.1 i r g).1))

pub create_client-Keeps :
    (d : Clients.Deps) (req : ClientModel.CreateRequest) (t : Clients.Table)
    → Keeps t (Clients.create d req t).1
create_client-Keeps d req t k h = elim (ClientValid.create_cases d req t) [
  | inl e ↦ rw e h
  | inr (c, g, f, e) ↦ rw e (put-Keeps (d.random_uuid t) c t k h)
]

change_client-Keeps :
    (id : String) (name : Option String) (set : Bool) (email : Option String) (t : Clients.Table)
    → Keeps t (Clients.change id name set email t).1
change_client-Keeps id name set email t k h =
    elim (ClientChanged.change_cases id name set email t) [
      | inl e ↦ rw e h
      | inr (c, c', g, w, e) ↦ rw e (put-Keeps id (Clients.with_email set email c') t k h)
    ]

pub update_client-Keeps :
    (d : Clients.Deps) (id : String) (f : ClientModel.UpdateFields) (t : Clients.Table)
    → Keeps t (Clients.update d id f t).1
update_client-Keeps d id f t k h = elim (ClientChanged.update_cases d id f t) [
  | inl e ↦ rw e h
  | inr (name, email, n, m, e) ↦ rw e (change_client-Keeps id name f.email_set email t k h)
]

pub delete_client-Keeps :
    (d : Clients.Deps) (id : String) (t : Clients.Table) → Keeps t (Clients.delete d id t).1
delete_client-Keeps d id t k h = elim (ClientChanged.delete_cases d id t) [
  | inl e ↦ rw e h
  | inr (c, g, e) ↦ rw e (put-Keeps id (record c { is_deleted = true }) t k h)
]

module _ (lower : Char → Char) where
  pub create_platform-Keeps :
      (d : Platforms.Deps) (req : PlatformModel.CreateRequest) (t : Platforms.Table)
      → Keeps t (Platforms.create lower d req t).1
  create_platform-Keeps d req t k h = elim (PlatformRules.create_cases lower d req t) [
    | inl e ↦ rw e h
    | inr (p, g, f, e) ↦ rw e (put-Keeps (d.random_uuid t) p t k h)
  ]

  pub update_platform-Keeps :
      (d : Platforms.Deps) (id : String) (req : PlatformModel.UpdateRequest) (t : Platforms.Table)
      → Keeps t (Platforms.update lower d id req t).1
  update_platform-Keeps d id req t k h = elim (PlatformRules.update_cases lower d id req t) [
    | inl e ↦ rw e h
    | inr (p, q, g, w, e) ↦ rw e (put-Keeps id q t k h)
  ]

-- Only a platform that no live identifier refers to is deleted.
pub delete_platform-IsReferenced :
    (c : Call) (id : String) (s : Catalog)
    → IsReferenced s
    → IsReferenced
        (record s { platforms = (Platforms.delete (platform_deps c s) id s.platforms).1 })
unfolding in_use is_of_platform
delete_platform-IsReferenced c id s h =
    elim (PlatformRules.delete_cases (platform_deps c s) id s.platforms) [
      | inl e ↦ rw e h
      | inr (n, e) ↦ elim (Option-cases (find (is_of_platform id) s.live_ids)) [
        | inr (o, z) ↦ absurd (ground arith)
        | inl z ↦ rw e (
          h.0,
          λ i r g. (
            (h.1 i r g).0,
            λ x. ground (
              arith,
              find_none (is_of_platform id) s.live_ids i r z g,
              get-del id r.platform_id s.platforms,
              eq_iff id r.platform_id,
              eq_iff r.platform_id id,
              (h.1 i r g).1,
            ),
          ),
        )
      ]
    ]
