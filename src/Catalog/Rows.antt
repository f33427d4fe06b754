-- ===== src/Catalog/Rows.antt =====
-- New, changed and deleted ingests and live identifiers refer to rows that there are.
use po_c_go_live.Base.{
  ◌≡◌, sym, subst, ◌∙◌, String, true, inl, inr, Option, none, some, arith, Option-cases,
}
use po_c_go_live.Dict.{find}
use po_c_go_live.Database.{AreRows, put-AreRows, del-AreRows}
use po_c_go_live.Client.Service as Clients
use po_c_go_live.Ingest.Model as IngestModel
use po_c_go_live.Ingest.Service as Ingests
use po_c_go_live.Ingest.Rules as IngestRules
use po_c_go_live.Platform.Service as Platforms
use po_c_go_live.LiveId.Model as LiveIdModel
use po_c_go_live.LiveId.Service as LiveIds
use po_c_go_live.LiveId.Unique as LiveIdRules
use po_c_go_live.Catalog.State.{
  Catalog, Call, client_deps, platform_deps, ingest_deps, live_id_deps,
}
use po_c_go_live.Catalog.References.{Has, RefersIngest, RefersLiveId}

client_there :
    (d : Clients.Deps) (id : String) (t : Clients.Table)
    → Clients.exists d id t ≡ some true
    → Has t id
unfolding Clients.exists Clients.row
client_there d id t e x = ground arith

platform_there :
    (d : Platforms.Deps) (id : String) (t : Platforms.Table)
    → Platforms.exists d id t ≡ some true
    → Has t id
unfolding Platforms.exists
platform_there d id t e x = ground arith

pub create_ingest-IsReferenced :
    (u : IngestModel.Urls) (c : Call) (client : String) (req : IngestModel.CreateRequest)
    (s : Catalog)
    → AreRows (RefersIngest s.clients) s.ingests
    → AreRows (RefersIngest s.clients) (Ingests.create u (ingest_deps c s) client req s.ingests).1
create_ingest-IsReferenced u c client req s h =
    elim (IngestRules.create_cases u (ingest_deps c s) client req s.ingests) [
      | inl e ↦ rw e h
      | inr (r, g, b, f, e) ↦ rw e (
          put-AreRows (RefersIngest s.clients) c.new_key r s.ingests
            (client_there (client_deps c) r.client_id s.clients b) h)
    ]

pub update_ingest-IsReferenced :
    (u : IngestModel.Urls) (c : Call) (id : String) (req : IngestModel.UpdateRequest) (s : Catalog)
    → IngestRules.AreIngests u s.ingests
    → AreRows (RefersIngest s.clients) s.ingests
    → AreRows (RefersIngest s.clients) (Ingests.update u (ingest_deps c s) id req s.ingests).1
update_ingest-IsReferenced u c id req s v h =
    elim (IngestRules.update_cases u (ingest_deps c s) id req s.ingests v) [
      | inl e ↦ rw e h
      | inr (r, r', z, k, e) ↦ rw e (
          put-AreRows (RefersIngest s.clients) id r' s.ingests
            (subst (Has s.clients) (sym k.1.1) (h id r z)) h)
    ]

pub delete_ingest-IsReferenced :
    (d : Ingests.Deps) (u : IngestModel.Urls) (id : String) (s : Catalog)
    → AreRows (RefersIngest s.clients) s.ingests
    → AreRows (RefersIngest s.clients) (Ingests.delete d id s.ingests).1
delete_ingest-IsReferenced d u id s h = elim (IngestRules.delete_cases u d id s.ingests) [
  | inl e ↦ rw e h
  | inr e ↦ rw e (del-AreRows (RefersIngest s.clients) id s.ingests h)
]

pub create_live_id-IsReferenced :
    (c : Call) (client : String) (req : LiveIdModel.CreateRequest) (s : Catalog)
    → AreRows (RefersLiveId s.clients s.platforms) s.live_ids
    → AreRows
        (RefersLiveId s.clients s.platforms)
        (LiveIds.create (live_id_deps c s) client req s.live_ids).1
create_live_id-IsReferenced c client req s h =
    elim (LiveIdRules.create_cases (live_id_deps c s) client req s.live_ids) [
      | inl e ↦ rw e h
      | inr (r, e) ↦ elim (LiveIdRules.create_row_cases (live_id_deps c s) r s.live_ids) [
        | inl e' ↦ rw (e, e') h
        | inr (f, a, b, e') ↦
            rw (e, e')
              (put-AreRows (RefersLiveId s.clients s.platforms) c.new_key (LiveIds.stored r)
                s.live_ids
                (
                  client_there (client_deps c) r.client_id s.clients a,
                  platform_there (platform_deps c s) r.platform_id s.platforms b,
                )
                h)
      ]
    ]

with_live_id_same :
    (id : String) (text : Option String) (r named : LiveIdModel.ClientLiveId) (t : LiveIds.Table)
    → LiveIds.with_live_id id text r t ≡ LiveIdModel.ok named
    → (named.client_id ≡ r.client_id) × (named.platform_id ≡ r.platform_id)
unfolding LiveIds.with_live_id
with_live_id_same id none r named t e = (ground arith, ground arith)
with_live_id_same id (some text) r named t e =
    elim (LiveIdModel.Outcome-cases (LiveIdModel.normalize_live_id text)) [
      | inr (x, z) ↦ absurd (ground arith)
      | inl (live, z) ↦
          elim (Option-cases (find (LiveIds.taken_by_other id r.client_id r.platform_id live) t)) [
            | inr (o, y) ↦ absurd (ground arith)
            | inl y ↦ (ground arith, ground arith)
          ]
    ]

pub update_live_id-IsReferenced :
    (d : LiveIds.Deps) (id : String) (req : LiveIdModel.UpdateRequest) (s : Catalog)
    → AreRows (RefersLiveId s.clients s.platforms) s.live_ids
    → AreRows (RefersLiveId s.clients s.platforms) (LiveIds.update d id req s.live_ids).1
update_live_id-IsReferenced d id req s h = elim (LiveIdRules.update_cases d id req s.live_ids) [
  | inl e ↦ rw e h
  | inr (r, named, changed, z, y, x, e) ↦
      let n = with_live_id_same id req.live_id r named s.live_ids y in
      let m = LiveIdRules.with_stream_key-AreSame req.stream_key req.is_active named changed x in
      rw e (
        put-AreRows (RefersLiveId s.clients s.platforms) id changed s.live_ids
          (
            subst (Has s.clients) (sym (m.0 ∙ n.0)) (h id r z).0,
            subst (Has s.platforms) (sym (m.1 ∙ n.1)) (h id r z).1,
          )
          h)
]

pub delete_live_id-IsReferenced :
    (d : LiveIds.Deps) (id : String) (s : Catalog)
    → AreRows (RefersLiveId s.clients s.platforms) s.live_ids
    → AreRows (RefersLiveId s.clients s.platforms) (LiveIds.delete d id s.live_ids).1
delete_live_id-IsReferenced d id s h = elim (LiveIdRules.delete_cases d id s.live_ids) [
  | inl e ↦ rw e h
  | inr e ↦ rw e (del-AreRows (RefersLiveId s.clients s.platforms) id s.live_ids h)
]
