-- ===== src/Http/Catalog.antt =====
-- The routes of backend/internal/httpapi/httpapi.go to the clients, the ingests, the platforms and the live
-- identifiers, over the tables of all four.
use po_c_go_live.Base.{String, Option}
use po_c_go_live.Client.Model as ClientModel
use po_c_go_live.Ingest.Model as IngestModel
use po_c_go_live.Platform.Model as PlatformModel
use po_c_go_live.LiveId.Model as LiveIdModel
use po_c_go_live.Client.Service as Clients
use po_c_go_live.Ingest.Service as Ingests
use po_c_go_live.Platform.Service as Platforms
use po_c_go_live.LiveId.Service as LiveIds
use po_c_go_live.Catalog.State.{
  Catalog, Call, client_deps, platform_deps, ingest_deps, live_id_deps,
}
use po_c_go_live.Http.Reply.{Reply}
use po_c_go_live.Http.Query.{Texts, Values, Decoded, Shown}
use po_c_go_live.Http.Clients.{
  handle_create_client, handle_list_clients, handle_get_client, handle_update_client,
  handle_delete_client,
}
use po_c_go_live.Http.Ingests.{
  handle_create_ingest, handle_list_ingests_by_client, handle_list_ingests_flat, handle_get_ingest,
  handle_update_ingest, handle_delete_ingest,
}
use po_c_go_live.Http.Platforms.{
  handle_create_platform, handle_list_platforms, handle_get_platform, handle_update_platform,
  handle_delete_platform,
}
use po_c_go_live.Http.LiveIds.{
  handle_create_live_id, handle_list_live_ids_by_client, handle_list_live_ids_flat,
  handle_get_live_id, handle_update_live_id, handle_delete_live_id,
}

-- What a reply has as JSON.
pub data Payload : Type 0 where
  clients : Shown ClientModel.Client → Payload
  ingests : Shown IngestModel.Ingest → Payload
  platforms : Shown PlatformModel.Platform → Payload
  live_ids : Shown LiveIdModel.ClientLiveId → Payload

-- A route, with the parameters of its path, its query and its body.
pub data Route : Type 0 where
  post_clients : Decoded ClientModel.CreateRequest → Route
  get_clients : Values → Route
  get_client : String → Route
  patch_client : String → Option String → Route
  delete_client : String → Route
  post_ingests : String → Decoded IngestModel.CreateRequest → Route
  get_ingests_of : String → Values → Route
  get_ingests : Values → Route
  get_ingest : String → Route
  patch_ingest : String → Decoded IngestModel.UpdateRequest → Route
  delete_ingest : String → Route
  post_platforms : Decoded PlatformModel.CreateRequest → Route
  get_platforms : Values → Route
  get_platform : String → Route
  patch_platform : String → Decoded PlatformModel.UpdateRequest → Route
  delete_platform : String → Route
  post_live_ids : String → Decoded LiveIdModel.CreateRequest → Route
  get_live_ids_of : String → Values → Route
  get_live_ids : Values → Route
  get_live_id : String → Route
  patch_live_id : String → Decoded LiveIdModel.UpdateRequest → Route
  delete_live_id : String → Route

abbrev Answers : Type 0 → Type 0
Answers T = T → Reply Payload × T

-- A handler of one table, over all of them.
abbrev pub on_table : {T : Type 0} → (T → Catalog) → Reply Payload × T → Reply Payload × Catalog
on_table put (r, t) = (r, put t)

abbrev pub on_clients : Answers Clients.Table → Catalog → Reply Payload × Catalog
on_clients f s = on_table (λ t. record s { clients = t }) (f s.clients)

abbrev pub on_ingests : Answers Ingests.Table → Catalog → Reply Payload × Catalog
on_ingests f s = on_table (λ t. record s { ingests = t }) (f s.ingests)

abbrev pub on_platforms : Answers Platforms.Table → Catalog → Reply Payload × Catalog
on_platforms f s = on_table (λ t. record s { platforms = t }) (f s.platforms)

abbrev pub on_live_ids : Answers LiveIds.Table → Catalog → Reply Payload × Catalog
on_live_ids f s = on_table (λ t. record s { live_ids = t }) (f s.live_ids)

module _ (t : Texts) (unmarshal : String → Option (String → ClientModel.Field))
    (u : IngestModel.Urls) where
  unfoldable pub handle : Call → Route → Catalog → Reply Payload × Catalog
  handle c (post_clients body) s =
      on_clients (handle_create_client clients t (client_deps c) body) s
  handle c (get_clients q) s = on_clients (handle_list_clients clients t (client_deps c) q) s
  handle c (get_client id) s = on_clients (handle_get_client clients t (client_deps c) id) s
  handle c (patch_client id body) s =
      on_clients (handle_update_client clients t (client_deps c) unmarshal id body) s
  handle c (delete_client id) s = on_clients (handle_delete_client clients t (client_deps c) id) s
  handle c (post_ingests client body) s =
      on_ingests (handle_create_ingest ingests t u (ingest_deps c s) client body) s
  handle c (get_ingests_of client q) s =
      on_ingests (handle_list_ingests_by_client ingests t u (ingest_deps c s) client q) s
  handle c (get_ingests q) s =
      on_ingests (handle_list_ingests_flat ingests t u (ingest_deps c s) q) s
  handle c (get_ingest id) s = on_ingests (handle_get_ingest ingests t u (ingest_deps c s) id) s
  handle c (patch_ingest id body) s =
      on_ingests (handle_update_ingest ingests t u (ingest_deps c s) id body) s
  handle c (delete_ingest id) s =
      on_ingests (handle_delete_ingest ingests t u (ingest_deps c s) id) s
  handle c (post_platforms body) s =
      on_platforms (handle_create_platform platforms t u.unicode_lower (platform_deps c s) body) s
  handle c (get_platforms q) s =
      on_platforms (handle_list_platforms platforms t u.unicode_lower (platform_deps c s) q) s
  handle c (get_platform id) s =
      on_platforms (handle_get_platform platforms t u.unicode_lower (platform_deps c s) id) s
  handle c (patch_platform id body) s =
      on_platforms (handle_update_platform platforms t u.unicode_lower (platform_deps c s) id body)
        s
  handle c (delete_platform id) s =
      on_platforms (handle_delete_platform platforms t u.unicode_lower (platform_deps c s) id) s
  handle c (post_live_ids client body) s =
      on_live_ids (handle_create_live_id live_ids t (live_id_deps c s) client body) s
  handle c (get_live_ids_of client q) s =
      on_live_ids (handle_list_live_ids_by_client live_ids t (live_id_deps c s) client q) s
  handle c (get_live_ids q) s =
      on_live_ids (handle_list_live_ids_flat live_ids t (live_id_deps c s) q) s
  handle c (get_live_id id) s = on_live_ids (handle_get_live_id live_ids t (live_id_deps c s) id) s
  handle c (patch_live_id id body) s =
      on_live_ids (handle_update_live_id live_ids t (live_id_deps c s) id body) s
  handle c (delete_live_id id) s =
      on_live_ids (handle_delete_live_id live_ids t (live_id_deps c s) id) s
