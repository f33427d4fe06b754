-- ===== src/Http/Refused.antt =====
-- What a request of a client, an ingest, a platform or a live identifier leaves in the tables, by its reply:
-- the handlers of backend/internal/httpapi over the services.
use po_c_go_live.Base.{◌≡◌, refl, inl, inr, ◌≤◌, String, Option, some, arith}
use po_c_go_live.Client.Model as ClientModel
use po_c_go_live.Client.Service as Clients
use po_c_go_live.Ingest.Model as IngestModel
use po_c_go_live.Ingest.Service as Ingests
use po_c_go_live.Platform.Service as Platforms
use po_c_go_live.LiveId.Service as LiveIds
use po_c_go_live.Catalog.State as State
use po_c_go_live.Catalog.State.{
  Catalog, Call, Request, client_deps, platform_deps, ingest_deps, live_id_deps, execute,
}
use po_c_go_live.Http.Query.{
  Texts, Values, decode_json, read_body, path_uuid, query_uuid, query_bool, parse_page,
}
use po_c_go_live.Client.Model.{parse_update_fields}
use po_c_go_live.Http.Clients.{
  parsed_fields, handle_create_client, handle_list_clients, handle_get_client, handle_update_client,
  handle_delete_client,
}
use po_c_go_live.Http.Ingests.{
  handle_create_ingest, handle_list_ingests_by_client, handle_list_ingests_flat, handle_get_ingest,
  handle_update_ingest, handle_delete_ingest, list_ingests,
}
use po_c_go_live.Http.Platforms.{
  handle_create_platform, handle_list_platforms, handle_get_platform, handle_update_platform,
  handle_delete_platform,
}
use po_c_go_live.Http.LiveIds.{
  handle_create_live_id, handle_list_live_ids_by_client, handle_list_live_ids_flat,
  handle_get_live_id, handle_update_live_id, handle_delete_live_id, list_live_ids,
}
use po_c_go_live.Http.Catalog.{
  Route, post_clients, get_clients, get_client, patch_client, post_ingests, get_ingests_of,
  get_ingests, get_ingest, patch_ingest, post_platforms, get_platforms, get_platform,
  patch_platform, post_live_ids, get_live_ids_of, get_live_ids, get_live_id, patch_live_id, ingests,
  live_ids, on_ingests, on_live_ids, handle,
}
use po_c_go_live.Http.Answered.{IsAnswer, checked, read, written, read_live_id, written_live_id}
use po_c_go_live.Http.Unchanged.{
  create_client-IsKept, update_client-IsKept, delete_client-IsKept, create_ingest-IsKept,
  update_ingest-IsKept, delete_ingest-IsKept, create_platform-IsKept, update_platform-IsKept,
  delete_platform-IsKept, create_live_id-IsKept, update_live_id-IsKept, delete_live_id-IsKept,
}

module _ (t : Texts) (unmarshal : String → Option (String → ClientModel.Field))
    (u : IngestModel.Urls) (c : Call) where
  abbrev put_clients : Catalog → Clients.Table → Catalog
  put_clients s x = record s { clients = x }

  abbrev put_ingests : Catalog → Ingests.Table → Catalog
  put_ingests s x = record s { ingests = x }

  abbrev put_platforms : Catalog → Platforms.Table → Catalog
  put_platforms s x = record s { platforms = x }

  abbrev put_live_ids : Catalog → LiveIds.Table → Catalog
  put_live_ids s x = record s { live_ids = x }

  ingests_listed :
      (client : Option String) (q : Values) (s : Catalog)
      → IsAnswer u c s (on_ingests (list_ingests ingests t u (ingest_deps c s) q client) s)
  unfolding list_ingests
  ingests_listed client q s =
      checked u c s (put_ingests s) s.ingests refl (query_bool q "isActive") _ λ active.
        checked u c s (put_ingests s) s.ingests refl (parse_page t q) _
          λ req. read u c s (put_ingests s) s.ingests refl _ _ _

  live_ids_listed :
      (client : Option String) (q : Values) (s : Catalog)
      → IsAnswer u c s (on_live_ids (list_live_ids live_ids t (live_id_deps c s) q client) s)
  unfolding list_live_ids
  live_ids_listed client q s =
      checked u c s (put_live_ids s) s.live_ids refl (query_uuid t q "platformId") _ λ platform.
        checked u c s (put_live_ids s) s.live_ids refl (query_bool q "isActive") _ λ active.
          checked u c s (put_live_ids s) s.live_ids refl (parse_page t q) _
            λ req. read_live_id u c s _ _

  handle-IsAnswer : (r : Route) (s : Catalog) → IsAnswer u c s (handle t unmarshal u c r s)
  unfolding handle execute handle_create_client handle_list_clients handle_get_client
      handle_update_client handle_delete_client handle_create_ingest handle_list_ingests_by_client
      handle_list_ingests_flat handle_get_ingest handle_update_ingest handle_delete_ingest
      handle_create_platform handle_list_platforms handle_get_platform handle_update_platform
      handle_delete_platform handle_create_live_id handle_list_live_ids_by_client
      handle_list_live_ids_flat handle_get_live_id handle_update_live_id handle_delete_live_id
  handle-IsAnswer (post_clients body) s =
      checked u c s (put_clients s) s.clients refl (decode_json body) _ λ req.
        written u c s (put_clients s) s.clients refl _ _ (State.create_client req) _
          (λ a. ground arith) (create_client-IsKept (client_deps c) s.clients req) refl
  handle-IsAnswer (get_clients q) s =
      checked u c s (put_clients s) s.clients refl (parse_page t q) _
        λ req. read u c s (put_clients s) s.clients refl _ _ _
  handle-IsAnswer (get_client id) s =
      checked u c s (put_clients s) s.clients refl (path_uuid t "id" id) _
        λ x. read u c s (put_clients s) s.clients refl _ _ _
  handle-IsAnswer (patch_client id body) s =
      checked u c s (put_clients s) s.clients refl (path_uuid t "id" id) _ λ x.
        checked u c s (put_clients s) s.clients refl (read_body body) _ λ b.
          checked u c s (put_clients s) s.clients refl
            (parsed_fields (parse_update_fields unmarshal b)) _
            λ f.
              written u c s (put_clients s) s.clients refl _ _ (State.update_client x f) _
                (λ a. ground arith) (update_client-IsKept (client_deps c) s.clients x f) refl
  handle-IsAnswer (Route.delete_client id) s =
      checked u c s (put_clients s) s.clients refl (path_uuid t "id" id) _ λ x.
        written u c s (put_clients s) s.clients refl _ _ (State.delete_client x) _
          (λ a. ground arith) (delete_client-IsKept (client_deps c) s.clients x) refl
  handle-IsAnswer (post_ingests raw body) s =
      checked u c s (put_ingests s) s.ingests refl (path_uuid t "clientID" raw) _ λ client.
        checked u c s (put_ingests s) s.ingests refl (decode_json body) _ λ req.
          written u c s (put_ingests s) s.ingests refl _ _ (State.create_ingest client req) _
            (λ a. ground arith) (create_ingest-IsKept u (ingest_deps c s) s.ingests client req) refl
  handle-IsAnswer (get_ingests_of raw q) s =
      checked u c s (put_ingests s) s.ingests refl (path_uuid t "clientID" raw) _
        λ client. ingests_listed (some client) q s
  handle-IsAnswer (get_ingests q) s =
      checked u c s (put_ingests s) s.ingests refl (query_uuid t q "clientId") _
        λ client. ingests_listed client q s
  handle-IsAnswer (get_ingest id) s =
      checked u c s (put_ingests s) s.ingests refl (path_uuid t "id" id) _
        λ x. read u c s (put_ingests s) s.ingests refl _ _ _
  handle-IsAnswer (patch_ingest id body) s =
      checked u c s (put_ingests s) s.ingests refl (path_uuid t "id" id) _ λ x.
        checked u c s (put_ingests s) s.ingests refl (decode_json body) _ λ req.
          written u c s (put_ingests s) s.ingests refl _ _ (State.update_ingest x req) _
            (λ a. ground arith) (update_ingest-IsKept u (ingest_deps c s) s.ingests x req) refl
  handle-IsAnswer (Route.delete_ingest id) s =
      checked u c s (put_ingests s) s.ingests refl (path_uuid t "id" id) _ λ x.
        written u c s (put_ingests s) s.ingests refl _ _ (State.delete_ingest x) _
          (λ a. ground arith) (delete_ingest-IsKept u (ingest_deps c s) s.ingests x) refl
  handle-IsAnswer (post_platforms body) s =
      checked u c s (put_platforms s) s.platforms refl (decode_json body) _ λ req.
        written u c s (put_platforms s) s.platforms refl _ _ (State.create_platform req) _
          (λ a. ground arith)
          (create_platform-IsKept u.unicode_lower (platform_deps c s) s.platforms req) refl
  handle-IsAnswer (get_platforms q) s =
      checked u c s (put_platforms s) s.platforms refl (parse_page t q) _
        λ req. read u c s (put_platforms s) s.platforms refl _ _ _
  handle-IsAnswer (get_platform id) s =
      checked u c s (put_platforms s) s.platforms refl (path_uuid t "id" id) _
        λ x. read u c s (put_platforms s) s.platforms refl _ _ _
  handle-IsAnswer (patch_platform id body) s =
      checked u c s (put_platforms s) s.platforms refl (path_uuid t "id" id) _ λ x.
        checked u c s (put_platforms s) s.platforms refl (decode_json body) _ λ req.
          written u c s (put_platforms s) s.platforms refl _ _ (State.update_platform x req) _
            (λ a. ground arith)
            (update_platform-IsKept u.unicode_lower (platform_deps c s) s.platforms x req) refl
  handle-IsAnswer (Route.delete_platform id) s =
      checked u c s (put_platforms s) s.platforms refl (path_uuid t "id" id) _ λ x.
        written u c s (put_platforms s) s.platforms refl _ _ (State.delete_platform x) _
          (λ a. ground arith)
          (delete_platform-IsKept u.unicode_lower (platform_deps c s) s.platforms x) refl
  handle-IsAnswer (post_live_ids raw body) s =
      checked u c s (put_live_ids s) s.live_ids refl (path_uuid t "clientID" raw) _ λ client.
        checked u c s (put_live_ids s) s.live_ids refl (decode_json body) _ λ req.
          written_live_id u c s _ (State.create_live_id client req) _ (λ a. ground arith)
            (create_live_id-IsKept s.live_ids (live_id_deps c s) client req) refl
  handle-IsAnswer (get_live_ids_of raw q) s =
      checked u c s (put_live_ids s) s.live_ids refl (path_uuid t "clientID" raw) _
        λ client. live_ids_listed (some client) q s
  handle-IsAnswer (get_live_ids q) s =
      checked u c s (put_live_ids s) s.live_ids refl (query_uuid t q "clientId") _
        λ client. live_ids_listed client q s
  handle-IsAnswer (get_live_id id) s =
      checked u c s (put_live_ids s) s.live_ids refl (path_uuid t "id" id) _
        λ x. read_live_id u c s _ _
  handle-IsAnswer (patch_live_id id body) s =
      checked u c s (put_live_ids s) s.live_ids refl (path_uuid t "id" id) _ λ x.
        checked u c s (put_live_ids s) s.live_ids refl (decode_json body) _ λ req.
          written_live_id u c s _ (State.update_live_id x req) _ (λ a. ground arith)
            (update_live_id-IsKept s.live_ids (live_id_deps c s) x req) refl
  handle-IsAnswer (Route.delete_live_id id) s =
      checked u c s (put_live_ids s) s.live_ids refl (path_uuid t "id" id) _ λ x.
        written_live_id u c s _ (State.delete_live_id x) _ (λ a. ground arith)
          (delete_live_id-IsKept s.live_ids (live_id_deps c s) x) refl

  -- A request of a client, an ingest, a platform or a live identifier whose reply is an error, of any kind,
  -- left every table as it was.
  pub handle_refused :
      (r : Route) (s : Catalog)
      → 400 ≤ (handle t unmarshal u c r s).0.status
      → (handle t unmarshal u c r s).1 ≡ s
  handle_refused r s h = elim (handle-IsAnswer r s) [ inl e ↦ e | inr (l, x) ↦ ground arith ]
