-- ===== src/Http/Performed.antt =====
-- What a request of backend/internal/httpapi leaves in the tables: what it asks, and nothing else.
use po_c_go_live.Client.Model as ClientModel
use po_c_go_live.Client.Service as Clients
use po_c_go_live.Ingest.Model as IngestModel
use po_c_go_live.Ingest.Service as Ingests
use po_c_go_live.Platform.Service as Platforms
use po_c_go_live.LiveId.Service as LiveIds
use po_c_go_live.Catalog.State as State
use po_c_go_live.Base.{◌≡◌, refl, ap, String, Option, none, some}
use po_c_go_live.Catalog.State.{
  Catalog, Call, Request, client_deps, platform_deps, ingest_deps, live_id_deps, execute,
}
use po_c_go_live.Http.Query.{
  Texts, decode_json, read_body, path_uuid, parsed_path, query_uuid, query_bool, parse_page,
  Checked, valid, refused, with_valid, reply_to, ended, malformed, decoded,
}
use po_c_go_live.Client.Model.{parse_update_fields}
use po_c_go_live.Http.Clients.{
  parsed_fields, handle_create_client, handle_list_clients, handle_get_client, handle_update_client,
  handle_delete_client,
}
use po_c_go_live.Http.Ingests.{
  handle_create_ingest, handle_list_ingests_by_client, handle_list_ingests_flat, handle_get_ingest,
  handle_update_ingest, handle_delete_ingest, list_ingests,
}
use po_c_go_live.Http.Platforms.{
  handle_create_platform, handle_list_platforms, handle_get_platform, handle_update_platform,
  handle_delete_platform,
}
use po_c_go_live.Http.LiveIds.{
  handle_create_live_id, handle_list_live_ids_by_client, handle_list_live_ids_flat,
  handle_get_live_id, handle_update_live_id, handle_delete_live_id, list_live_ids, live_id_reply,
}
use po_c_go_live.Http.Catalog.{
  Route, post_clients, get_clients, get_client, patch_client, post_ingests, get_ingests_of,
  get_ingests, get_ingest, patch_ingest, post_platforms, get_platforms, get_platform,
  patch_platform, post_live_ids, get_live_ids_of, get_live_ids, get_live_id, patch_live_id, handle,
}
use po_c_go_live.Http.CatalogAsked.{with_id, with_decoded, with_fields, with_body, asked, perform}
use po_c_go_live.Database as Db
use po_c_go_live.LiveId.Model as LiveIdModel
use po_c_go_live.Http.Reply.{Reply}
use po_c_go_live.Http.Query.{Decoded}
use po_c_go_live.Http.Catalog.{Payload}

module _ {T : Type 0} where
  replied :
      {E A : Type 0} (good : A → Reply Payload) (bad : E → Reply Payload) (x : Db.Outcome E A × T)
      → (reply_to good bad x).1 ≡ x.1
  replied good bad (Db.ok a, t) = refl
  replied good bad (Db.err e, t) = refl

replied_live_id :
    {A : Type 0} (good : A → Reply Payload) (x : LiveIdModel.Outcome A × LiveIds.Table)
    → (live_id_reply good x).1 ≡ x.1
replied_live_id good (LiveIdModel.ok a, t) = refl
replied_live_id good (LiveIdModel.err e, t) = refl

module _ (u : IngestModel.Urls) (c : Call) (s : Catalog) {T : Type 0} (put : T → Catalog) (t : T)
    (same : put t ≡ s) where
  -- What a handler leaves is what is performed.
  by_id :
      (name : String) (o : Option String) (f : String → T → Reply Payload × T)
      (g : String → Option Request)
      → ((id : String) → put (f id t).1 ≡ perform u c (g id) s)
      → put (with_valid (parsed_path name o) f t).1 ≡ perform u c (with_id o g) s
  unfolding perform
  by_id name none f g h = same
  by_id name (some id) f g h = h id

  by_path :
      (x : Texts) (name raw : String) (f : String → T → Reply Payload × T)
      (g : String → Option Request)
      → ((id : String) → put (f id t).1 ≡ perform u c (g id) s)
      → put (with_valid (path_uuid x name raw) f t).1 ≡ perform u c (with_id (x.parse_uuid raw) g) s
  unfolding path_uuid
  by_path x name raw f g h = by_id name (x.parse_uuid raw) f g h

  by_body :
      {A : Type 0} (b : Decoded A) (f : A → T → Reply Payload × T) (g : A → Option Request)
      → ((a : A) → put (f a t).1 ≡ perform u c (g a) s)
      → put (with_valid (decode_json b) f t).1 ≡ perform u c (with_decoded b g) s
  unfolding decode_json perform
  by_body (decoded a) f g h = h a
  by_body ended f g h = same
  by_body malformed f g h = same

  by_read :
      {A : Type 0} (k : Checked Payload A) (f : A → T → Reply Payload × T)
      → ((a : A) → put (f a t).1 ≡ s)
      → put (with_valid k f t).1 ≡ s
  by_read (refused r) f h = same
  by_read (valid a) f h = h a

  by_fields :
      (id : String) (o : Option ClientModel.UpdateFields)
      (f : ClientModel.UpdateFields → T → Reply Payload × T)
      → ((a : ClientModel.UpdateFields) → put (f a t).1 ≡ execute u c (State.update_client id a) s)
      → put (with_valid (parsed_fields o) f t).1 ≡ perform u c (with_fields id o) s
  unfolding perform
  by_fields id none f h = same
  by_fields id (some a) f h = h a

  by_raw :
      (fields : String → Option ClientModel.UpdateFields) (id : String) (body : Option String)
      (f : String → T → Reply Payload × T)
      → ((b : String) → put (f b t).1 ≡ perform u c (with_fields id (fields b)) s)
      → put (with_valid (read_body body) f t).1 ≡ perform u c (with_body fields id body) s
  unfolding read_body perform
  by_raw fields id none f h = same
  by_raw fields id (some b) f h = h b

module _ (t : Texts) (unmarshal : String → Option (String → ClientModel.Field))
    (u : IngestModel.Urls) (c : Call) where
  abbrev put_clients : Catalog → Clients.Table → Catalog
  put_clients s x = record s { clients = x }

  abbrev put_ingests : Catalog → Ingests.Table → Catalog
  put_ingests s x = record s { ingests = x }

  abbrev put_platforms : Catalog → Platforms.Table → Catalog
  put_platforms s x = record s { platforms = x }

  abbrev put_live_ids : Catalog → LiveIds.Table → Catalog
  put_live_ids s x = record s { live_ids = x }

  -- A request of clients, ingests, platforms or live identifiers leaves in the tables exactly what the one
  -- method leaves that its route stands for, with the identifiers of its path and what its body says. A
  -- request that reads, or whose path or body is not understood, leaves them as they were.
  pub handle-eq-perform :
      (r : Route) (s : Catalog)
      → (handle t unmarshal u c r s).1 ≡ perform u c (asked t unmarshal r) s
  unfolding handle asked perform execute list_ingests list_live_ids handle_create_client
      handle_list_clients handle_get_client handle_update_client handle_delete_client
      handle_create_ingest handle_list_ingests_by_client handle_list_ingests_flat handle_get_ingest
      handle_update_ingest handle_delete_ingest handle_create_platform handle_list_platforms
      handle_get_platform handle_update_platform handle_delete_platform handle_create_live_id
      handle_list_live_ids_by_client handle_list_live_ids_flat handle_get_live_id
      handle_update_live_id handle_delete_live_id
  handle-eq-perform (post_clients body) s =
      by_body u c s (put_clients s) s.clients refl body _ _
        λ req. ap (put_clients s) (replied _ _ _)
  handle-eq-perform (get_clients q) s =
      by_read u c s (put_clients s) s.clients refl (parse_page t q) _
        λ a0. ap (put_clients s) (replied _ _ _)
  handle-eq-perform (get_client raw) s =
      by_read u c s (put_clients s) s.clients refl (path_uuid t "id" raw) _
        λ a0. ap (put_clients s) (replied _ _ _)
  handle-eq-perform (patch_client raw body) s =
      by_path u c s (put_clients s) s.clients refl t "id" raw _ _ λ x.
        by_raw u c s (put_clients s) s.clients refl (parse_update_fields unmarshal) x body _ λ b.
          by_fields u c s (put_clients s) s.clients refl x (parse_update_fields unmarshal b) _
            λ f. ap (put_clients s) (replied _ _ _)
  handle-eq-perform (Route.delete_client raw) s =
      by_path u c s (put_clients s) s.clients refl t "id" raw _ _
        λ x. ap (put_clients s) (replied _ _ _)
  handle-eq-perform (post_ingests raw body) s =
      by_path u c s (put_ingests s) s.ingests refl t "clientID" raw _ _ λ x.
        by_body u c s (put_ingests s) s.ingests refl body _ _
          λ req. ap (put_ingests s) (replied _ _ _)
  handle-eq-perform (get_ingests_of raw q) s =
      by_read u c s (put_ingests s) s.ingests refl (path_uuid t "clientID" raw) _ λ a0.
        by_read u c s (put_ingests s) s.ingests refl (query_bool q "isActive") _ λ a1.
          by_read u c s (put_ingests s) s.ingests refl (parse_page t q) _
            λ a2. ap (put_ingests s) (replied _ _ _)
  handle-eq-perform (get_ingests q) s =
      by_read u c s (put_ingests s) s.ingests refl (query_uuid t q "clientId") _ λ a0.
        by_read u c s (put_ingests s) s.ingests refl (query_bool q "isActive") _ λ a1.
          by_read u c s (put_ingests s) s.ingests refl (parse_page t q) _
            λ a2. ap (put_ingests s) (replied _ _ _)
  handle-eq-perform (get_ingest raw) s =
      by_read u c s (put_ingests s) s.ingests refl (path_uuid t "id" raw) _
        λ a0. ap (put_ingests s) (replied _ _ _)
  handle-eq-perform (patch_ingest raw body) s =
      by_path u c s (put_ingests s) s.ingests refl t "id" raw _ _ λ x.
        by_body u c s (put_ingests s) s.ingests refl body _ _
          λ req. ap (put_ingests s) (replied _ _ _)
  handle-eq-perform (Route.delete_ingest raw) s =
      by_path u c s (put_ingests s) s.ingests refl t "id" raw _ _
        λ x. ap (put_ingests s) (replied _ _ _)
  handle-eq-perform (post_platforms body) s =
      by_body u c s (put_platforms s) s.platforms refl body _ _
        λ req. ap (put_platforms s) (replied _ _ _)
  handle-eq-perform (get_platforms q) s =
      by_read u c s (put_platforms s) s.platforms refl (parse_page t q) _
        λ a0. ap (put_platforms s) (replied _ _ _)
  handle-eq-perform (get_platform raw) s =
      by_read u c s (put_platforms s) s.platforms refl (path_uuid t "id" raw) _
        λ a0. ap (put_platforms s) (replied _ _ _)
  handle-eq-perform (patch_platform raw body) s =
      by_path u c s (put_platforms s) s.platforms refl t "id" raw _ _ λ x.
        by_body u c s (put_platforms s) s.platforms refl body _ _
          λ req. ap (put_platforms s) (replied _ _ _)
  handle-eq-perform (Route.delete_platform raw) s =
      by_path u c s (put_platforms s) s.platforms refl t "id" raw _ _
        λ x. ap (put_platforms s) (replied _ _ _)
  handle-eq-perform (post_live_ids raw body) s =
      by_path u c s (put_live_ids s) s.live_ids refl t "clientID" raw _ _ λ x.
        by_body u c s (put_live_ids s) s.live_ids refl body _ _
          λ req. ap (put_live_ids s) (replied_live_id _ _)
  handle-eq-perform (get_live_ids_of raw q) s =
      by_read u c s (put_live_ids s) s.live_ids refl (path_uuid t "clientID" raw) _ λ a0.
        by_read u c s (put_live_ids s) s.live_ids refl (query_uuid t q "platformId") _ λ a1.
          by_read u c s (put_live_ids s) s.live_ids refl (query_bool q "isActive") _ λ a2.
            by_read u c s (put_live_ids s) s.live_ids refl (parse_page t q) _
              λ a3. ap (put_live_ids s) (replied_live_id _ _)
  handle-eq-perform (get_live_ids q) s =
      by_read u c s (put_live_ids s) s.live_ids refl (query_uuid t q "clientId") _ λ a0.
        by_read u c s (put_live_ids s) s.live_ids refl (query_uuid t q "platformId") _ λ a1.
          by_read u c s (put_live_ids s) s.live_ids refl (query_bool q "isActive") _ λ a2.
            by_read u c s (put_live_ids s) s.live_ids refl (parse_page t q) _
              λ a3. ap (put_live_ids s) (replied_live_id _ _)
  handle-eq-perform (get_live_id raw) s =
      by_read u c s (put_live_ids s) s.live_ids refl (path_uuid t "id" raw) _
        λ a0. ap (put_live_ids s) (replied_live_id _ _)
  handle-eq-perform (patch_live_id raw body) s =
      by_path u c s (put_live_ids s) s.live_ids refl t "id" raw _ _ λ x.
        by_body u c s (put_live_ids s) s.live_ids refl body _ _
          λ req. ap (put_live_ids s) (replied_live_id _ _)
  handle-eq-perform (Route.delete_live_id raw) s =
      by_path u c s (put_live_ids s) s.live_ids refl t "id" raw _ _
        λ x. ap (put_live_ids s) (replied_live_id _ _)
