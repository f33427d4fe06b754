-- ===== src/Http/CatalogAsked.antt =====
-- What a request of backend/internal/httpapi asks of the services of clients, ingests, platforms and live
-- identifiers, by its route, its path and its body: the API as its routes read, apart from the handlers.
use po_c_go_live.Base.{String, Option, none, some}
use po_c_go_live.Client.Model as ClientModel
use po_c_go_live.Client.Model.{parse_update_fields}
use po_c_go_live.Ingest.Model as IngestModel
use po_c_go_live.Catalog.State as State
use po_c_go_live.Catalog.State.{Catalog, Call, Request, execute}
use po_c_go_live.Http.Query.{Texts, Decoded, decoded}
use po_c_go_live.Http.Catalog.{
  Route, post_clients, patch_client, post_ingests, patch_ingest, post_platforms, patch_platform,
  post_live_ids, patch_live_id,
}

-- An identifier that is none asks nothing, nor does a body that is not understood.
abbrev pub with_id : Option String → (String → Option Request) → Option Request
with_id none g = none
with_id (some id) g = g id

abbrev pub with_decoded : {A : Type 0} → Decoded A → (A → Option Request) → Option Request
with_decoded (decoded a) g = g a
with_decoded _ g = none

abbrev pub with_fields : String → Option ClientModel.UpdateFields → Option Request
with_fields id none = none
with_fields id (some f) = some (State.update_client id f)

abbrev pub with_body :
    (String → Option ClientModel.UpdateFields) → String → Option String → Option Request
with_body fields id none = none
with_body fields id (some b) = with_fields id (fields b)

-- Requests that read ask for no change.
module _ (t : Texts) (unmarshal : String → Option (String → ClientModel.Field)) where
  unfoldable pub asked : Route → Option Request
  asked (post_clients body) = with_decoded body λ req. some (State.create_client req)
  asked (patch_client raw body) =
      with_id (t.parse_uuid raw) λ id. with_body (parse_update_fields unmarshal) id body
  asked (Route.delete_client raw) = with_id (t.parse_uuid raw) λ id. some (State.delete_client id)
  asked (post_ingests raw body) =
      with_id (t.parse_uuid raw)
        λ client. with_decoded body λ req. some (State.create_ingest client req)
  asked (patch_ingest raw body) =
      with_id (t.parse_uuid raw) λ id. with_decoded body λ req. some (State.update_ingest id req)
  asked (Route.delete_ingest raw) = with_id (t.parse_uuid raw) λ id. some (State.delete_ingest id)
  asked (post_platforms body) = with_decoded body λ req. some (State.create_platform req)
  asked (patch_platform raw body) =
      with_id (t.parse_uuid raw) λ id. with_decoded body λ req. some (State.update_platform id req)
  asked (Route.delete_platform raw) =
      with_id (t.parse_uuid raw) λ id. some (State.delete_platform id)
  asked (post_live_ids raw body) =
      with_id (t.parse_uuid raw)
        λ client. with_decoded body λ req. some (State.create_live_id client req)
  asked (patch_live_id raw body) =
      with_id (t.parse_uuid raw) λ id. with_decoded body λ req. some (State.update_live_id id req)
  asked (Route.delete_live_id raw) = with_id (t.parse_uuid raw) λ id. some (State.delete_live_id id)
  asked _ = none

-- A request without a change leaves the tables as they are.
unfoldable pub perform : IngestModel.Urls → Call → Option Request → Catalog → Catalog
perform u c none s = s
perform u c (some req) s = execute u c req s
