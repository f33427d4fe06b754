-- ===== src/Http/Ingests.antt =====
-- backend/internal/httpapi/ingests_handlers.go. `as_json` shows a row, whose key is left out, or a page.
use Prim.Native.String.{◌++◌}
use po_c_go_live.Base.{String, Option, some}
use po_c_go_live.Ingest.Model.{
  Refusal, not_found, duplicate_url, client_not_found, invalid_url, unsupported_proto, url_required,
  database_failed, Urls, Ingest, CreateRequest, UpdateRequest,
}
use po_c_go_live.Ingest.Service as Ingests
use po_c_go_live.Http.Reply.{Reply, write_json, write_error, write_validation_error, write_header}
use po_c_go_live.Http.Query.{
  Texts, Values, Decoded, Shown, one, page, decode_json, path_uuid, query_uuid, query_bool,
  parse_page, with_valid, reply_to, write_internal_error,
}

module _ {P : Type 0} where
  unfoldable pub write_ingest_error : Refusal → Reply P
  unfolding write_internal_error
  write_ingest_error not_found = write_error 404 "ingest not found"
  write_ingest_error client_not_found = write_error 404 "client not found"
  write_ingest_error duplicate_url =
      write_error 409 "an ingest with this url already exists for this client"
  write_ingest_error url_required =
      write_error 400 "at least one of url or isActive must be provided"
  write_ingest_error (invalid_url detail) =
      write_validation_error "url" ("url is not valid" ++ detail)
  write_ingest_error (unsupported_proto detail) =
      write_validation_error "url" ("unsupported protocol" ++ detail)
  write_ingest_error database_failed = write_internal_error

  module _ (as_json : Shown Ingest → P) (t : Texts) (u : Urls) (d : Ingests.Deps) where
    abbrev pub Answer : Type 0
    Answer = Ingests.Table → Reply P × Ingests.Table

    unfoldable pub handle_create_ingest : String → Decoded CreateRequest → Answer
    handle_create_ingest raw body = with_valid (path_uuid t "clientID" raw) λ client.
        with_valid (decode_json body) λ req s.
          reply_to (λ r. write_json 201 (as_json (one r))) write_ingest_error
            (Ingests.create u d client req s)

    unfoldable pub list_ingests : Values → Option String → Answer
    list_ingests q client = with_valid (query_bool q "isActive") λ active.
        with_valid (parse_page t q) λ req s.
          reply_to (λ rows. write_json 200 (as_json (page rows))) write_ingest_error
            (
              Ingests.list t.number t.encode d (record { client_id = client; is_active = active })
                  req s,
              s,
            )

    unfoldable pub handle_list_ingests_by_client : String → Values → Answer
    handle_list_ingests_by_client raw q =
        with_valid (path_uuid t "clientID" raw) λ client. list_ingests q (some client)

    unfoldable pub handle_list_ingests_flat : Values → Answer
    handle_list_ingests_flat q =
        with_valid (query_uuid t q "clientId") λ client. list_ingests q client

    unfoldable pub handle_get_ingest : String → Answer
    handle_get_ingest raw = with_valid (path_uuid t "id" raw) λ id s.
        reply_to (λ r. write_json 200 (as_json (one r))) write_ingest_error
          (Ingests.get_by_id d id s, s)

    unfoldable pub handle_update_ingest : String → Decoded UpdateRequest → Answer
    handle_update_ingest raw body = with_valid (path_uuid t "id" raw) λ id.
        with_valid (decode_json body) λ req s.
          reply_to (λ r. write_json 200 (as_json (one r))) write_ingest_error
            (Ingests.update u d id req s)

    unfoldable pub handle_delete_ingest : String → Answer
    handle_delete_ingest raw =
        with_valid (path_uuid t "id" raw)
          λ id s. reply_to (λ x. write_header 204) write_ingest_error (Ingests.delete d id s)
