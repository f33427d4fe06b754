-- ===== src/Http/LiveIds.antt =====
-- backend/internal/httpapi/liveids_handlers.go. `as_json` shows a row, whose key is left out, or a page.
use po_c_go_live.Base.{String, Option, some}
use po_c_go_live.LiveId.Model.{
  Refusal, not_found, duplicate_live_id, client_not_found, platform_not_found, invalid_live_id,
  invalid_stream_key, database_failed, Outcome, ok, err, ClientLiveId, CreateRequest, UpdateRequest,
  to_response,
}
use po_c_go_live.LiveId.Service as LiveIds
use po_c_go_live.Http.Reply.{Reply, write_json, write_error, write_validation_error, write_header}
use po_c_go_live.Http.Query.{
  Texts, Values, Decoded, Shown, one, page, decode_json, path_uuid, query_uuid, query_bool,
  parse_page, with_valid, write_internal_error,
}

module _ {P : Type 0} where
  unfoldable pub write_live_id_error : Refusal → Reply P
  unfolding write_internal_error
  write_live_id_error not_found = write_error 404 "live id not found"
  write_live_id_error client_not_found = write_error 404 "client not found"
  write_live_id_error platform_not_found = write_error 404 "streaming platform not found"
  write_live_id_error duplicate_live_id =
      write_error 409 "this live id already exists for the client and platform"
  write_live_id_error invalid_live_id =
      write_validation_error "liveId" "live id must not be empty and at most 255 characters"
  write_live_id_error invalid_stream_key =
      write_validation_error "streamKey" "stream key must not be empty and at most 512 characters"
  write_live_id_error database_failed = write_internal_error

  -- What a method returned, as a reply.
  abbrev pub live_id_reply :
      {A : Type 0} → (A → Reply P) → Outcome A × LiveIds.Table → Reply P × LiveIds.Table
  live_id_reply good (ok a, s) = (good a, s)
  live_id_reply good (err e, s) = (write_live_id_error e, s)

  module _ (as_json : Shown ClientLiveId → P) (t : Texts) (d : LiveIds.Deps) where
    abbrev pub Answer : Type 0
    Answer = LiveIds.Table → Reply P × LiveIds.Table

    unfoldable pub handle_create_live_id : String → Decoded CreateRequest → Answer
    handle_create_live_id raw body = with_valid (path_uuid t "clientID" raw) λ client.
        with_valid (decode_json body) λ req s.
          live_id_reply (λ r. write_json 201 (as_json (one (to_response r))))
            (LiveIds.create d client req s)

    unfoldable pub list_live_ids : Values → Option String → Answer
    list_live_ids q client = with_valid (query_uuid t q "platformId") λ platform.
        with_valid (query_bool q "isActive") λ active. with_valid (parse_page t q) λ req s.
          live_id_reply (λ rows. write_json 200 (as_json (page rows)))
            (
              LiveIds.list t.number t.encode d
                  (record { client_id = client; platform_id = platform; is_active = active }) req s,
              s,
            )

    unfoldable pub handle_list_live_ids_by_client : String → Values → Answer
    handle_list_live_ids_by_client raw q =
        with_valid (path_uuid t "clientID" raw) λ client. list_live_ids q (some client)

    unfoldable pub handle_list_live_ids_flat : Values → Answer
    handle_list_live_ids_flat q =
        with_valid (query_uuid t q "clientId") λ client. list_live_ids q client

    unfoldable pub handle_get_live_id : String → Answer
    handle_get_live_id raw = with_valid (path_uuid t "id" raw) λ id s.
        live_id_reply (λ r. write_json 200 (as_json (one (to_response r))))
          (LiveIds.get_by_id d id s, s)

    unfoldable pub handle_update_live_id : String → Decoded UpdateRequest → Answer
    handle_update_live_id raw body = with_valid (path_uuid t "id" raw) λ id.
        with_valid (decode_json body) λ req s.
          live_id_reply (λ r. write_json 200 (as_json (one (to_response r))))
            (LiveIds.update d id req s)

    unfoldable pub handle_delete_live_id : String → Answer
    handle_delete_live_id raw =
        with_valid (path_uuid t "id" raw)
          λ id s. live_id_reply (λ x. write_header 204) (LiveIds.delete d id s)
