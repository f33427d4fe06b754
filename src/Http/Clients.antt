-- ===== src/Http/Clients.antt =====
-- backend/internal/httpapi/clients_handlers.go. `as_json` shows a row, whose key is left out, or a page.
-- A listing decodes its cursor before the service is called, so that the service has no error of it.
use po_c_go_live.Base.{String, Option, none, some}
use po_c_go_live.Client.Model.{
  Refusal, not_found, duplicate_name, invalid_name, invalid_email, database_failed, Client,
  CreateRequest, UpdateFields, Field, parse_update_fields,
}
use po_c_go_live.Client.Service as Clients
use po_c_go_live.Http.Reply.{Reply, write_json, write_error, write_validation_error, write_header}
use po_c_go_live.Http.Query.{
  Texts, Values, Decoded, Shown, one, page, Checked, valid, refused, decode_json, read_body,
  path_uuid, parse_page, with_valid, reply_to, write_internal_error,
}

module _ {P : Type 0} where
  unfoldable pub write_client_error : Refusal → Reply P
  unfolding write_internal_error
  write_client_error not_found = write_error 404 "client not found"
  write_client_error duplicate_name = write_error 409 "a client with this name already exists"
  write_client_error invalid_name =
      write_validation_error "name" "client name must not be empty and at most 200 characters"
  write_client_error invalid_email =
      write_validation_error "email" "email must be a valid address of at most 320 characters"
  write_client_error database_failed = write_internal_error

  abbrev pub parsed_fields : Option UpdateFields → Checked P UpdateFields
  parsed_fields none = refused (write_error 400 "malformed request body")
  parsed_fields (some f) = valid f

  module _ (as_json : Shown Client → P) (t : Texts) (d : Clients.Deps) where
    abbrev pub Answer : Type 0
    Answer = Clients.Table → Reply P × Clients.Table

    unfoldable pub handle_create_client : Decoded CreateRequest → Answer
    handle_create_client body = with_valid (decode_json body) λ req s.
        reply_to (λ r. write_json 201 (as_json (one r))) write_client_error (Clients.create d req s)

    unfoldable pub handle_list_clients : Values → Answer
    handle_list_clients q = with_valid (parse_page t q) λ req s.
        reply_to (λ rows. write_json 200 (as_json (page rows))) write_client_error
          (Clients.list t.number t.encode d req s, s)

    unfoldable pub handle_get_client : String → Answer
    handle_get_client raw = with_valid (path_uuid t "id" raw) λ id s.
        reply_to (λ r. write_json 200 (as_json (one r))) write_client_error
          (Clients.get_by_id d id s, s)

    -- `unmarshal` reads the keys of a JSON object.
    unfoldable pub handle_update_client :
        (String → Option (String → Field)) → String → Option String → Answer
    handle_update_client unmarshal raw body = with_valid (path_uuid t "id" raw) λ id.
        with_valid (read_body body) λ b.
          with_valid (parsed_fields (parse_update_fields unmarshal b)) λ f s.
            reply_to (λ r. write_json 200 (as_json (one r))) write_client_error
              (Clients.update d id f s)

    unfoldable pub handle_delete_client : String → Answer
    handle_delete_client raw =
        with_valid (path_uuid t "id" raw)
          λ id s. reply_to (λ x. write_header 204) write_client_error (Clients.delete d id s)
