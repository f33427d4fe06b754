-- ===== src/Http/Platforms.antt =====
-- backend/internal/httpapi/platforms_handlers.go. `as_json` shows a row, whose key is left out, or a page.
-- `lower` is `unicode.ToLower`.
use Prim.Native.Char.{Char}
use po_c_go_live.Base.{String}
use po_c_go_live.Platform.Model.{
  Refusal, not_found, duplicate_slug, invalid_slug, invalid_name, platform_in_use, database_failed,
  Platform, CreateRequest, UpdateRequest,
}
use po_c_go_live.Platform.Service as Platforms
use po_c_go_live.Http.Reply.{Reply, write_json, write_error, write_validation_error, write_header}
use po_c_go_live.Http.Query.{
  Texts, Values, Decoded, Shown, one, page, decode_json, path_uuid, parse_page, with_valid,
  reply_to, write_internal_error,
}

module _ {P : Type 0} where
  unfoldable pub write_platform_error : Refusal → Reply P
  unfolding write_internal_error
  write_platform_error not_found = write_error 404 "streaming platform not found"
  write_platform_error duplicate_slug =
      write_error 409 "a streaming platform with this slug already exists"
  write_platform_error platform_in_use =
      write_error 409 "streaming platform is referenced by existing live ids"
  write_platform_error invalid_slug =
      write_validation_error "slug" "slug must not be empty and at most 100 characters"
  write_platform_error invalid_name =
      write_validation_error "displayName"
        "display name must not be empty and at most 200 characters"
  write_platform_error database_failed = write_internal_error

  module _ (as_json : Shown Platform → P) (t : Texts) (lower : Char → Char)
      (d : Platforms.Deps) where
    abbrev pub Answer : Type 0
    Answer = Platforms.Table → Reply P × Platforms.Table

    unfoldable pub handle_create_platform : Decoded CreateRequest → Answer
    handle_create_platform body = with_valid (decode_json body) λ req s.
        reply_to (λ r. write_json 201 (as_json (one r))) write_platform_error
          (Platforms.create lower d req s)

    unfoldable pub handle_list_platforms : Values → Answer
    handle_list_platforms q = with_valid (parse_page t q) λ req s.
        reply_to (λ rows. write_json 200 (as_json (page rows))) write_platform_error
          (Platforms.list t.number t.encode d req s, s)

    unfoldable pub handle_get_platform : String → Answer
    handle_get_platform raw = with_valid (path_uuid t "id" raw) λ id s.
        reply_to (λ r. write_json 200 (as_json (one r))) write_platform_error
          (Platforms.get_by_id d id s, s)

    unfoldable pub handle_update_platform : String → Decoded UpdateRequest → Answer
    handle_update_platform raw body = with_valid (path_uuid t "id" raw) λ id.
        with_valid (decode_json body) λ req s.
          reply_to (λ r. write_json 200 (as_json (one r))) write_platform_error
            (Platforms.update lower d id req s)

    unfoldable pub handle_delete_platform : String → Answer
    handle_delete_platform raw =
        with_valid (path_uuid t "id" raw)
          λ id s. reply_to (λ x. write_header 204) write_platform_error (Platforms.delete d id s)
