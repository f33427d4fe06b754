-- ===== src/Http/CatalogTests.antt =====
-- Requests of clients and live identifiers, and their witnesses.
use Prim.Native.String.{len}
use po_c_go_live.Base.{
  ◌≡◌, String, true, false, Option, none, some, [], ◌∷◌, arith, ◌==◌, if◌then◌else◌,
}
use po_c_go_live.Ingest.Model.{Urls, Url}
use po_c_go_live.Client.Model.{Field, absent}
use po_c_go_live.Catalog.State.{Catalog, Call}
use po_c_go_live.Http.Query.{Texts, malformed, decode_json, path_uuid}
use po_c_go_live.Http.LiveIds.{handle_create_live_id}
use po_c_go_live.Http.Catalog.{post_live_ids, delete_platform, handle}
use po_c_go_live.Http.Refused.{handle_refused}
use po_c_go_live.Http.CatalogAsked.{asked, perform}
use po_c_go_live.Http.Performed.{handle-eq-perform}
use po_c_go_live.Catalog.State as State
use po_c_go_live.Catalog.State.{run}

abbrev texts : Texts
texts = record {
  parse_uuid = λ raw. if raw == "" then none else some raw;
  number = len;
  encode = λ c. "";
  decode = λ raw. none;
}

abbrev parse : String → Option Url
parse text = some (record { scheme = "https"; host = "live.tv"; has_user = false; rest = text })

abbrev urls : Urls
urls = record {
  parse_url = parse;
  url_string = λ u. u.rest;
  unicode_lower = λ c. c;
  parse_error = λ t. "";
  quote = λ t. t;
}

abbrev unmarshal : String → Option (String → Field)
unmarshal body = some (λ key. absent)

abbrev call : String → Call
call id = record { answers = true; now = 5; new_key = id }

abbrev empty : Catalog
empty = record { clients = []; platforms = []; ingests = []; live_ids = [] }

-- A client, a platform and a live identifier.
abbrev filled : Catalog
unfolding run
filled =
    run urls
      ((call "c", State.create_client (record { name = "Ana"; email = none }))
        ∷ (
          call "p",
          State.create_platform (record {
            slug = "youtube";
            display_name = "YouTube";
            ingest_url_template = "rtmp://yt";
          }),
        )
        ∷ (
          call "l",
          State.create_live_id "c"
              (record { platform_id = "p"; live_id = "abc"; stream_key = "k"; is_active = none }),
        )
        ∷ [])
      empty

handle-eq-perform_example :
    (handle texts unmarshal urls (call "x") (delete_platform "p") filled).1
    ≡ perform urls (call "x") (asked texts unmarshal (delete_platform "p")) filled
handle-eq-perform_example =
    handle-eq-perform texts unmarshal urls (call "x") (delete_platform "p") filled

handle_refused_example :
    (handle texts unmarshal urls (call "y") (post_live_ids "c" malformed) filled).1 ≡ filled
unfolding handle handle_create_live_id decode_json path_uuid
handle_refused_example =
    handle_refused texts unmarshal urls (call "y") (post_live_ids "c" malformed) filled
      (ground arith)
