-- ===== src/Catalog/Tests.antt =====
-- A database with a client, a platform and a live identifier.
use Prim.Native.String.{len}
use mathlib.Core.List.Memᴰ.{Memᴰ}
use po_c_go_live.Base.{◌≡◌, refl, String, true, false, Option, none, some, List, [], ◌∷◌, arith}
use po_c_go_live.Dict.{get, put, find}
use po_c_go_live.Database.{insert_unless, insert_row}
use po_c_go_live.Ingest.Model.{Urls, Url}
use po_c_go_live.Base.Text.{trim_space, to_lower}
use po_c_go_live.Client.Model as ClientModel
use po_c_go_live.Client.Service as Clients
use po_c_go_live.Platform.Model as PlatformModel
use po_c_go_live.Platform.Service as Platforms
use po_c_go_live.LiveId.Model as LiveIdModel
use po_c_go_live.LiveId.Service as LiveIds
use po_c_go_live.Platform.Model.{Platform}
use po_c_go_live.LiveId.Model.{ClientLiveId}
use po_c_go_live.LiveId.Service.{list_active_for_client}
use po_c_go_live.Catalog.State.{
  Catalog, Call, Request, create_client, create_platform, create_ingest, create_live_id,
  delete_platform, execute, run,
}
use po_c_go_live.Catalog.Sound.{IsSound, run-IsSound}
use po_c_go_live.Catalog.Destinations.{destination_of, IsSound-destination}

abbrev parse : String → Option Url
parse text = some (record { scheme = "https"; host = "live.tv"; has_user = false; rest = text })

abbrev urls : Urls
urls = record {
  parse_url = parse;
  url_string = λ u. u.rest;
  unicode_lower = λ c. c;
  parse_error = λ t. "";
  quote = λ t. t;
}

abbrev call : String → Call
call id = record { answers = true; now = 5001; new_key = id }

abbrev empty : Catalog
empty = record { clients = []; platforms = []; ingests = []; live_ids = [] }

abbrev requests : List (Call × Request)
requests =
    (call "c", create_client (record { name = "Ana"; email = none }))
    ∷ (
      call "p",
      create_platform (record {
        slug = "youtube";
        display_name = "YouTube";
        ingest_url_template = "rtmp://yt";
      }),
    )
    ∷ (call "i", create_ingest "c" (record { url = "https://live.tv/a"; is_active = none }))
    ∷ (
      call "l",
      create_live_id "c"
          (record { platform_id = "p"; live_id = "abc"; stream_key = "k"; is_active = none }),
    )
    ∷ (call "x", delete_platform "p")
    ∷ []

empty-IsSound : IsSound urls empty
unfolding get
empty-IsSound = record {
  clients = (λ i j a b k p q x y. absurd (ground arith), λ i a p. absurd (ground arith));
  platforms = (λ i j a b k p q x y. absurd (ground arith), λ i a p. absurd (ground arith));
  ingests = (λ i j a b k p q x y. absurd (ground arith), λ i a p. absurd (ground arith));
  live_ids = λ i j a b p q e. absurd (ground arith);
  referenced = (λ i a p. absurd (ground arith), λ i a p. absurd (ground arith));
}

run-IsSound_example : IsSound urls (run urls requests empty)
run-IsSound_example = run-IsSound urls requests empty empty-IsSound

abbrev row : ClientLiveId
row = record {
  client_id = "c";
  platform_id = "p";
  live_id = "abc";
  stream_key = "k";
  is_active = true;
  created_at = 5000;
}

there : get "l" (run urls requests empty).live_ids ≡ some row
unfolding run execute Clients.create Clients.exists Clients.row Clients.unless_deleted
    ClientModel.new_client ClientModel.normalize_name ClientModel.normalize_email Platforms.create
    Platforms.exists PlatformModel.new_platform PlatformModel.checked_slug
    PlatformModel.checked_display_name LiveIds.create LiveIds.create_row LiveIds.taken
    LiveIdModel.normalize_live_id LiveIdModel.normalize_stream_key insert_unless insert_row get put
    find trim_space to_lower
there = refl

IsSound-destination_example :
    (p : Platform) × (get "p" (run urls requests empty).platforms ≡ some p)
    × Memᴰ (destination_of "l" row p) (
        list_active_for_client len
          (run urls requests empty).platforms
          "c"
          (run urls requests empty).live_ids)
IsSound-destination_example =
    IsSound-destination urls len (run urls requests empty) "l" row
      (run-IsSound urls requests empty empty-IsSound) there refl
