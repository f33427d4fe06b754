-- ===== src/Catalog/State.antt =====
-- The tables of the database, and the requests that change them: each service with the database, and
-- those of the ingests and of the live identifiers with the other services as their checks, as
-- `ingest.NewService` and `liveid.NewService` get them in backend/cmd/server/main.go. The foreign key of
-- `platform_id` in backend/internal/dbconn/dbconn.go keeps a platform that a live identifier refers to.
use po_c_go_live.Base.{ℕ, String, Bool, true, false, none, some, List, [], ◌∷◌, ◌==◌}
use po_c_go_live.Dict.{find}
use po_c_go_live.Client.Model as ClientModel
use po_c_go_live.Client.Service as Clients
use po_c_go_live.Ingest.Model as IngestModel
use po_c_go_live.Ingest.Service as Ingests
use po_c_go_live.Platform.Model as PlatformModel
use po_c_go_live.Platform.Service as Platforms
use po_c_go_live.LiveId.Model as LiveIdModel
use po_c_go_live.LiveId.Service as LiveIds

pub record Catalog : Type 0 where
  pub clients : Clients.Table
  pub platforms : Platforms.Table
  pub ingests : Ingests.Table
  pub live_ids : LiveIds.Table

-- What the database does in a call: whether it answers, the time, and the key of a new row.
pub record Call : Type 0 where
  pub answers : Bool
  pub now : ℕ
  pub new_key : String

pub data Request : Type 0 where
  create_client : ClientModel.CreateRequest → Request
  update_client : String → ClientModel.UpdateFields → Request
  delete_client : String → Request
  create_platform : PlatformModel.CreateRequest → Request
  update_platform : String → PlatformModel.UpdateRequest → Request
  delete_platform : String → Request
  create_ingest : String → IngestModel.CreateRequest → Request
  update_ingest : String → IngestModel.UpdateRequest → Request
  delete_ingest : String → Request
  create_live_id : String → LiveIdModel.CreateRequest → Request
  update_live_id : String → LiveIdModel.UpdateRequest → Request
  delete_live_id : String → Request

unfoldable pub is_of_platform : String → String → LiveIdModel.ClientLiveId → Bool
is_of_platform platform id r = r.platform_id == platform

-- REFERENCES streaming_platforms (id)
unfoldable pub in_use : LiveIds.Table → String → Bool
in_use t platform = elim (find (is_of_platform platform) t) [ none ↦ false | some r ↦ true ]

abbrev pub client_deps : Call → Clients.Deps
client_deps c = record { answers = c.answers; now = c.now; random_uuid = λ t. c.new_key }

abbrev pub platform_deps : Call → Catalog → Platforms.Deps
platform_deps c s = record {
  answers = c.answers;
  now = c.now;
  random_uuid = λ t. c.new_key;
  in_use = in_use s.live_ids;
}

abbrev pub ingest_deps : Call → Catalog → Ingests.Deps
ingest_deps c s = record {
  answers = c.answers;
  now = c.now;
  random_uuid = λ t. c.new_key;
  client_exists = λ id. Clients.exists (client_deps c) id s.clients;
}

abbrev pub live_id_deps : Call → Catalog → LiveIds.Deps
live_id_deps c s = record {
  answers = c.answers;
  client_exists = λ id. Clients.exists (client_deps c) id s.clients;
  platform_exists = λ id. Platforms.exists (platform_deps c s) id s.platforms;
  random_uuid = λ t. c.new_key;
  now = c.now;
}

module _ (u : IngestModel.Urls) where
  unfoldable pub execute : Call → Request → Catalog → Catalog
  execute c (create_client req) s = record s {
    clients = (Clients.create (client_deps c) req s.clients).1;
  }
  execute c (update_client id f) s = record s {
    clients = (Clients.update (client_deps c) id f s.clients).1;
  }
  execute c (delete_client id) s = record s {
    clients = (Clients.delete (client_deps c) id s.clients).1;
  }
  execute c (create_platform req) s = record s {
    platforms = (Platforms.create u.unicode_lower (platform_deps c s) req s.platforms).1;
  }
  execute c (update_platform id req) s = record s {
    platforms = (Platforms.update u.unicode_lower (platform_deps c s) id req s.platforms).1;
  }
  execute c (delete_platform id) s = record s {
    platforms = (Platforms.delete (platform_deps c s) id s.platforms).1;
  }
  execute c (create_ingest client req) s = record s {
    ingests = (Ingests.create u (ingest_deps c s) client req s.ingests).1;
  }
  execute c (update_ingest id req) s = record s {
    ingests = (Ingests.update u (ingest_deps c s) id req s.ingests).1;
  }
  execute c (delete_ingest id) s = record s {
    ingests = (Ingests.delete (ingest_deps c s) id s.ingests).1;
  }
  execute c (create_live_id client req) s = record s {
    live_ids = (LiveIds.create (live_id_deps c s) client req s.live_ids).1;
  }
  execute c (update_live_id id req) s = record s {
    live_ids = (LiveIds.update (live_id_deps c s) id req s.live_ids).1;
  }
  execute c (delete_live_id id) s = record s {
    live_ids = (LiveIds.delete (live_id_deps c s) id s.live_ids).1;
  }

  unfoldable pub run : List (Call × Request) → Catalog → Catalog
  run [] s = s
  run ((c, r) ∷ rs) s = run rs (execute c r s)
