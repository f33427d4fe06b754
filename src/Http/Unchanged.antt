-- ===== src/Http/Unchanged.antt =====
-- Methods that change nothing where they fail: those of backend/internal/client, ingest, streamplatform and
-- liveid.
use Prim.Native.Char.{Char}
use po_c_go_live.Base.{◌≡◌, String, arith}
use po_c_go_live.Database as Db
use po_c_go_live.Client.Model as ClientModel
use po_c_go_live.Client.Service as Clients
use po_c_go_live.Ingest.Model as IngestModel
use po_c_go_live.Ingest.Service as Ingests
use po_c_go_live.Platform.Model as PlatformModel
use po_c_go_live.Platform.Service as Platforms
use po_c_go_live.LiveId.Model as LiveIdModel
use po_c_go_live.LiveId.Service as LiveIds

-- A method that fails leaves the table as it was.
abbrev pub IsKept : {E A S : Type 0} → S → Db.Outcome E A × S → Type 0
IsKept {E} s x = (e : E) → x.0 ≡ Db.err e → x.1 ≡ s

abbrev pub IsKeptLiveId :
    {A : Type 0} → LiveIds.Table → LiveIdModel.Outcome A × LiveIds.Table → Type 0
IsKeptLiveId s x = (e : LiveIdModel.Refusal) → x.0 ≡ LiveIdModel.err e → x.1 ≡ s

module _ (d : Clients.Deps) (t : Clients.Table) where
  pub create_client-IsKept : (req : ClientModel.CreateRequest) → IsKept t (Clients.create d req t)
  unfolding Clients.create Db.insert_unless Db.insert_row
  create_client-IsKept req e h = ground arith

  pub update_client-IsKept :
      (id : String) (f : ClientModel.UpdateFields) → IsKept t (Clients.update d id f t)
  unfolding Clients.update Clients.change
  update_client-IsKept id f e h = ground arith

  pub delete_client-IsKept : (id : String) → IsKept t (Clients.delete d id t)
  unfolding Clients.delete
  delete_client-IsKept id e h = ground arith

module _ (u : IngestModel.Urls) (d : Ingests.Deps) (t : Ingests.Table) where
  pub create_ingest-IsKept :
      (client : String) (req : IngestModel.CreateRequest)
      → IsKept t (Ingests.create u d client req t)
  unfolding Ingests.create Ingests.create_row Db.insert_unless Db.insert_row
  create_ingest-IsKept client req e h = ground arith

  pub update_ingest-IsKept :
      (id : String) (req : IngestModel.UpdateRequest) → IsKept t (Ingests.update u d id req t)
  unfolding Ingests.update Ingests.change
  update_ingest-IsKept id req e h = ground arith

  pub delete_ingest-IsKept : (id : String) → IsKept t (Ingests.delete d id t)
  unfolding Ingests.delete
  delete_ingest-IsKept id e h = ground arith

module _ (lower : Char → Char) (d : Platforms.Deps) (t : Platforms.Table) where
  pub create_platform-IsKept :
      (req : PlatformModel.CreateRequest) → IsKept t (Platforms.create lower d req t)
  unfolding Platforms.create Db.insert_unless Db.insert_row
  create_platform-IsKept req e h = ground arith

  pub update_platform-IsKept :
      (id : String) (req : PlatformModel.UpdateRequest)
      → IsKept t (Platforms.update lower d id req t)
  unfolding Platforms.update
  update_platform-IsKept id req e h = ground arith

  pub delete_platform-IsKept : (id : String) → IsKept t (Platforms.delete d id t)
  unfolding Platforms.delete
  delete_platform-IsKept id e h = ground arith

module _ (t : LiveIds.Table) where
  pub create_live_id-IsKept :
      (d : LiveIds.Deps) (client : String) (req : LiveIdModel.CreateRequest)
      → IsKeptLiveId t (LiveIds.create d client req t)
  unfolding LiveIds.create LiveIds.create_row
  create_live_id-IsKept d client req e h = ground arith

  pub update_live_id-IsKept :
      (d : LiveIds.Deps) (id : String) (req : LiveIdModel.UpdateRequest)
      → IsKeptLiveId t (LiveIds.update d id req t)
  unfolding LiveIds.update LiveIds.change
  update_live_id-IsKept d id req e h = ground arith

  pub delete_live_id-IsKept :
      (d : LiveIds.Deps) (id : String) → IsKeptLiveId t (LiveIds.delete d id t)
  unfolding LiveIds.delete
  delete_live_id-IsKept d id e h = ground arith
