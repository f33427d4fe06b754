-- ===== src/Catalog/Sound.antt =====
-- The rules of the four services at once, and that a row refers only to rows that there are.
use po_c_go_live.Base.{List, [], ◌∷◌}
use po_c_go_live.Database.{AreRows}
use po_c_go_live.Client.Valid as ClientValid
use po_c_go_live.Client.Rules as ClientRules
use po_c_go_live.Ingest.Model as IngestModel
use po_c_go_live.Ingest.Rules as IngestRules
use po_c_go_live.Platform.Rules as PlatformRules
use po_c_go_live.LiveId.Unique as LiveIdRules
use po_c_go_live.Catalog.State.{
  Catalog, Call, Request, create_client, update_client, delete_client, create_platform,
  update_platform, delete_platform, create_ingest, update_ingest, delete_ingest, create_live_id,
  update_live_id, delete_live_id, client_deps, platform_deps, ingest_deps, live_id_deps, execute,
  run,
}
use po_c_go_live.Catalog.References.{
  RefersIngest, RefersLiveId, IsReferenced, clients-Keeps, platforms-Keeps, create_client-Keeps,
  update_client-Keeps, delete_client-Keeps, create_platform-Keeps, update_platform-Keeps,
  delete_platform-IsReferenced,
}
use po_c_go_live.Catalog.Rows.{
  create_ingest-IsReferenced, update_ingest-IsReferenced, delete_ingest-IsReferenced,
  create_live_id-IsReferenced, update_live_id-IsReferenced, delete_live_id-IsReferenced,
}

module _ (u : IngestModel.Urls) where
  pub record IsSound (s : Catalog) : Type 0 where
    pub clients : ClientValid.AreClients s.clients
    pub platforms : PlatformRules.ArePlatforms u.unicode_lower s.platforms
    pub ingests : IngestRules.AreIngests u s.ingests
    pub live_ids : LiveIdRules.IsUnique s.live_ids
    pub referenced : IsReferenced s

  client_step :
      (k : ClientRules.Command) (s : Catalog)
      → IsReferenced (record s { clients = ClientRules.execute k s.clients })
      → IsSound s
      → IsSound (record s { clients = ClientRules.execute k s.clients })
  client_step k s r h = record {
    clients = ClientRules.execute-AreClients k s.clients h.clients;
    platforms = h.platforms;
    ingests = h.ingests;
    live_ids = h.live_ids;
    referenced = r;
  }

  platform_step :
      (k : PlatformRules.Command) (s : Catalog)
      → IsReferenced (record s { platforms = PlatformRules.execute u.unicode_lower k s.platforms })
      → IsSound s
      → IsSound (record s { platforms = PlatformRules.execute u.unicode_lower k s.platforms })
  platform_step k s r h = record {
    clients = h.clients;
    platforms = PlatformRules.execute-ArePlatforms u.unicode_lower k s.platforms h.platforms;
    ingests = h.ingests;
    live_ids = h.live_ids;
    referenced = r;
  }

  ingest_step :
      (k : IngestRules.Command) (s : Catalog)
      → AreRows (RefersIngest s.clients) (IngestRules.execute u k s.ingests)
      → IsSound s
      → IsSound (record s { ingests = IngestRules.execute u k s.ingests })
  ingest_step k s r h = record {
    clients = h.clients;
    platforms = h.platforms;
    ingests = IngestRules.execute-AreIngests u k s.ingests h.ingests;
    live_ids = h.live_ids;
    referenced = (r, h.referenced.1);
  }

  live_id_step :
      (k : LiveIdRules.Command) (s : Catalog)
      → AreRows (RefersLiveId s.clients s.platforms) (LiveIdRules.execute k s.live_ids)
      → IsSound s
      → IsSound (record s { live_ids = LiveIdRules.execute k s.live_ids })
  unfolding LiveIdRules.run
  live_id_step k s r h = record {
    clients = h.clients;
    platforms = h.platforms;
    ingests = h.ingests;
    live_ids = LiveIdRules.run-IsUnique (k ∷ []) s.live_ids h.live_ids;
    referenced = (h.referenced.0, r);
  }

  pub execute-IsSound :
      (c : Call) (r : Request) (s : Catalog) → IsSound s → IsSound (execute u c r s)
  unfolding execute ClientRules.execute PlatformRules.execute IngestRules.execute
      LiveIdRules.execute
  execute-IsSound c (create_client req) s h =
      let d = client_deps c in
      client_step (ClientRules.creates d req) s
        (clients-Keeps s _ (create_client-Keeps d req s.clients) h.referenced) h
  execute-IsSound c (update_client id f) s h =
      let d = client_deps c in
      client_step (ClientRules.updates d id f) s
        (clients-Keeps s _ (update_client-Keeps d id f s.clients) h.referenced) h
  execute-IsSound c (delete_client id) s h =
      let d = client_deps c in
      client_step (ClientRules.deletes d id) s
        (clients-Keeps s _ (delete_client-Keeps d id s.clients) h.referenced) h
  execute-IsSound c (create_platform req) s h =
      let d = platform_deps c s in
      platform_step (PlatformRules.creates d req) s
        (platforms-Keeps s _ (create_platform-Keeps u.unicode_lower d req s.platforms) h.referenced)
        h
  execute-IsSound c (update_platform id req) s h =
      let d = platform_deps c s in
      platform_step (PlatformRules.updates d id req) s
        (platforms-Keeps s _ (update_platform-Keeps u.unicode_lower d id req s.platforms)
          h.referenced)
        h
  execute-IsSound c (delete_platform id) s h =
      platform_step (PlatformRules.deletes (platform_deps c s) id) s
        (delete_platform-IsReferenced c id s h.referenced) h
  execute-IsSound c (create_ingest client req) s h =
      ingest_step (IngestRules.creates (ingest_deps c s) client req) s
        (create_ingest-IsReferenced u c client req s h.referenced.0) h
  execute-IsSound c (update_ingest id req) s h =
      ingest_step (IngestRules.updates (ingest_deps c s) id req) s
        (update_ingest-IsReferenced u c id req s h.ingests h.referenced.0) h
  execute-IsSound c (delete_ingest id) s h =
      ingest_step (IngestRules.deletes (ingest_deps c s) id) s
        (delete_ingest-IsReferenced (ingest_deps c s) u id s h.referenced.0) h
  execute-IsSound c (create_live_id client req) s h =
      live_id_step (LiveIdRules.creates (live_id_deps c s) client req) s
        (create_live_id-IsReferenced c client req s h.referenced.1) h
  execute-IsSound c (update_live_id id req) s h =
      live_id_step (LiveIdRules.updates (live_id_deps c s) id req) s
        (update_live_id-IsReferenced (live_id_deps c s) id req s h.referenced.1) h
  execute-IsSound c (delete_live_id id) s h =
      live_id_step (LiveIdRules.deletes (live_id_deps c s) id) s
        (delete_live_id-IsReferenced (live_id_deps c s) id s h.referenced.1) h

  -- Whatever the clients of the four services ask, and whether or not the database answers each time:
  -- the rules of each service hold of its table, an ingest refers to a client that there is, deleted or
  -- not, and a live identifier to a client and a platform that there are. This goes on from any database
  -- where it holds.
  pub run-IsSound : (rs : List (Call × Request)) (s : Catalog) → IsSound s → IsSound (run u rs s)
  unfolding run
  run-IsSound [] s h = h
  run-IsSound ((c, r) ∷ rs) s h = run-IsSound rs (execute u c r s) (execute-IsSound c r s h)
