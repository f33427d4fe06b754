-- ===== src/Http/Answered.antt =====
-- What one call of a service leaves in the tables, by the reply that a handler of backend/internal/httpapi
-- makes of it.
use po_c_go_live.Base.{◌≡◌, refl, ◌∙◌, ap, ◌⊎◌, inl, inr, ◌<◌}
use po_c_go_live.Database as Db
use po_c_go_live.Ingest.Model as IngestModel
use po_c_go_live.LiveId.Model as LiveIdModel
use po_c_go_live.LiveId.Service as LiveIds
use po_c_go_live.Catalog.State.{Catalog, Call, Request, execute}
use po_c_go_live.Http.Reply.{Reply}
use po_c_go_live.Http.Query.{Checked, valid, refused, with_valid, reply_to}
use po_c_go_live.Http.LiveIds.{live_id_reply}
use po_c_go_live.Http.Catalog.{Payload, on_table}
use po_c_go_live.Http.Unchanged.{IsKept, IsKeptLiveId}

module _ (u : IngestModel.Urls) (c : Call) (s : Catalog) where
  -- Nothing was changed, or the reply is no error and what is left is what a method leaves.
  abbrev pub IsAnswer : Reply Payload × Catalog → Type 0
  IsAnswer (r, s') = (s' ≡ s) ⊎ ((r.status < 400) × ((req : Request) × (s' ≡ execute u c req s)))

  module _ {T : Type 0} (put : T → Catalog) (t : T) (same : put t ≡ s) where
    pub checked :
        {A : Type 0} (k : Checked Payload A) (f : A → T → Reply Payload × T)
        → ((a : A) → IsAnswer (on_table put (f a t)))
        → IsAnswer (on_table put (with_valid k f t))
    checked (refused r) f h = inl same
    checked (valid a) f h = h a

    pub read :
        {E A : Type 0} (good : A → Reply Payload) (bad : E → Reply Payload) (x : Db.Outcome E A)
        → IsAnswer (on_table put (reply_to good bad (x, t)))
    read good bad (Db.ok a) = inl same
    read good bad (Db.err e) = inl same

    pub written :
        {E A : Type 0} (good : A → Reply Payload) (bad : E → Reply Payload) (req : Request)
        (x : Db.Outcome E A × T)
        → ((a : A) → (good a).status < 400)
        → IsKept t x
        → put x.1 ≡ execute u c req s
        → IsAnswer (on_table put (reply_to good bad x))
    written good bad req (Db.ok a, t') g k e = inr (g a, (req, e))
    written good bad req (Db.err e', t') g k e = inl (ap put (k e' refl) ∙ same)

  abbrev pub with_live_ids : LiveIds.Table → Catalog
  with_live_ids t = record s { live_ids = t }

  pub read_live_id :
      {A : Type 0} (good : A → Reply Payload) (x : LiveIdModel.Outcome A)
      → IsAnswer (on_table with_live_ids (live_id_reply good (x, s.live_ids)))
  read_live_id good (LiveIdModel.ok a) = inl refl
  read_live_id good (LiveIdModel.err e) = inl refl

  pub written_live_id :
      {A : Type 0} (good : A → Reply Payload) (req : Request)
      (x : LiveIdModel.Outcome A × LiveIds.Table)
      → ((a : A) → (good a).status < 400)
      → IsKeptLiveId s.live_ids x
      → with_live_ids x.1 ≡ execute u c req s
      → IsAnswer (on_table with_live_ids (live_id_reply good x))
  written_live_id good req (LiveIdModel.ok a, t') g k e = inr (g a, (req, e))
  written_live_id good req (LiveIdModel.err e', t') g k e = inl (ap with_live_ids (k e' refl))
