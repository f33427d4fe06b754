-- ===== src/LiveId/Unique.antt =====
-- The rule of `ErrDuplicateLiveID` of backend/internal/liveid/service.go, as an invariant of the table.
use po_c_go_live.Base.{
  String, ◌≡◌, sym, ◌∙◌, Bool, true, false, ◌⊎◌, inl, inr, Option, none, some, List, [], ◌∷◌, arith,
  ◌==◌, eq_iff, Option-cases, if◌then◌else◌,
}
use po_c_go_live.Dict.{get, put, del, find, get-del, get-put-cases, find_none}
use po_c_go_live.LiveId.Model.{
  Outcome-cases, ok, ClientLiveId, CreateRequest, UpdateRequest, normalize_live_id,
  normalize_stream_key, active_or_default,
}
use po_c_go_live.LiveId.Service.{
  stored, Table, Deps, taken, taken_by_other, with_active, create_row, create, with_live_id,
  with_stream_key, change, update, delete,
}

pub data Command : Type 0 where
  creates : Deps → String → CreateRequest → Command
  updates : Deps → String → UpdateRequest → Command
  deletes : Deps → String → Command

unfoldable pub execute : Command → Table → Table
execute (creates d client req) t = (create d client req t).1
execute (updates d id req) t = (update d id req t).1
execute (deletes d id) t = (delete d id t).1

unfoldable pub run : List Command → Table → Table
run [] t = t
run (c ∷ cs) t = run cs (execute c t)

-- One client, one platform, one live identifier.
abbrev pub AreSame : ClientLiveId → ClientLiveId → Type 0
AreSame a b =
    (a.client_id ≡ b.client_id) × (a.platform_id ≡ b.platform_id) × (a.live_id ≡ b.live_id)

abbrev pub IsUnique : Table → Type 0
IsUnique t =
    (i j : String) (a b : ClientLiveId) → get i t ≡ some a → get j t ≡ some b → AreSame a b → i ≡ j

put-IsUnique :
    (id : String) (r : ClientLiveId) (t : Table)
    → ((k : String) (b : ClientLiveId) → get k t ≡ some b → (id == k) ≡ false → AreSame r b → ⊥)
    → IsUnique t
    → IsUnique (put id r t)
put-IsUnique id r t f h i j a b p q e = elim (get-put-cases id r t i a p) [
  | inl (s, x) ↦ elim (get-put-cases id r t j b q) [
    | inl (u, v) ↦ sym s ∙ u
    | inr (u, v) ↦ absurd (f j b v u (rw x e))
  ]
  | inr (s, x) ↦ elim (get-put-cases id r t j b q) [
    | inl (u, v) ↦ absurd (f i a x s (rw v (sym e.0, sym e.1, sym e.2)))
    | inr (u, v) ↦ h i j a b x v e
  ]
]

answered : (b : Bool) (o : Option Bool) → (if b then o else none) ≡ some true → o ≡ some true
answered true o e = e
answered false o e = absurd (ground arith)

pub create_row_cases :
    (d : Deps) (r : ClientLiveId) (t : Table)
    → ((create_row d r t).1 ≡ t)
      ⊎ ((find (taken r.client_id r.platform_id r.live_id) t ≡ none)
          × (d.client_exists r.client_id ≡ some true)
          × (d.platform_exists r.platform_id ≡ some true)
          × ((create_row d r t).1 ≡ put (d.random_uuid t) (stored r) t))
unfolding create_row
create_row_cases d r t = elim (Option-cases (find (taken r.client_id r.platform_id r.live_id) t)) [
  | inr (e, z) ↦ inl (ground arith)
  | inl z ↦ elim (Option-cases (get (d.random_uuid t) t)) [
    | inr (o, g) ↦ inl (ground arith)
    | inl g ↦ elim (Option-cases (if d.answers then d.client_exists r.client_id else none)) [
      | inl b ↦ inl (ground arith)
      | inr (false, b) ↦ inl (ground arith)
      | inr (true, b) ↦ elim (Option-cases (d.platform_exists r.platform_id)) [
        | inl c ↦ inl (ground arith)
        | inr (false, c) ↦ inl (ground arith)
        | inr (true, c) ↦
            inr (z, answered d.answers (d.client_exists r.client_id) b, c, ground arith)
      ]
    ]
  ]
]

create_row-IsUnique :
    (d : Deps) (r : ClientLiveId) (t : Table) → IsUnique t → IsUnique (create_row d r t).1
unfolding taken
create_row-IsUnique d r t h = elim (create_row_cases d r t) [
  | inl e ↦ rw e h
  | inr (f, b, c, e) ↦ rw e (
      put-IsUnique (d.random_uuid t) (stored r) t
        (λ k b g n s. ground (
          arith,
          find_none (taken r.client_id r.platform_id r.live_id) t k b f g,
          eq_iff b.client_id r.client_id,
          eq_iff b.platform_id r.platform_id,
          eq_iff b.live_id r.live_id,
        ))
        h)
]

pub create_cases :
    (d : Deps) (client : String) (req : CreateRequest) (t : Table)
    → ((create d client req t).1 ≡ t)
      ⊎ ((r : ClientLiveId) × ((create d client req t).1 ≡ (create_row d r t).1))
unfolding create
create_cases d client req t = elim (Outcome-cases (normalize_live_id req.live_id)) [
  | inr (e, z) ↦ inl (ground arith)
  | inl (live, z) ↦ elim (Outcome-cases (normalize_stream_key req.stream_key)) [
    | inr (e, z') ↦ inl (ground arith)
    | inl (key, z') ↦
        let r : ClientLiveId = record {
          client_id = client;
          platform_id = req.platform_id;
          live_id = live;
          stream_key = key;
          is_active = active_or_default req.is_active;
          created_at = d.now;
        } in
        inr (r, ground arith)
  ]
]

create-IsUnique :
    (d : Deps) (client : String) (req : CreateRequest) (t : Table)
    → IsUnique t
    → IsUnique (create d client req t).1
create-IsUnique d client req t h = elim (create_cases d client req t) [
  | inl e ↦ rw e h
  | inr (r, e) ↦ rw e (create_row-IsUnique d r t h)
]

-- Another row has another tuple.
IsFree : String → ClientLiveId → Table → Type 0
IsFree id r t =
    (k : String) (b : ClientLiveId) → get k t ≡ some b → (id == k) ≡ false → AreSame r b → ⊥

with_live_id-IsFree :
    (id : String) (text : Option String) (r named : ClientLiveId) (t : Table)
    → get id t ≡ some r
    → with_live_id id text r t ≡ ok named
    → IsUnique t
    → IsFree id named t
unfolding with_live_id IsFree taken_by_other
with_live_id-IsFree id none r named t g e h k b v n s =
    ground (arith, eq_iff id k, h id k r b g v (ground arith, ground arith, ground arith))
with_live_id-IsFree id (some text) r named t g e h k b v n s =
    elim (Outcome-cases (normalize_live_id text)) [
      | inr (x, z) ↦ ground arith
      | inl (live, z) ↦
          elim (Option-cases (find (taken_by_other id r.client_id r.platform_id live) t)) [
            | inr (x, y) ↦ ground arith
            | inl y ↦ ground (
              arith,
              find_none (taken_by_other id r.client_id r.platform_id live) t k b y v,
              eq_iff k id,
              eq_iff id k,
              eq_iff b.client_id r.client_id,
              eq_iff b.platform_id r.platform_id,
              eq_iff b.live_id live,
            )
          ]
    ]

pub with_stream_key-AreSame :
    (text : Option String) (active : Option Bool) (r changed : ClientLiveId)
    → with_stream_key text (with_active active r) ≡ ok changed
    → AreSame changed r
unfolding with_stream_key
with_stream_key-AreSame none none r changed e = ground arith
with_stream_key-AreSame none (some b) r changed e = ground arith
with_stream_key-AreSame (some text) none r changed e = ground arith
with_stream_key-AreSame (some text) (some b) r changed e = ground arith

pub change_cases :
    (id : String) (req : UpdateRequest) (t : Table)
    → ((change id req t).1 ≡ t)
      ⊎ ((r : ClientLiveId) × (named : ClientLiveId) × (changed : ClientLiveId) × (get id t
            ≡ some r)
          × (with_live_id id req.live_id r t ≡ ok named)
          × (with_stream_key req.stream_key (with_active req.is_active named) ≡ ok changed)
          × ((change id req t).1 ≡ put id changed t))
unfolding change
change_cases id req t = elim (Option-cases (get id t)) [
  | inl z ↦ inl (ground arith)
  | inr (r, z) ↦ elim (Outcome-cases (with_live_id id req.live_id r t)) [
    | inr (e, y) ↦ inl (ground arith)
    | inl (named, y) ↦
        elim (Outcome-cases (with_stream_key req.stream_key (with_active req.is_active named))) [
          | inr (e, x) ↦ inl (ground arith)
          | inl (changed, x) ↦ inr (r, named, changed, z, y, x, ground arith)
        ]
  ]
]

change-IsUnique :
    (id : String) (req : UpdateRequest) (t : Table) → IsUnique t → IsUnique (change id req t).1
unfolding IsFree
change-IsUnique id req t h = elim (change_cases id req t) [
  | inl e ↦ rw e h
  | inr (r, named, changed, z, y, x, e) ↦
      let same = with_stream_key-AreSame req.stream_key req.is_active named changed x in
      let free = with_live_id-IsFree id req.live_id r named t z y h in
      rw e (
        put-IsUnique id changed t
          (λ k b g n s. free k b g n (sym same.0 ∙ s.0, sym same.1 ∙ s.1, sym same.2 ∙ s.2)) h)
]

-- A call that the database does not answer changes nothing.
update_or_not :
    (d : Deps) (id : String) (req : UpdateRequest) (t : Table)
    → ((update d id req t).1 ≡ t) ⊎ ((update d id req t).1 ≡ (change id req t).1)
unfolding update
update_or_not d id req t = ground arith

pub update_cases :
    (d : Deps) (id : String) (req : UpdateRequest) (t : Table)
    → ((update d id req t).1 ≡ t)
      ⊎ ((r : ClientLiveId) × (named : ClientLiveId) × (changed : ClientLiveId) × (get id t
            ≡ some r)
          × (with_live_id id req.live_id r t ≡ ok named)
          × (with_stream_key req.stream_key (with_active req.is_active named) ≡ ok changed)
          × ((update d id req t).1 ≡ put id changed t))
update_cases d id req t = elim (update_or_not d id req t) [
  | inl e ↦ inl e
  | inr e ↦ elim (change_cases id req t) [
    | inl e' ↦ inl (e ∙ e')
    | inr (r, named, changed, z, y, x, e') ↦ inr (r, named, changed, z, y, x, e ∙ e')
  ]
]

update-IsUnique :
    (d : Deps) (id : String) (req : UpdateRequest) (t : Table)
    → IsUnique t
    → IsUnique (update d id req t).1
update-IsUnique d id req t h = elim (update_or_not d id req t) [
  | inl e ↦ rw e h
  | inr e ↦ rw e (change-IsUnique id req t h)
]

pub delete_cases :
    (d : Deps) (id : String) (t : Table) → ((delete d id t).1 ≡ t) ⊎ ((delete d id t).1 ≡ del id t)
unfolding delete
delete_cases d id t = ground arith

del-IsUnique : (id : String) (t : Table) → IsUnique t → IsUnique (del id t)
del-IsUnique id t h i j a b p q e = ground (arith, get-del id i t, get-del id j t, h i j a b)

delete-IsUnique : (d : Deps) (id : String) (t : Table) → IsUnique t → IsUnique (delete d id t).1
delete-IsUnique d id t h = elim (delete_cases d id t) [
  | inl e ↦ rw e h
  | inr e ↦ rw e (del-IsUnique id t h)
]

-- Whatever is created, updated and deleted, whether or not the database answers, and whatever the
-- checks of the client and the platform answer each time: no client has one live identifier twice on a
-- platform. This goes on from any table where it holds.
pub run-IsUnique : (cs : List Command) (t : Table) → IsUnique t → IsUnique (run cs t)
unfolding run execute
run-IsUnique [] t h = h
run-IsUnique (creates d client req ∷ cs) t h = run-IsUnique cs _ (create-IsUnique d client req t h)
run-IsUnique (updates d id req ∷ cs) t h = run-IsUnique cs _ (update-IsUnique d id req t h)
run-IsUnique (deletes d id ∷ cs) t h = run-IsUnique cs _ (delete-IsUnique d id t h)
