-- ===== src/Catalog/Destinations.antt =====
-- `ListActiveForClient` of backend/internal/liveid/service.go on the tables of the four services, which
-- the adapter of backend/cmd/server/main.go gives to the broadcast manager.
use mathlib.Core.List.Memᴰ.{Memᴰ, head, tail}
use Prim.Native.String.{◌++◌}
use po_c_go_live.Base.{
  ◌≡◌, refl, ap, sym, subst, ◌∙◌, ℕ, String, Bool, true, inl, inr, none, some, List, [], ◌∷◌, arith,
  ◌==◌, eq_iff, Bool-cases, Option-cases,
}
use po_c_go_live.Dict.{Dict, get}
use po_c_go_live.Database.Listing.{filter, before, cursor_of, place, ordered}
use po_c_go_live.Ingest.Model.{Urls}
use po_c_go_live.Platform.Model.{Platform}
use po_c_go_live.LiveId.Model.{ClientLiveId}
use po_c_go_live.LiveId.Service.{Destination, is_active_for, destinations, list_active_for_client}
use po_c_go_live.Catalog.State.{Catalog}
use po_c_go_live.Catalog.Sound.{IsSound}

get-Mem : {R : Type 0} (id : String) (r : R) (t : Dict R) → get id t ≡ some r → Memᴰ (id, r) t
unfolding get
get-Mem id r [] e = absurd (ground arith)
get-Mem id r ((j, x) ∷ t) e = elim (Bool-cases (j == id)) [
  | inl z ↦
      let p : id ≡ j = ground (arith, eq_iff j id) in
      let q : r ≡ x = ground arith in head (rw (p, q) refl)
  | inr z ↦ tail (get-Mem id r t (rw z at e))
]

filter-Mem :
    {A : Type 0} (p : A → Bool) (x : A) (xs : List A)
    → p x ≡ true
    → Memᴰ x xs
    → Memᴰ x (filter p xs)
unfolding filter
filter-Mem p x [] e m = elim m [ ]
filter-Mem p x (y ∷ ys) e (head q) = let a : p y ≡ true = ap p (sym q) ∙ e in rw a (head q)
filter-Mem p x (y ∷ ys) e (tail m) = elim (Bool-cases (p y)) [
  | inl z ↦ rw z (tail (filter-Mem p x ys e m))
  | inr z ↦ rw z (filter-Mem p x ys e m)
]

module _ (number : String → ℕ) {R : Type 0} (created : R → ℕ) where
  place_here : (x : String × R) (ys : List (String × R)) → Memᴰ x (place number created x ys)
  unfolding place
  place_here x [] = head refl
  place_here x (y ∷ ys) =
      elim (Bool-cases (before number (cursor_of number created x) (cursor_of number created y))) [
        | inl z ↦ rw z (head refl)
        | inr z ↦ rw z (tail (place_here x ys))
      ]

  place_there :
      (w x : String × R) (ys : List (String × R)) → Memᴰ w ys → Memᴰ w (place number created x ys)
  unfolding place
  place_there w x [] m = elim m [ ]
  place_there w x (y ∷ ys) m =
      elim (Bool-cases (before number (cursor_of number created x) (cursor_of number created y))) [
        | inl z ↦ rw z (tail m)
        | inr z ↦ rw z (elim m [ head q ↦ head q | tail n ↦ tail (place_there w x ys n) ])
      ]

  ordered-Mem :
      (x : String × R) (xs : List (String × R)) → Memᴰ x xs → Memᴰ x (ordered number created xs)
  unfolding ordered
  ordered-Mem x [] m = elim m [ ]
  ordered-Mem x (y ∷ ys) (head q) =
      subst (λ z. Memᴰ x (place number created z (ordered number created ys))) q
        (place_here x (ordered number created ys))
  ordered-Mem x (y ∷ ys) (tail m) = place_there x y (ordered number created ys) (ordered-Mem x ys m)

abbrev pub destination_of : String → ClientLiveId → Platform → Destination
destination_of id r p = record {
  live_id = id;
  platform_name = p.display_name;
  push_url = p.ingest_url_template ++ ("/" ++ r.stream_key);
}

destinations_here :
    (platforms : Dict Platform) (j : String) (x : ClientLiveId) (p : Platform)
    (rows : List (String × ClientLiveId))
    → get x.platform_id platforms ≡ some p
    → destinations platforms ((j, x) ∷ rows) ≡ destination_of j x p ∷ destinations platforms rows
unfolding destinations
destinations_here platforms j x p rows g = ground arith

destinations_none :
    (platforms : Dict Platform) (j : String) (x : ClientLiveId)
    (rows : List (String × ClientLiveId))
    → get x.platform_id platforms ≡ none
    → destinations platforms ((j, x) ∷ rows) ≡ destinations platforms rows
unfolding destinations
destinations_none platforms j x rows g = ground arith

destinations-Mem :
    (platforms : Dict Platform) (id : String) (r : ClientLiveId) (p : Platform)
    (rows : List (String × ClientLiveId))
    → get r.platform_id platforms ≡ some p
    → Memᴰ (id, r) rows
    → Memᴰ (destination_of id r p) (destinations platforms rows)
destinations-Mem platforms id r p [] g m = elim m [ ]
destinations-Mem platforms id r p ((j, x) ∷ rows) g (head q) =
    let a : id ≡ j = ap (λ y. y.0) q in
    let b : r ≡ x = ap (λ y. y.1) q in
    let f : get x.platform_id platforms ≡ some p =
      subst (λ y. get y.platform_id platforms ≡ some p) b g in
    subst (Memᴰ (destination_of id r p)) (sym (destinations_here platforms j x p rows f))
      (head (rw (a, b) refl))
destinations-Mem platforms id r p ((j, x) ∷ rows) g (tail m) =
    elim (Option-cases (get x.platform_id platforms)) [
      | inl z ↦
          let e = destinations_none platforms j x rows z in
          rw e (destinations-Mem platforms id r p rows g m)
      | inr (y, z) ↦
          let e = destinations_here platforms j x y rows z in
          rw e (tail (destinations-Mem platforms id r p rows g m))
    ]

-- Of a database where the rules hold: every active live identifier of a client is among the destinations
-- of the client, with its platform's name and the address that its platform's template and its key make.
pub IsSound-destination :
    (u : Urls) (number : String → ℕ) (s : Catalog) (id : String) (r : ClientLiveId)
    → IsSound u s
    → get id s.live_ids ≡ some r
    → r.is_active ≡ true
    → (p : Platform) × (get r.platform_id s.platforms ≡ some p)
      × Memᴰ
          (destination_of id r p)
          (list_active_for_client number s.platforms r.client_id s.live_ids)
unfolding list_active_for_client
IsSound-destination u number s id r h g a = elim (Option-cases (get r.platform_id s.platforms)) [
  | inl z ↦ absurd ((h.referenced.1 id r g).1 z)
  | inr (p, z) ↦
      let rows = filter (is_active_for r.client_id) s.live_ids in
      let m =
        filter-Mem (is_active_for r.client_id) (id, r) s.live_ids
          (ground (arith, eq_iff r.client_id r.client_id)) (get-Mem id r s.live_ids g) in
      (
        p,
        z,
        destinations-Mem s.platforms id r p (ordered number (λ x. x.created_at) rows) z
            (ordered-Mem number (λ x. x.created_at) (id, r) rows m),
      )
]
