-- ===== src/Obs/Backoff.antt =====
-- The waits of `watchLoop` of backend/internal/obs/obs.go, and its reconnections.
use po_c_go_live.Base.{
  ◌≡◌, ◌≢◌, ℕ, zero, suc, ◌*◌, ◌≤◌, true, false, inl, inr, none, List, [], ◌∷◌, ◌++◌, arith, ltb,
  length, if◌then◌else◌, Option-cases,
}
use po_c_go_live.Obs.Client.{Goobs, ObsController, healthy, reconnect, connect}
use po_c_go_live.Obs.Watch.{
  Turn, Watch, initial_backoff, max_backoff, next_backoff, mark_lost, retry, turn, watch_loop,
}

-- So many doublings, without the cap.
unfoldable pub doubled : ℕ → ℕ → ℕ
doubled zero b = b
doubled (suc n) b = doubled n (b * 2)

abbrev pub capped : ℕ → ℕ
capped b = if ltb max_backoff b then max_backoff else b

le-doubled : (n b : ℕ) → b ≤ doubled n b
unfolding doubled
le-doubled zero b = omega arith
le-doubled (suc n) b = omega (arith, le-doubled n (b * 2))

-- A cap at every doubling comes to one cap at the end.
capped-doubled :
    (n b : ℕ) → b ≤ max_backoff → capped (doubled n (next_backoff b)) ≡ capped (doubled n (b * 2))
capped-doubled n b h = ground (arith, le-doubled n max_backoff, le-doubled n (b * 2))

module _ {C V : Type 0} where
  abbrev pub IsBackoff : Watch C V → Type 0
  IsBackoff w = (initial_backoff ≤ w.backoff) × (w.backoff ≤ max_backoff)

  -- A turn that nothing stops.
  abbrev pub IsFree : Turn C V → Type 0
  IsFree t = (t.stopped ≡ false) × (t.stopped_waiting ≡ false)

  abbrev pub AreFree : List (Turn C V) → Type 0
  AreFree [] = Unit
  AreFree (t ∷ ts) = IsFree t × AreFree ts

  module _ (g : Goobs C V) where
    turn-IsBackoff : (t : Turn C V) (w : Watch C V) → IsBackoff w → IsBackoff (turn g t w).1
    unfolding turn retry
    turn-IsBackoff t w h =
        elim (Option-cases
          (reconnect g (t.meanwhile (mark_lost (healthy g (t.before w.controller)).1))).0) [
            | inl e ↦ ground arith
            | inr (f, e) ↦ ground arith
          ]

    -- Whatever OBS and the other goroutines do: a wait stays between one second and thirty.
    pub watch_loop-IsBackoff :
        (ts : List (Turn C V)) (w : Watch C V) → IsBackoff w → IsBackoff (watch_loop g ts w)
    unfolding watch_loop
    watch_loop-IsBackoff [] w h = h
    watch_loop-IsBackoff (t ∷ ts) w h =
        ground (arith, turn-IsBackoff t w h, watch_loop-IsBackoff ts (turn g t w).1)

    -- A turn that OBS does not answer in: it is not healthy, and a dial fails.
    abbrev pub IsDown : Turn C V → Type 0
    IsDown t =
        (o : ObsController C V)
        → ((healthy g (t.before o)).0 ≡ false) × ((reconnect g (t.meanwhile o)).0 ≢ none)

    abbrev pub AreDown : List (Turn C V) → Type 0
    AreDown [] = Unit
    AreDown (t ∷ ts) = IsFree t × IsDown t × AreDown ts

    down-turn :
        (t : Turn C V) (w : Watch C V)
        → IsFree t
        → IsDown t
        → ((turn g t w).0 ≡ true) × ((turn g t w).1.backoff ≡ next_backoff w.backoff)
    unfolding turn retry
    down-turn t w f d =
        elim (Option-cases
          (reconnect g (t.meanwhile (mark_lost (healthy g (t.before w.controller)).1))).0) [
            | inl e ↦ absurd ((d (mark_lost (healthy g (t.before w.controller)).1)).1 e)
            | inr (x, e) ↦ ground (arith, d w.controller)
          ]

    -- While OBS does not answer, each turn doubles the wait, up to thirty seconds.
    pub watch_loop-backoff :
        (ts : List (Turn C V)) (w : Watch C V)
        → AreDown ts
        → w.backoff ≤ max_backoff
        → (watch_loop g ts w).backoff ≡ capped (doubled (length ts) w.backoff)
    unfolding watch_loop doubled
    watch_loop-backoff [] w h m = ground arith
    watch_loop-backoff (t ∷ ts) w h m = ground (
      arith,
      down-turn t w h.0 h.1,
      watch_loop-backoff ts (turn g t w).1 h.2,
      capped-doubled (length ts) w.backoff m,
    )

    -- A dial at the end of the turn's wait succeeds.
    abbrev pub Answers : Turn C V → Type 0
    Answers t = (o : ObsController C V) → (reconnect g (t.meanwhile o)).0 ≡ none

    abbrev pub IsUp : Watch C V → Type 0
    IsUp w =
        (w.controller.connected ≡ true)
        × (w.controller.client ≢ none)
        × (w.backoff ≡ initial_backoff)

    reconnect-connected :
        (o : ObsController C V)
        → (reconnect g o).0 ≡ none
        → ((reconnect g o).1.connected ≡ true) × ((reconnect g o).1.client ≢ none)
    unfolding reconnect connect
    reconnect-connected o e = elim (Option-cases o.client) [
      | inl z ↦ elim (Option-cases (g.dial o.addr o.password o.world).0) [
        | inl y ↦ ground arith
        | inr (c, y) ↦ ground arith
      ]
      | inr (k, z) ↦ elim (Option-cases (g.dial o.addr o.password (g.disconnect k o.world)).0) [
        | inl y ↦ ground arith
        | inr (c, y) ↦ ground arith
      ]
    ]

    healthy-connected :
        (o : ObsController C V)
        → (healthy g o).0 ≡ true
        → ((healthy g o).1.connected ≡ true) × ((healthy g o).1.client ≢ none)
    unfolding healthy
    healthy-connected o e = elim (Option-cases o.client) [
      | inl z ↦ ground arith
      | inr (c, z) ↦ ground arith
    ]

    -- A turn that nothing stops goes on.
    free-turn : (t : Turn C V) (w : Watch C V) → IsFree t → (turn g t w).0 ≡ true
    unfolding turn retry
    free-turn t w f = ground arith

    turn-IsUp :
        (t : Turn C V) (w : Watch C V)
        → IsFree t
        → Answers t
        → ((turn g t w).0 ≡ true) × IsUp (turn g t w).1
    unfolding turn retry
    turn-IsUp t w f a = ground (
      arith,
      a (mark_lost (healthy g (t.before w.controller)).1),
      reconnect-connected (t.meanwhile (mark_lost (healthy g (t.before w.controller)).1)),
      healthy-connected (t.before w.controller),
    )

    -- Whatever happened in the turns before, if none is stopped: after a turn at the end of whose wait
    -- OBS answers, the controller is connected, and the wait is the first one again.
    pub watch_loop-IsUp :
        (ts : List (Turn C V)) (t : Turn C V) (w : Watch C V)
        → AreFree ts
        → IsFree t
        → Answers t
        → IsUp (watch_loop g (ts ++ (t ∷ [])) w)
    unfolding watch_loop
    watch_loop-IsUp [] t w h f a = ground (arith, turn-IsUp t w f a)
    watch_loop-IsUp (x ∷ ts) t w h f a =
        ground (arith, free-turn x w h.0, watch_loop-IsUp ts t (turn g x w).1 h.1 f a)
