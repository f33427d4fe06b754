-- ===== src/Obs/Watch.antt =====
-- `watchLoop` of backend/internal/obs/obs.go. A turn of the loop is what its two `select`s choose, and
-- what the other goroutines and OBS have done by then.
use po_c_go_live.Base.{
  ℕ, ◌*◌, Bool, true, false, Option, none, some, List, [], ◌∷◌, ltb, if◌then◌else◌,
}
use po_c_go_live.Obs.{Fault}
use po_c_go_live.Obs.Client.{Goobs, ObsController, healthy, reconnect}

-- Nanoseconds, as in `time.Duration`.
abbrev pub initial_backoff : ℕ
initial_backoff = 1000000000

abbrev pub max_backoff : ℕ
max_backoff = 30000000000

-- `before` is what happens until the tick, `meanwhile` until the end of the backoff; the two Booleans
-- say that `stopCh` is closed there.
pub record Turn (C V : Type 0) : Type 0 where
  pub before : ObsController C V → ObsController C V
  pub stopped : Bool
  pub meanwhile : ObsController C V → ObsController C V
  pub stopped_waiting : Bool

pub record Watch (C V : Type 0) : Type 0 where
  pub controller : ObsController C V
  pub backoff : ℕ

abbrev pub next_backoff : ℕ → ℕ
next_backoff b = if ltb max_backoff (b * 2) then max_backoff else b * 2

module _ {C V : Type 0} where
  abbrev retried : ℕ → Option Fault × ObsController C V → Watch C V
  retried b (some f, o) = record { controller = o; backoff = next_backoff b }
  retried b (none, o) = record { controller = o; backoff = initial_backoff }

  abbrev pub mark_lost : ObsController C V → ObsController C V
  mark_lost o = record o { connected = false }

  module _ (g : Goobs C V) where
    -- From the backoff on.
    unfoldable pub retry : Turn C V → ℕ → ObsController C V → Bool × Watch C V
    retry t b o =
        if t.stopped_waiting
        then (false, record { controller = o; backoff = b })
        else (true, retried b (reconnect g (t.meanwhile o)))

    -- The body of the loop, with whether it goes on.
    unfoldable pub turn : Turn C V → Watch C V → Bool × Watch C V
    unfolding retry
    turn t w =
        let (alive, o) = healthy g (t.before w.controller) in
        if t.stopped
        then (false, record w { controller = t.before w.controller })
        else if alive
        then (true, record { controller = o; backoff = initial_backoff })
        else retry t w.backoff (mark_lost o)

    unfoldable pub watch_loop : List (Turn C V) → Watch C V → Watch C V
    unfolding turn
    watch_loop [] w = w
    watch_loop (t ∷ ts) w =
        let r = turn t w in let rest = watch_loop ts r.1 in if r.0 then rest else r.1
