-- ===== src/Events.antt =====
-- backend/internal/events/hub.go: the hub that fans events out to the WebSocket handlers. A channel
-- is its number and the events that wait in its buffer, oldest first.
pub mod Open
pub mod Commands
mod Tests
use po_c_go_live.Base.{
  ℕ, suc, Bool, true, false, List, [], ◌∷◌, ◌++◌, ltb, eqb, length, if◌then◌else◌,
}

-- The capacity in `make(chan Event, 16)`.
abbrev pub buffer_size : ℕ
buffer_size = 16

pub record Channel (E : Type 0) : Type 0 where
  pub number : ℕ
  pub waiting : List E

-- `made` is the number of the next channel: `make` returns one that is not in use.
pub record Hub (E : Type 0) : Type 0 where
  pub subs : List (Channel E)
  pub closed : List ℕ
  pub made : ℕ

module _ {E : Type 0} where
  -- `NewHub`
  unfoldable pub new_hub : Hub E
  new_hub = record { subs = []; closed = []; made = 0 }

  -- `select { case ch <- e: default: }`
  unfoldable pub offer : E → Channel E → Channel E
  offer e ch =
      if ltb (length ch.waiting) buffer_size
      then record ch { waiting = ch.waiting ++ e ∷ [] }
      else ch

  unfoldable pub offer_all : E → List (Channel E) → List (Channel E)
  offer_all e [] = []
  offer_all e (ch ∷ chs) = offer e ch ∷ offer_all e chs

  -- `Publish`
  unfoldable pub publish : E → Hub E → Hub E
  unfolding offer offer_all
  publish e h = record h { subs = offer_all e h.subs }

  -- `Subscribe`, with the number that its cancel function closes over.
  unfoldable pub subscribe : Hub E → ℕ × Hub E
  subscribe h = (
    h.made,
    record h { subs = record { number = h.made; waiting = [] } ∷ h.subs; made = suc h.made },
  )

  unfoldable pub has_channel : ℕ → List (Channel E) → Bool
  has_channel n [] = false
  has_channel n (ch ∷ chs) = if eqb ch.number n then true else has_channel n chs

  unfoldable pub without_channel : ℕ → List (Channel E) → List (Channel E)
  without_channel n [] = []
  without_channel n (ch ∷ chs) =
      let rest = without_channel n chs in if eqb ch.number n then rest else ch ∷ rest

  -- The cancel function that `Subscribe` returns.
  unfoldable pub cancel : ℕ → Hub E → Hub E
  unfolding has_channel without_channel
  cancel n h =
      if has_channel n h.subs
      then record h { subs = without_channel n h.subs; closed = n ∷ h.closed }
      else h
