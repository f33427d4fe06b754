-- ===== src/Events/Commands.antt =====
-- What can happen to a hub: its methods are called, and a subscriber receives from its channel.
use po_c_go_live.Base.{ℕ, List, [], ◌∷◌, eqb, if◌then◌else◌}
use po_c_go_live.Events.{Channel, Hub, publish, subscribe, cancel}

pub data Command (E : Type 0) : Type 0 where
  subscribes : Command E
  publishes : E → Command E
  cancels receives : ℕ → Command E

module _ {E : Type 0} where
  abbrev pub rest : List E → List E
  rest [] = []
  rest (e ∷ es) = es

  unfoldable pub receive : ℕ → List (Channel E) → List (Channel E)
  receive n [] = []
  receive n (ch ∷ chs) =
      (if eqb ch.number n then record ch { waiting = rest ch.waiting } else ch) ∷ receive n chs

  unfoldable pub execute : Command E → Hub E → Hub E
  execute subscribes h = (subscribe h).1
  execute (publishes e) h = publish e h
  execute (cancels n) h = cancel n h
  execute (receives n) h = record h { subs = receive n h.subs }

  unfoldable pub run : List (Command E) → Hub E → Hub E
  run [] h = h
  run (c ∷ cs) h = run cs (execute c h)
