-- ===== src/Events/Open.antt =====
-- The channels of the hub of backend/internal/events/hub.go: which are open, and how full they are.
use po_c_go_live.Base.{
  ℕ, ◌≤◌, ◌<◌, ◌≡◌, refl, true, false, Bool, not, ◌&&◌, ◌||◌, List, [], ◌∷◌, arith, eqb, length,
  length-append, Bool-cases, inl, inr,
}
use po_c_go_live.Events.Commands.{
  Command, subscribes, publishes, cancels, receives, rest, receive, execute, run,
}
use po_c_go_live.Events.{
  Channel, Hub, new_hub, publish, subscribe, cancel, has_channel, without_channel, offer, offer_all,
}

abbrev is_closed : ℕ → List ℕ → Bool
is_closed n [] = false
is_closed n (k ∷ ks) = eqb k n || is_closed n ks

-- No channel is closed twice.
abbrev AreOnce : List ℕ → Type 0
AreOnce [] = Unit
AreOnce (k ∷ ks) = (is_closed k ks ≡ false) × AreOnce ks

module _ {E : Type 0} where
  abbrev AreBounded : List (Channel E) → Type 0
  AreBounded [] = Unit
  AreBounded (ch ∷ chs) = (length ch.waiting ≤ 16) × AreBounded chs

  pub record IsOpen (h : Hub E) : Type 0 where
    pub subs_open : (n : ℕ) → has_channel n h.subs ≡ true → is_closed n h.closed ≡ false
    pub subs_made : (n : ℕ) → has_channel n h.subs ≡ true → n < h.made
    pub closed_made : (n : ℕ) → is_closed n h.closed ≡ true → n < h.made
    pub closed_once : AreOnce h.closed
    pub bounded : AreBounded h.subs

  has_channel-offer_all :
      (e : E) (n : ℕ) (chs : List (Channel E)) → has_channel n (offer_all e chs) ≡ has_channel n chs
  unfolding has_channel offer_all offer
  has_channel-offer_all e n [] = refl
  has_channel-offer_all e n (ch ∷ chs) = ground (arith, has_channel-offer_all e n chs)

  offer_all-AreBounded :
      (e : E) (chs : List (Channel E)) → AreBounded chs → AreBounded (offer_all e chs)
  unfolding offer_all offer
  offer_all-AreBounded e [] h = tt
  offer_all-AreBounded e (ch ∷ chs) h =
      ground (arith, offer_all-AreBounded e chs, length-append ch.waiting (e ∷ []))

  has_channel-without_channel :
      (k n : ℕ) (chs : List (Channel E))
      → has_channel n (without_channel k chs) ≡ (not (eqb k n) && has_channel n chs)
  unfolding has_channel without_channel
  has_channel-without_channel k n [] = ground arith
  has_channel-without_channel k n (ch ∷ chs) = ground (arith, has_channel-without_channel k n chs)

  without_channel-AreBounded :
      (k : ℕ) (chs : List (Channel E)) → AreBounded chs → AreBounded (without_channel k chs)
  unfolding without_channel
  without_channel-AreBounded k [] h = tt
  without_channel-AreBounded k (ch ∷ chs) h = ground (arith, without_channel-AreBounded k chs)

  publish-IsOpen : (e : E) (h : Hub E) → IsOpen h → IsOpen (publish e h)
  unfolding publish
  publish-IsOpen e h o = record {
    subs_open = λ n c. o.subs_open n (rw (has_channel-offer_all e n h.subs) at c);
    subs_made = λ n c. o.subs_made n (rw (has_channel-offer_all e n h.subs) at c);
    closed_made = o.closed_made;
    closed_once = o.closed_once;
    bounded = offer_all-AreBounded e h.subs o.bounded;
  }

  subscribe-IsOpen : (h : Hub E) → IsOpen h → IsOpen (subscribe h).1
  unfolding subscribe has_channel
  subscribe-IsOpen h o = record {
    subs_open = λ n c. ground (arith, o.subs_open n, o.closed_made n);
    subs_made = λ n c. ground (arith, o.subs_made n);
    closed_made = λ n c. ground (arith, o.closed_made n);
    closed_once = o.closed_once;
    bounded = (ground arith, o.bounded);
  }

  close_IsOpen :
      (k : ℕ) (h : Hub E)
      → has_channel k h.subs ≡ true
      → IsOpen h
      → IsOpen (record h { subs = without_channel k h.subs; closed = k ∷ h.closed })
  close_IsOpen k h y o = record {
    subs_open = λ n c. ground (arith, has_channel-without_channel k n h.subs, o.subs_open n);
    subs_made = λ n c. ground (arith, has_channel-without_channel k n h.subs, o.subs_made n);
    closed_made = λ n c. elim (Bool-cases (eqb k n)) [
      | inr q ↦ ground (arith, o.closed_made n)
      | inl q ↦ ground (arith, o.subs_made k)
    ];
    closed_once = (o.subs_open k y, o.closed_once);
    bounded = without_channel-AreBounded k h.subs o.bounded;
  }

  cancel-IsOpen : (k : ℕ) (h : Hub E) → IsOpen h → IsOpen (cancel k h)
  unfolding cancel
  cancel-IsOpen k h o = elim (Bool-cases (has_channel k h.subs)) [
    | inr n ↦ unfold cancel in rw (n, cancel) o
    | inl y ↦ unfold cancel in rw (y, cancel) (close_IsOpen k h y o)
  ]

  rest-bounded : (es : List E) → length es ≤ 16 → length (rest es) ≤ 16
  rest-bounded [] h = h
  rest-bounded (e ∷ es) h = omega arith

  receive-AreBounded :
      (n : ℕ) (chs : List (Channel E)) → AreBounded chs → AreBounded (receive n chs)
  unfolding receive
  receive-AreBounded n [] h = tt
  receive-AreBounded n (ch ∷ chs) h =
      ground (arith, receive-AreBounded n chs, rest-bounded ch.waiting)

  has_channel-receive :
      (k n : ℕ) (chs : List (Channel E)) → has_channel n (receive k chs) ≡ has_channel n chs
  unfolding has_channel receive
  has_channel-receive k n [] = refl
  has_channel-receive k n (ch ∷ chs) = ground (arith, has_channel-receive k n chs)

  receive-IsOpen : (n : ℕ) (h : Hub E) → IsOpen h → IsOpen (record h { subs = receive n h.subs })
  receive-IsOpen k h o = record {
    subs_open = λ n c. o.subs_open n (rw (has_channel-receive k n h.subs) at c);
    subs_made = λ n c. o.subs_made n (rw (has_channel-receive k n h.subs) at c);
    closed_made = o.closed_made;
    closed_once = o.closed_once;
    bounded = receive-AreBounded k h.subs o.bounded;
  }

  execute-IsOpen : (c : Command E) (h : Hub E) → IsOpen h → IsOpen (execute c h)
  unfolding execute
  execute-IsOpen subscribes h o = subscribe-IsOpen h o
  execute-IsOpen (publishes e) h o = publish-IsOpen e h o
  execute-IsOpen (cancels n) h o = cancel-IsOpen n h o
  execute-IsOpen (receives n) h o = receive-IsOpen n h o

  run-IsOpen : (cs : List (Command E)) (h : Hub E) → IsOpen h → IsOpen (run cs h)
  unfolding run
  run-IsOpen [] h o = o
  run-IsOpen (c ∷ cs) h o = run-IsOpen cs (execute c h) (execute-IsOpen c h o)

  new_hub-IsOpen : IsOpen new_hub
  unfolding new_hub has_channel
  new_hub-IsOpen = record {
    subs_open = λ n c. refl;
    subs_made = λ n c. ground arith;
    closed_made = λ n c. ground arith;
    closed_once = tt;
    bounded = tt;
  }

  -- From `NewHub` on, whatever is subscribed, published, received and cancelled, also twice: no
  -- channel is closed a second time, no subscriber's channel is closed, so that nothing is sent on a
  -- closed one, and no buffer holds more than 16 events.
  pub new-run-IsOpen : (cs : List (Command E)) → IsOpen (run cs new_hub)
  new-run-IsOpen cs = run-IsOpen cs new_hub new_hub-IsOpen
