-- ===== src/Xmqd/Channel/Expire.antt =====
-- `processInFlightQueue` of xmqd/channel.go: the messages whose time has come are given back.
--
-- `connected` tells whether a client is still in the channel's list. The messages handed to `put`, the
-- clients told by `TimedOutMessage` and the additions to `TimeoutCount` are what the loop gives out.
use xmq.Base.{
  keep, map, ltb, All-weaken, ℕ, zero, suc, ◌+◌, ◌≤◌, ◌<◌, ◌≡◌, Bool, true, false, List, [], ◌∷◌,
  Option, none, some, if◌then◌else◌, All, length, ◌⊎◌, inl, inr, Bool-cases, ◌==◌, refl, ap, subst,
  arith,
}
use mathlib.Core.Option
use xmq.Xmqd.InFlight.{Pqueue, put, peek_and_shift}
use xmq.Xmqd.InFlight.Moves.{Holds}
use xmq.Xmqd.InFlight.Queue.{Taken}
use xmq.Xmqd.InFlight.Due.{Peeked, nothing_due, due, peek_and_shift-Peeked}
use xmq.Xmqd.Channel.{Channel, Popped, popped, refused, pop_in_flight, pop_in_flight_at}
use xmq.Xmqd.Channel.InFlight.{IsChannel, dropped_good}

pub record Expiry : Type 0 where
  pub dirty : Bool
  pub requeued : List ℕ
  pub notified : List ℕ
  pub timeouts : ℕ
  pub after : Channel

unfoldable pub with_requeued : (ℕ → Bool) → Channel → ℕ → Expiry → Expiry
with_requeued connected c m e = record {
  dirty = true;
  requeued = m ∷ e.requeued;
  notified = if connected (c.client m) then c.client m ∷ e.notified else e.notified;
  timeouts = suc e.timeouts;
  after = e.after;
}

unfoldable pub stopped : Bool → Channel → Expiry
stopped dirty c = record { dirty = dirty; requeued = []; notified = []; timeouts = 0; after = c }

-- The message's turn: `rest` is the loop from there on.
unfoldable pub expire_popped :
    (ℕ → Bool) → (Channel → Option Expiry) → Channel → ℕ → Popped → Option Expiry
expire_popped connected rest c m (refused e) = some (stopped true c)
expire_popped connected rest c m (popped n d) = Option.map (with_requeued connected c m) (rest d)

unfoldable pub expire_peeked :
    (ℕ → Bool)
    → (Channel → Option Expiry)
    → Channel
    → Option ((Option ℕ × ℕ) × Pqueue)
    → Option Expiry
expire_peeked connected rest c none = none
expire_peeked connected rest c (some ((none, w), q)) = some (stopped false (record c { pq = q }))
expire_peeked connected rest c (some ((some m, w), q)) =
    let d : Channel = record c { pq = q } in
    expire_popped connected rest d m (pop_in_flight d (d.client m) (d.id m))

unfoldable pub expire : (ℕ → Bool) → ℕ → Channel → ℕ → Option Expiry
expire connected zero c t = none
expire connected (suc k) c t =
    expire_peeked connected (λ d. expire connected k d t) c (peek_and_shift c.pq t)

-- `exiting` leaves the queue as it is.
unfoldable pub process_in_flight_queue : (ℕ → Bool) → ℕ → Bool → Channel → ℕ → Option Expiry
process_in_flight_queue connected k exiting c t =
    let run = expire connected k c t in if exiting then some (stopped false c) else run

pub IsIn : ℕ → List ℕ → Type 0
IsIn m [] = ⊥
IsIn m (x ∷ xs) = (m ≡ x) ⊎ IsIn m xs

-- Each message comes no later than those behind it.
pub InOrder : (ℕ → ℕ) → List ℕ → Type 0
InOrder pri [] = Unit
InOrder pri (x ∷ xs) = All (λ y. pri x ≤ pri y) xs × InOrder pri xs

-- The messages due at `t` are requeued, the earliest first, and the others stay in flight.
pub record Expires (connected : ℕ → Bool) (c : Channel) (t : ℕ) (e : Expiry) : Type 0 where
  pub good : IsChannel e.after
  pub waiting : (m : ℕ) → Holds e.after.pq m → Holds c.pq m × (t < c.pq.pri m)
  pub stays : (m : ℕ) → Holds c.pq m → t < c.pq.pri m → Holds e.after.pq m
  pub comes : (m : ℕ) → Holds c.pq m → c.pq.pri m ≤ t → IsIn m e.requeued
  pub only : All (λ m. Holds c.pq m × (c.pq.pri m ≤ t)) e.requeued
  pub in_order : InOrder c.pq.pri e.requeued
  pub counted : e.timeouts ≡ length e.requeued
  pub told : e.notified ≡ keep connected (map c.client e.requeued)
  pub changed : e.dirty ≡ ltb 0 (length e.requeued)

-- One message taken from the queue at its time, before the rest.
module _ (connected : ℕ → Bool) (c : Channel) (t x : ℕ) (r : Pqueue) (v : IsChannel c)
    (now : c.pq.pri x ≤ t) (least : (m : ℕ) → Holds c.pq m → c.pq.pri x ≤ c.pq.pri m)
    (taken : Taken c.pq x r) where
  abbrev rest_of : Channel
  rest_of = record c { messages = put c.messages (c.id x) none; pq = r }

  rest_good : IsChannel rest_of
  rest_good = dropped_good c (c.id x) x v (v.listed x taken.had) r taken

  popped_rest : pop_in_flight (record c { pq = r }) (c.client x) (c.id x) ≡ popped x rest_of
  unfolding pop_in_flight pop_in_flight_at
  popped_rest = rw (v.listed x taken.had) (ground arith)

  pri_at : (m : ℕ) → r.pri m ≡ c.pq.pri m
  pri_at m = ap (λ f. f m) taken.same_pri

  requeued-Expires :
      (e : Expiry)
      → Expires connected rest_of t e
      → Expires connected c t (with_requeued connected (record c { pq = r }) x e)
  unfolding with_requeued IsIn InOrder
  requeued-Expires e w = record {
    good = w.good;
    waiting =
        λ m h. ((taken.only m (w.waiting m h).0).0, omega (arith, (w.waiting m h).1, pri_at m));
    stays = λ m h late.
        w.stays m (taken.kept m h (λ same. ground (arith, ap c.pq.pri same)))
          (omega (arith, pri_at m));
    comes = λ m h soon. elim (Bool-cases (m == x)) [
      | inl same ↦ inl (ground arith)
      | inr other ↦ inr (w.comes m (taken.kept m h (ground arith)) (omega (arith, pri_at m)))
    ];
    only = (
      (taken.had, now),
      All-weaken e.requeued (λ m h. ((taken.only m h.0).0, omega (arith, h.1, pri_at m))) w.only,
    );
    in_order = (
      All-weaken e.requeued (λ m h. least m (taken.only m h.0).0) w.only,
      subst (λ p. InOrder p e.requeued) taken.same_pri w.in_order,
    );
    counted = ap suc w.counted;
    told = elim (Bool-cases (connected (c.client x))) [
      | inl here ↦ rw (here, w.told) refl
      | inr gone ↦ rw (gone, w.told) refl
    ];
    changed = ground arith;
  }

-- One round, for a loop `rest` that ends on a channel with one message less.
round-Expires :
    (connected : ℕ → Bool) (c : Channel) (t : ℕ) (rest : Channel → Option Expiry)
    → IsChannel c
    → ((d : Channel)
        → IsChannel d
        → d.pq.len + 1 ≡ c.pq.len
        → (e : Expiry) × (rest d ≡ some e) × Expires connected d t e)
    → (o : Option ((Option ℕ × ℕ) × Pqueue)) → Peeked c.pq t o
    → (e : Expiry) × (expire_peeked connected rest c o ≡ some e) × Expires connected c t e
unfolding expire_peeked expire_popped stopped InOrder
round-Expires connected c t rest v ends _ (nothing_due w h late) = (
  stopped false c,
  refl,
  record {
    good = v;
    waiting = λ m p. (p, late m p);
    stays = λ m p q. p;
    comes = λ m p soon. absurd (omega (arith, late m p));
    only = tt;
    in_order = tt;
    counted = refl;
    told = refl;
    changed = refl;
  },
)
round-Expires connected c t rest v ends _ (due x r now least taken) =
    let others =
      ends (rest_of connected c t x r v now least taken)
        (rest_good connected c t x r v now least taken) taken.one_less in
    (
      with_requeued connected (record c { pq = r }) x others.0,
      rw (popped_rest connected c t x r v now least taken, others.1) refl,
      requeued-Expires connected c t x r v now least taken others.0 others.2,
    )

-- The loop ends when there are more rounds than messages.
pub expire-Expires :
    (connected : ℕ → Bool) (k : ℕ) (c : Channel) (t : ℕ)
    → IsChannel c
    → c.pq.len < k
    → (e : Expiry) × (expire connected k c t ≡ some e) × Expires connected c t e
unfolding expire
expire-Expires connected zero c t v f = absurd (omega arith)
expire-Expires connected (suc k) c t v f =
    round-Expires connected c t (λ d. expire connected k d t) v
      (λ d w less. expire-Expires connected k d t w (omega (arith, less))) _
      (peek_and_shift-Peeked c.pq t v.queue)

-- On a channel whose dictionary and queue agree, the loop of `processInFlightQueue` ends within one
-- round more than there are messages in flight. Unless the channel is exiting, when nothing happens,
-- the messages due are requeued, the earliest first, counted, and told to their clients that are still
-- connected; exactly the others stay in flight, and dictionary and queue agree.
pub process_in_flight_queue_lem :
    (connected : ℕ → Bool) (k : ℕ) (exiting : Bool) (c : Channel) (t : ℕ)
    → IsChannel c
    → c.pq.len < k
    → (e : Expiry) × (process_in_flight_queue connected k exiting c t ≡ some e)
      × (if exiting then e ≡ stopped false c else Expires connected c t e)
unfolding process_in_flight_queue
process_in_flight_queue_lem connected k true c t v f = (stopped false c, refl, refl)
process_in_flight_queue_lem connected k false c t v f = expire-Expires connected k c t v f
