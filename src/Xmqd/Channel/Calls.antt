-- ===== src/Xmqd/Channel/Calls.antt =====
-- What the calls on a channel answer, on every branch.
use xmq.Base.{
  ℕ, ◌+◌, ◌≡◌, ◌≢◌, ◌==◌, if_elim, min, refl, ap, ◌∙◌, subst, none, some, Option-cases, inl, inr,
  arith,
}
use xmq.Js.Text.{Text, lit}
use xmq.Xmqd.InFlight.{put}
use xmq.Xmqd.Channel.{
  Channel, Outcome, ok, error, Popped, popped, refused, pop_in_flight, pop_in_flight_at,
  finish_popped, finished, finish_message, start_in_flight_timeout, touch_popped, touched,
  touched_until, touch_message,
}
use xmq.Xmqd.Channel.InFlight.{IsChannel, Dropped, Entered, drop-Dropped, enter-Entered}

-- `FinishMessage` and `TouchMessage` refuse an id that is not in flight and a client that does not own
-- its message, and change nothing then; otherwise the outcome is as `P` says for the message.
pub data Answered (P : ℕ → Outcome → Type 0) (c : Channel) (client i : ℕ) : Outcome → Type 0 where
  unknown : c.messages i ≡ none → Answered P c client i (error (lit "ID not in flight") c)
  foreign :
      (m : ℕ)
      → c.messages i ≡ some m
      → c.client m ≢ client
      → Answered P c client i (error (lit "client does not own message") c)
  owned :
      (m : ℕ) (o : Outcome)
      → c.messages i ≡ some m
      → c.client m ≡ client
      → P m o
      → Answered P c client i o

-- The message is out of the dictionary and the queue.
pub data Finished (c : Channel) (i : ℕ) : ℕ → Outcome → Type 0 where
  finished_ok : (m : ℕ) (d : Channel) → Dropped c i m d → Finished c i m (ok d)

-- The calls that begin with `popInFlightMessage`.
after_pop :
    (P : ℕ → Outcome → Type 0) (c : Channel) (client i : ℕ) (f : Popped → Outcome)
    → ((e : Text) → f (refused e) ≡ error e c)
    → ((m : ℕ)
        → c.messages i ≡ some m
        → P m (f (popped m (record c { messages = put c.messages i none }))))
    → Answered P c client i (f (pop_in_flight c client i))
unfolding pop_in_flight pop_in_flight_at
after_pop P c client i f fails works = elim (Option-cases (c.messages i)) [
  | inl e ↦ rw e (rw (fails (lit "ID not in flight")) (unknown e))
  | inr (m, e) ↦ rw e (
      if_elim (λ p. Answered P c client i (f p)) (c.client m == client) _ _
        (λ own. owned m _ e (ground arith) (works m e))
        λ other. rw (fails (lit "client does not own message")) (foreign m e (ground arith)))
]

-- On a channel whose dictionary and queue agree, `FinishMessage` refuses an id that is not in flight
-- and a client that does not own its message, and changes nothing then. Otherwise it returns, the
-- message is in neither any more, with no index, and all others are in both as before.
pub finish_message-Answered :
    (c : Channel) (client i : ℕ)
    → IsChannel c
    → Answered (Finished c i) c client i (finish_message c client i)
unfolding finish_message finish_popped finished
finish_message-Answered c client i v =
    after_pop (Finished c i) c client i (finish_popped c) (λ e. refl)
      λ m e. let d = drop-Dropped c i m v e in rw d.1 (finished_ok m d.0 d.2)

-- A message not yet in flight gets its time, its owner and its place.
start_in_flight_timeout-Entered :
    (c : Channel) (m client timeout now : ℕ)
    → IsChannel c
    → c.messages (c.id m) ≡ none
    → (d : Channel) × (start_in_flight_timeout c m client timeout now ≡ ok d)
      × Entered
          (record c { client = put c.client m client; delivered = put c.delivered m now })
          m
          (now + timeout)
          d
unfolding start_in_flight_timeout
start_in_flight_timeout-Entered c m client timeout now v e =
    enter-Entered _ m (now + timeout)
      (record { queue = v.queue; listed = v.listed; queued = v.queued }) e

-- `d` is `c` with `t` as the time of message `m`; ids, owners and times of delivery are the same.
pub record Touched (c : Channel) (m t : ℕ) (d : Channel) : Type 0 where
  pub good : IsChannel d
  pub same_messages : (k : ℕ) → d.messages k ≡ c.messages k
  pub pri : d.pq.pri ≡ put c.pq.pri m t
  pub id : d.id ≡ c.id
  pub client : d.client ≡ c.client
  pub delivered : d.delivered ≡ c.delivered

-- A message that is taken out and put in again.
module _ (c d : Channel) (i m : ℕ) (q : c.id m ≡ i) (e : c.messages i ≡ some m)
    (v : Dropped c i m d) where
  same_id : d.id m ≡ i
  same_id = ap (λ f. f m) v.id ∙ q

  dropped_at : (k : ℕ) → d.messages k ≡ put c.messages i none k
  dropped_at k = ap (λ f. f k) v.messages

  dropped_absent : d.messages (d.id m) ≡ none
  unfolding put
  dropped_absent = ground (arith, same_id, dropped_at (d.id m))

  reenter-Touched : (t : ℕ) (x : Channel) → Entered d m t x → Touched c m t x
  unfolding put
  reenter-Touched t x w = record {
    good = w.good;
    same_messages = λ k. ground (arith, same_id, dropped_at k, e, ap (λ f. f k) w.messages);
    pri = w.pri ∙ ap (λ f. put f m t) v.pri;
    id = w.id ∙ v.id;
    client = w.client ∙ v.client;
    delivered = w.delivered ∙ v.delivered;
  }

pub data TouchedUntil (c : Channel) (timeout now limit : ℕ) : ℕ → Outcome → Type 0 where
  touched_ok :
      (m : ℕ) (d : Channel)
      → Touched c m (min (c.delivered m + limit) (now + timeout)) d
      → TouchedUntil c timeout now limit m (ok d)

touched_until_lem :
    (delivered timeout now limit : ℕ)
    → touched_until delivered timeout now limit ≡ min (delivered + limit) (now + timeout)
unfolding touched_until
touched_until_lem delivered timeout now limit = ground arith

-- On a channel whose dictionary and queue agree, `TouchMessage` refuses an id that is not in flight and
-- a client that does not own its message, and changes nothing then. Otherwise it returns, and dictionary
-- and queue agree on the same messages. Only this message's time is new: the timeout from now, but no
-- later than the limit from its delivery; every message keeps its id, its owner and its time of
-- delivery.
pub touch_message-Answered :
    (c : Channel) (client i timeout now limit : ℕ)
    → IsChannel c
    → Answered
        (TouchedUntil c timeout now limit)
        c
        client
        i
        (touch_message c client i timeout now limit)
unfolding touch_message touch_popped touched
touch_message-Answered c client i timeout now limit v =
    after_pop (TouchedUntil c timeout now limit) c client i (touch_popped c timeout now limit)
      (λ e. refl)
      λ m e.
        let d = drop-Dropped c i m v e in
        let own = (v.queued i m e).1 in
        let t = touched_until (d.0.delivered m) timeout now limit in
        let x = enter-Entered d.0 m t d.2.good (dropped_absent c d.0 i m own e d.2) in
        let time =
          touched_until_lem (d.0.delivered m) timeout now limit
          ∙ ap (λ f. min (f m + limit) (now + timeout)) d.2.delivered in
        rw (d.1, x.1)
          (touched_ok m x.0
            (subst (λ u. Touched c m u x.0) time (reenter-Touched c d.0 i m own e d.2 t x.0 x.2)))
