-- ===== src/Xmqd/Channel/InFlight.antt =====
-- The dictionary and the queue of a channel hold the same messages.
use mathlib.Core.Option
use xmq.Base.{ℕ, ◌<◌, ◌≡◌, ◌≢◌, ◌==◌, Bool-cases, inl, inr, refl, ap, ◌∙◌, subst, none, some, arith}
use xmq.Xmqd.InFlight.{Pqueue, parent, put, push}
use xmq.Xmqd.InFlight.Moves.{Holds}
use xmq.Xmqd.InFlight.Queue.{IsQueue, Taken, remove-Takes}
use xmq.Xmqd.InFlight.Push.{Added, push-Added}
use xmq.Xmqd.Channel.{
  Channel, ok, push_in_flight, push_in_flight_at, add_to_in_flight_pq, remove_from_in_flight_pq,
  remove_at, added, set_pri,
}

-- The queue is in order, and a message is in it just if the dictionary has it under its id.
pub record IsChannel (c : Channel) : Type 0 where
  pub queue : IsQueue c.pq
  pub listed : (m : ℕ) → Holds c.pq m → c.messages (c.id m) ≡ some m
  pub queued : (i m : ℕ) → c.messages i ≡ some m → Holds c.pq m × (c.id m ≡ i)

-- `d` is `c` without message `m` of id `i`, in the dictionary and in the queue.
pub record Dropped (c : Channel) (i m : ℕ) (d : Channel) : Type 0 where
  pub good : IsChannel d
  pub messages : d.messages ≡ put c.messages i none
  pub pri : d.pq.pri ≡ c.pq.pri
  pub unindexed : d.pq.index m ≡ none
  pub id : d.id ≡ c.id
  pub client : d.client ≡ c.client
  pub delivered : d.delivered ≡ c.delivered

-- `d` is `c` with message `m`, to be given up at `t`, in the dictionary and in the queue.
pub record Entered (c : Channel) (m t : ℕ) (d : Channel) : Type 0 where
  pub good : IsChannel d
  pub messages : d.messages ≡ put c.messages (c.id m) (some m)
  pub pri : d.pq.pri ≡ put c.pq.pri m t
  pub id : d.id ≡ c.id
  pub client : d.client ≡ c.client
  pub delivered : d.delivered ≡ c.delivered

module _ (c : Channel) (i m : ℕ) (v : IsChannel c) (e : c.messages i ≡ some m) where
  abbrev pub without : Pqueue → Channel
  without r = record c { messages = put c.messages i none; pq = r }

  pub dropped_good : (r : Pqueue) → Taken c.pq m r → IsChannel (without r)
  unfolding put
  dropped_good r t = record {
    queue = t.in_order;
    listed = λ y h. ground (arith, v.listed y (t.only y h).0, (t.only y h).1);
    queued = λ k y g.
        let q = v.queued k y (ground arith) in
        (t.kept y q.0 (λ same. ground (arith, (v.queued i m e).1, q.1, ap c.id same)), q.1);
  }

  pub drop-Dropped :
      (d : Channel) × (remove_from_in_flight_pq (without c.pq) m ≡ some d) × Dropped c i m d
  unfolding remove_from_in_flight_pq remove_at
  drop-Dropped =
      let h = (v.queued i m e).0 in
      let index : c.pq.index m ≡ some h.at =
        subst (λ x. c.pq.index x ≡ some h.at) h.there (v.queue.indexed h.at h.inside) in
      let taken = remove-Takes c.pq h.at v.queue h.inside in
      let t : Taken c.pq m taken.0 = subst (λ x. Taken c.pq x taken.0) h.there taken.2 in
      (
        without taken.0,
        ap (remove_at (without c.pq)) index ∙ ap (Option.map (λ p. without p.1)) taken.1,
        record {
          good = dropped_good taken.0 t;
          messages = refl;
          pri = t.same_pri;
          unindexed = t.unindexed;
          id = refl;
          client = refl;
          delivered = refl;
        },
      )

module _ (c : Channel) (m t : ℕ) (v : IsChannel c) (e : c.messages (c.id m) ≡ none) where
  fresh : Holds c.pq m → ⊥
  fresh h = ground (arith, v.listed m h, e)

  apart : (i : ℕ) → i < c.pq.len → c.pq.slot i ≢ m
  apart i p same = fresh (record { at = i; inside = p; there = same })

  timed : Pqueue
  timed = record c.pq { pri = put c.pq.pri m t }

  timed-IsQueue : IsQueue timed
  unfolding timed put
  timed-IsQueue = record {
    ordered = λ k p r. ground (arith, v.queue.ordered k p r, apart (parent k), apart k);
    indexed = v.queue.indexed;
  }

  timed-Added : Added timed m (push timed m)
  unfolding timed
  timed-Added =
      push-Added timed m timed-IsQueue
        (λ h. fresh (record { at = h.at; inside = h.inside; there = h.there }))

  abbrev entered : Channel
  entered = record c { messages = put c.messages (c.id m) (some m); pq = push timed m }

  entered_good : IsChannel entered
  unfolding put timed
  entered_good = record {
    queue = timed-Added.in_order;
    listed = λ y h. elim (timed-Added.only y h) [
      | inl same ↦ ground (arith, ap c.id same)
      | inr old ↦
          ground
            (arith, e, v.listed y (record { at = old.at; inside = old.inside; there = old.there }))
    ];
    queued = λ k y g. elim (Bool-cases (k == c.id m)) [
      | inl here ↦
          let same : m ≡ y = ground arith in
          (subst (λ x. Holds entered.pq x) same timed-Added.has, ground (arith, ap c.id same))
      | inr there ↦
          let old = v.queued k y (ground arith) in
          (
            timed-Added.kept y
                (record { at = old.0.at; inside = old.0.inside; there = old.0.there }),
            old.1,
          )
    ];
  }

  pub enter-Entered :
      (d : Channel) × (added m (push_in_flight (set_pri c m t) m) ≡ ok d) × Entered c m t d
  unfolding added push_in_flight push_in_flight_at set_pri add_to_in_flight_pq timed
  enter-Entered = (
    entered,
    ap (λ o. added m (push_in_flight_at (set_pri c m t) m o)) e,
    record {
      good = entered_good;
      messages = refl;
      pri = timed-Added.same_pri;
      id = refl;
      client = refl;
      delivered = refl;
    },
  )
