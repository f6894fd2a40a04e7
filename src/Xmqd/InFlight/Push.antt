-- ===== src/Xmqd/InFlight/Push.antt =====
-- A message put into a queue in order.
use xmq.Base.{ℕ, ◌+◌, ◌<◌, ◌≡◌, ◌≢◌, ◌==◌, Bool-cases, ◌⊎◌, inl, inr, refl, some, arith}
use xmq.Xmqd.InFlight.{Pqueue, put, push}
use xmq.Xmqd.InFlight.Moves.{Holds, IsIndexed}
use xmq.Xmqd.InFlight.Order.{UpInv, up-Sifted}
use xmq.Xmqd.InFlight.Queue.{IsQueue}

-- `r` is a queue in order with `x` and the messages of `q`.
pub record Added (q : Pqueue) (x : ℕ) (r : Pqueue) : Type 0 where
  pub in_order : IsQueue r
  pub one_more : r.len ≡ q.len + 1
  pub same_pri : r.pri ≡ q.pri
  pub has : Holds r x
  pub kept : (m : ℕ) → Holds q m → Holds r m
  pub only : (m : ℕ) → Holds r m → (m ≡ x) ⊎ Holds q m

-- The slice before the message rises.
put_last : Pqueue → ℕ → Pqueue
put_last q x = record {
  slot = put q.slot q.len x;
  len = q.len + 1;
  pri = q.pri;
  index = put q.index x (some q.len);
}

module _ (q : Pqueue) (x : ℕ) (v : IsQueue q) (fresh : Holds q x → ⊥) where
  apart : (i : ℕ) → i < q.len → q.slot i ≢ x
  apart i p e = fresh (record { at = i; inside = p; there = e })

  put_last-IsIndexed : IsIndexed (put_last q x)
  unfolding put_last put
  put_last-IsIndexed i p = ground (arith, v.indexed i, apart i)

  put_last-UpInv : UpInv (q.len + 1) (put_last q x) q.len
  unfolding put_last put
  put_last-UpInv = record {
    edges = λ c p r t. ground (arith, v.ordered c);
    bridged = λ c p r t u. absurd (omega arith);
  }

  put_last-kept : (m : ℕ) → Holds q m → Holds (put_last q x) m
  unfolding put_last put
  put_last-kept m h = record {
    at = h.at;
    inside = omega (arith, h.inside);
    there = ground (arith, h.inside, h.there);
  }

  put_last-only : (m : ℕ) → Holds (put_last q x) m → (m ≡ x) ⊎ Holds q m
  unfolding put_last put
  put_last-only m h = elim (Bool-cases (h.at == q.len)) [
    | inl e ↦ inl (ground (arith, h.there))
    | inr e ↦
        inr
          (record { at = h.at; inside = ground (arith, h.inside); there = ground (arith, h.there) })
  ]

  put_last-has : Holds (put_last q x) x
  unfolding put_last put
  put_last-has = record { at = q.len; inside = omega arith; there = ground arith }

  put_last-len : (put_last q x).len ≡ q.len + 1
  unfolding put_last
  put_last-len = refl

  -- A message that is not in a queue in order is put in: the queue is in order again, with the number
  -- of its slot as the index of each message, and holds this message and those from before.
  pub push-Added : Added q x (push q x)
  unfolding push put_last
  push-Added =
      let n = q.len + 1 in
      let s = put_last q x in
      let risen =
        up-Sifted n s q.len (omega arith) (omega arith) put_last-IsIndexed put_last-UpInv in
      let m = risen.1 in
      record {
        in_order = record {
          ordered = λ c p r. risen.0 c p (omega (arith, m.same_len));
          indexed = m.indexed;
        };
        one_more = m.same_len;
        same_pri = m.same_pri;
        has = m.kept x put_last-has;
        kept = λ y h. m.kept y (put_last-kept y h);
        only = λ y h. put_last-only y (m.only y h);
      }
