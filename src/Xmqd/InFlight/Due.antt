-- ===== src/Xmqd/InFlight/Due.antt =====
-- The messages whose time has come.
use mathlib.Core.Option
use xmq.Base.{ℕ, ◌+◌, ◌-◌, ◌≤◌, ◌<◌, ltb, ◌==◌, if_elim, sym, subst, Option, none, some, arith}
use xmq.Xmqd.InFlight.{Pqueue, key, peek_and_shift}
use xmq.Xmqd.InFlight.Moves.{Holds}
use xmq.Xmqd.InFlight.Queue.{IsQueue, Taken, root_least, pop-Takes}

-- What `PeekAndShift` at time `max` answers to a queue in order: nothing when no message is due, or
-- else a message that is due, before which no other comes.
pub data Peeked (q : Pqueue) (max : ℕ) : Option ((Option ℕ × ℕ) × Pqueue) → Type 0 where
  nothing_due :
      (wait : ℕ)
      → ((m : ℕ) → Holds q m → max + wait ≤ q.pri m)
      → ((m : ℕ) → Holds q m → max < q.pri m)
      → Peeked q max (some ((none, wait), q))
  due :
      (x : ℕ) (r : Pqueue)
      → q.pri x ≤ max
      → ((m : ℕ) → Holds q m → q.pri x ≤ q.pri m)
      → Taken q x r
      → Peeked q max (some ((some x, 0), r))

pub peek_and_shift-Peeked : (q : Pqueue) (max : ℕ) → IsQueue q → Peeked q max (peek_and_shift q max)
unfolding peek_and_shift
peek_and_shift-Peeked q max v =
    if_elim (Peeked q max) (q.len == 0) _ _
      (λ e.
        nothing_due 0 (λ m h. absurd (ground (arith, h.inside)))
          (λ m h. absurd (ground (arith, h.inside))))
      λ full.
        if_elim (Peeked q max) (ltb max (key q 0)) _ _
          (λ late.
            nothing_due (key q 0 - max) (λ m h. ground (arith, root_least q v m h))
              (λ m h. ground (arith, root_least q v m h)))
          λ e.
            let t = pop-Takes q v (ground arith) in
            subst (λ o. Peeked q max (Option.map (λ p. ((some (q.slot 0), 0), p.1)) o)) (sym t.1)
              (due (q.slot 0) t.0 (ground arith) (root_least q v) t.2)
