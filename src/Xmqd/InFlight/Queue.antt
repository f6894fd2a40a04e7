-- ===== src/Xmqd/InFlight/Queue.antt =====
-- The calls on a queue that is in order.
use xmq.Base.{
  ℕ, zero, suc, ◌+◌, ◌-◌, ◌≤◌, ◌<◌, ◌≡◌, ◌≢◌, ltb, ◌==◌, if_elim, refl, ap, ◌∙◌, Option, none, some,
  subst, arith,
}
use xmq.Xmqd.InFlight.{Pqueue, key, put, swap, parent, take_last, pop, remove}
use xmq.Xmqd.InFlight.Moves.{
  Holds, IsIndexed, Moved, Moved-rfl, Moved-more, Moved-trans, key-swap, swap-Moved, swap-len,
  swap-slot,
}
use xmq.Xmqd.InFlight.Order.{IsHeap, up-Sifted}
use xmq.Xmqd.InFlight.Down.{DownInv, down-Sunk}

-- The messages are in heap order, and each has the number of its slot as its index.
pub record IsQueue (q : Pqueue) : Type 0 where
  pub ordered : IsHeap q.len q
  pub indexed : IsIndexed q

-- `r` is a queue in order with the messages of `q` other than `x`, whose index is -1.
pub record Taken (q : Pqueue) (x : ℕ) (r : Pqueue) : Type 0 where
  pub in_order : IsQueue r
  pub one_less : r.len + 1 ≡ q.len
  pub same_pri : r.pri ≡ q.pri
  pub unindexed : r.index x ≡ none
  pub had : Holds q x
  pub kept : (m : ℕ) → Holds q m → m ≢ x → Holds r m
  pub only : (m : ℕ) → Holds r m → Holds q m × (m ≢ x)

take_last-Taken :
    (q : Pqueue)
    → 0 < q.len
    → IsHeap (q.len - 1) q
    → IsIndexed q
    → Taken q (q.slot (q.len - 1)) (take_last q).1
unfolding take_last put
take_last-Taken q pos h x = record {
  in_order = record { ordered = h; indexed = λ i p. ground (arith, x i, x (q.len - 1)) };
  one_less = omega arith;
  same_pri = refl;
  unindexed = ground arith;
  had = record { at = q.len - 1; inside = omega arith; there = refl };
  kept =
      λ m p ne. record { at = p.at; inside = ground (arith, p.inside, p.there); there = p.there };
  only = λ m p. (
    record { at = p.at; inside = omega (arith, p.inside); there = p.there },
    ground (arith, p.inside, p.there, x p.at, x (q.len - 1)),
  );
}

Moved-Taken : {n x : ℕ} {q s r : Pqueue} → Moved n q s → Taken s x r → Taken q x r
Moved-Taken m t = record {
  in_order = t.in_order;
  one_less = t.one_less ∙ m.same_len;
  same_pri = t.same_pri ∙ m.same_pri;
  unindexed = t.unindexed;
  had = m.only _ t.had;
  kept = λ y p ne. t.kept y (m.kept y p) ne;
  only = λ y p. (m.only y (t.only y p).0, (t.only y p).1);
}

-- The slots of a queue in order after the first step of `Pop` and `Remove`.
swapped-DownInv :
    (q : Pqueue) (i : ℕ)
    → IsHeap q.len q
    → i < q.len
    → DownInv (q.len - 1) i (swap q i (q.len - 1)) i
swapped-DownInv q i h hi =
    let at = key-swap q i (q.len - 1) in
    record {
      edges = λ c p r t u. ground (arith, at c, at (parent c), h c);
      bridged = λ c p r t u. ground (arith, at c, at (parent i), h c, h i);
      below_root = omega arith;
    }

root_least_below :
    (k : ℕ) (n : ℕ) (q : Pqueue) (i : ℕ) → IsHeap n q → i < k → i < n → key q 0 ≤ key q i
root_least_below zero n q i h f p = absurd (omega arith)
root_least_below (suc k) n q i h f p = ground (arith, h i, root_least_below k n q (parent i) h)

-- No message of the queue comes before the one in the first slot.
pub root_least : (q : Pqueue) → IsQueue q → (m : ℕ) → Holds q m → key q 0 ≤ q.pri m
root_least q v m h =
    grind
      (arith, root_least_below (h.at + 1) q.len q h.at v.ordered (omega arith) h.inside, h.there)

-- What `Pop` and `Remove` answer at slot `i`.
abbrev pub Takes : Pqueue → ℕ → Option (ℕ × Pqueue) → Type 0
Takes q i o = (r : Pqueue) × (o ≡ some (q.slot i, r)) × Taken q (q.slot i) r

last-Takes :
    (n : ℕ) (q s : Pqueue) (i : ℕ)
    → Moved n q s
    → 0 < s.len
    → IsHeap (s.len - 1) s
    → s.slot (s.len - 1) ≡ q.slot i
    → Takes q i (some (take_last s))
unfolding take_last
last-Takes n q s i m pos h last = (
  (take_last s).1,
  ap (λ k. some (k, (take_last s).1)) last,
  subst (λ k. Taken q k (take_last s).1) last (Moved-Taken m (take_last-Taken s pos h m.indexed)),
)

-- Once the other messages are in heap order, the last slot gives the message that was swapped there.
Moved-Takes :
    (q s : Pqueue) (i : ℕ)
    → i < q.len
    → IsIndexed q
    → Moved (q.len - 1) (swap q i (q.len - 1)) s
    → IsHeap (q.len - 1) s
    → Takes q i (some (take_last s))
Moved-Takes q s i hi x m h =
    let len : s.len ≡ q.len = m.same_len ∙ swap-len q i (q.len - 1) in
    let all =
      Moved-trans (swap-Moved q.len q i (q.len - 1) x hi (omega arith) (omega arith))
        (Moved-more (omega arith) m) in
    last-Takes q.len q s i all (omega (arith, len)) (λ c p r. h c p (omega (arith, len)))
      (ap (λ k. s.slot (k - 1)) len
        ∙ m.beyond (q.len - 1) (omega arith)
        ∙ swap-slot q i (q.len - 1))

-- `Pop` on a queue in order that holds a message.
pub pop-Takes : (q : Pqueue) → IsQueue q → 0 < q.len → Takes q 0 (pop q)
unfolding pop
pop-Takes q v pos =
    if_elim (Takes q 0) (q.len == 0) _ _ (λ e. absurd (ground arith))
      λ _.
        let step = swap-Moved q.len q 0 (q.len - 1) v.indexed pos (omega arith) (omega arith) in
        let sunk =
          down-Sunk (q.len - 1) (swap q 0 (q.len - 1)) 0 (omega (arith, step.same_len)) step.indexed
            (swapped-DownInv q 0 v.ordered pos) in
        Moved-Takes q _ 0 pos v.indexed sunk.1 (λ c p r. sunk.0.edges c p r (omega arith))

-- `Remove` of a slot of a queue that is in heap order with the slots' numbers as indexes answers the
-- message there; the queue is in order again, holds exactly the other messages, each with the number
-- of its slot, and the removed one has no index.
pub remove-Takes : (q : Pqueue) (i : ℕ) → IsQueue q → i < q.len → Takes q i (remove q i)
unfolding remove
remove-Takes q i v hi =
    if_elim (Takes q i) (ltb i q.len) _ _
      (λ _.
        if_elim (Takes q i) (q.len - 1 == i) _ _
          (λ last.
            last-Takes q.len q q i (Moved-rfl v.indexed) (omega arith)
              (λ c p r. v.ordered c p (omega arith)) (ap q.slot (ground arith)))
          (λ e.
            let step = swap-Moved q.len q i (q.len - 1) v.indexed hi (omega arith) (omega arith) in
            let sunk =
              down-Sunk (q.len - 1) (swap q i (q.len - 1)) i (omega (arith, step.same_len))
                step.indexed (swapped-DownInv q i v.ordered hi) in
            let risen =
              up-Sifted (q.len - 1) _ i (ground arith)
                (omega (arith, step.same_len, sunk.1.same_len)) sunk.1.indexed sunk.0 in
            Moved-Takes q _ i hi v.indexed (Moved-trans sunk.1 risen.1) risen.0))
      (λ e. absurd (ground arith))
