-- ===== src/Xmqd/InFlight/Order.antt =====
-- The heap order, and the loop that restores it upwards.
use xmq.Base.{ℕ, zero, suc, ◌+◌, ◌≤◌, ◌<◌, ◌≡◌, ◌≢◌, leb, ◌==◌, if_elim, arith}
use xmq.Xmqd.InFlight.{Pqueue, key, swap, parent, up_loop, up}
use xmq.Xmqd.InFlight.Moves.{IsIndexed, Moved, Moved-rfl, Moved-trans, key-swap, swap-Moved}

-- Among the first `n` slots no message comes before the one in its parent's slot.
abbrev pub IsHeap : ℕ → Pqueue → Type 0
IsHeap n q = (c : ℕ) → 0 < c → c < n → key q (parent c) ≤ key q c

-- Only the edge above `i` may be out of order.
pub record UpInv (n : ℕ) (q : Pqueue) (i : ℕ) : Type 0 where
  pub edges : (c : ℕ) → 0 < c → c < n → c ≢ i → key q (parent c) ≤ key q c
  pub bridged : (c : ℕ) → 0 < c → c < n → parent c ≡ i → 0 < i → key q (parent i) ≤ key q c

abbrev pub Sifted : ℕ → Pqueue → Pqueue → Type 0
Sifted n q r = IsHeap n r × Moved n q r

swap-UpInv :
    (n : ℕ) (q : Pqueue) (i : ℕ)
    → UpInv n q i
    → 0 < i
    → i < n
    → key q i < key q (parent i)
    → UpInv n (swap q (parent i) i) (parent i)
swap-UpInv n q i v pos inside below =
    let at = key-swap q (parent i) i in
    record {
      edges = λ c p r t. ground (arith, at c, at (parent c), v.edges c, v.bridged c);
      bridged =
          λ c p r t u. ground (arith, at c, at (parent (parent i)), v.edges c, v.edges (parent i));
    }

up_loop-Sifted :
    (k n : ℕ) (q : Pqueue) (i : ℕ)
    → i < k
    → i < n
    → n ≤ q.len
    → IsIndexed q
    → UpInv n q i
    → Sifted n q (up_loop k q i)
unfolding up_loop
up_loop-Sifted zero n q i f hi hn x v = absurd (omega arith)
up_loop-Sifted (suc k) n q i f hi hn x v =
    if_elim (Sifted n q) (parent i == i) _ _
      (λ root. ((λ c p r. ground (arith, v.edges c)), Moved-rfl x))
      λ pos.
        if_elim (Sifted n q) (leb (key q (parent i)) (key q i)) _ _
          (λ settled. ((λ c p r. ground (arith, v.edges c)), Moved-rfl x))
          λ below.
            let step = swap-Moved n q (parent i) i x (omega arith) hi hn in
            let rest =
              up_loop-Sifted k n (swap q (parent i) i) (parent i) (ground arith) (omega arith)
                (omega (arith, step.same_len)) step.indexed
                (swap-UpInv n q i v (ground arith) hi (ground arith)) in
            (rest.0, Moved-trans step rest.1)

-- `up` makes a heap of slots with one message too low.
pub up-Sifted :
    (n : ℕ) (q : Pqueue) (i : ℕ)
    → i < n
    → n ≤ q.len
    → IsIndexed q
    → UpInv n q i
    → Sifted n q (up q i)
unfolding up
up-Sifted n q i hi hn x v = up_loop-Sifted (i + 1) n q i (omega arith) hi hn x v
