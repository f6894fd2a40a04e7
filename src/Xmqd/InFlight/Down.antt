-- ===== src/Xmqd/InFlight/Down.antt =====
-- The loop that restores the heap order downwards, from a slot that may also be too low in the heap.
use xmq.Base.{ℕ, zero, suc, ◌+◌, ◌-◌, ◌*◌, ◌≤◌, ◌<◌, ◌≡◌, ◌≢◌, leb, if_elim, ◌⊎◌, arith}
use xmq.Xmqd.InFlight.{Pqueue, key, swap, parent, smaller_child, down_loop, down}
use xmq.Xmqd.InFlight.Moves.{IsIndexed, Moved, Moved-rfl, Moved-trans, key-swap, swap-Moved}
use xmq.Xmqd.InFlight.Order.{UpInv}

-- Only the edges below `i` may be out of order, and while `i` is `root` the one above it.
pub record DownInv (n root : ℕ) (q : Pqueue) (i : ℕ) : Type 0 where
  pub edges :
      (c : ℕ) → 0 < c → c < n → parent c ≢ i → (c ≢ i) ⊎ (root < i) → key q (parent c) ≤ key q c
  pub bridged : (c : ℕ) → 0 < c → c < n → parent c ≡ i → 0 < i → key q (parent i) ≤ key q c
  pub below_root : root ≤ i

record IsSmallerChild (n : ℕ) (q : Pqueue) (i j : ℕ) : Type 0 where
  inside : j < n
  deeper : i < j
  child : parent j ≡ i
  least : (c : ℕ) → 0 < c → c < n → parent c ≡ i → key q j ≤ key q c

smaller_child-IsSmallerChild :
    (n : ℕ) (q : Pqueue) (i : ℕ) → 2 * i + 1 < n → IsSmallerChild n q i (smaller_child q i n)
unfolding smaller_child
smaller_child-IsSmallerChild n q i h = record {
  inside = ground arith;
  deeper = ground arith;
  child = ground arith;
  least = λ c p r t. grind arith;
}

module _ (n root : ℕ) (q : Pqueue) (i : ℕ) (v : DownInv n root q i) where
  swap-DownInv :
      (j : ℕ) → IsSmallerChild n q i j → key q j < key q i → DownInv n root (swap q i j) j
  swap-DownInv j s below =
      let at = key-swap q i j in
      record {
        edges = λ c p r t u. ground (
          arith,
          at c,
          at (parent c),
          v.edges c,
          v.bridged j,
          s.least c,
          s.deeper,
          s.child,
          s.inside,
        );
        bridged = λ c p r t u. ground (arith, at c, at (parent j), v.edges c, s.deeper, s.child);
        below_root = omega (arith, v.below_root, s.deeper);
      }

  leaf-UpInv : n ≤ 2 * i + 1 → UpInv n q root
  leaf-UpInv leaf = record {
    edges = λ c p r t. ground (arith, v.edges c, v.below_root);
    bridged = λ c p r t u. ground (arith, v.edges c, v.edges root, v.bridged c, v.below_root);
  }

  settled-UpInv : (j : ℕ) → IsSmallerChild n q i j → key q i ≤ key q j → UpInv n q root
  settled-UpInv j s h = record {
    edges = λ c p r t. ground (arith, v.edges c, v.below_root, s.least c);
    bridged =
        λ c p r t u. ground (arith, v.edges c, v.edges root, v.bridged c, v.below_root, s.least c);
  }

abbrev pub Sunk : ℕ → ℕ → Pqueue → Pqueue → Type 0
Sunk n root q r = UpInv n r root × Moved n q r

down_loop-Sunk :
    (k n root : ℕ) (q : Pqueue) (i : ℕ)
    → n - i < k
    → n ≤ q.len
    → IsIndexed q
    → DownInv n root q i
    → Sunk n root q (down_loop k q i n)
unfolding down_loop
down_loop-Sunk zero n root q i f hn x v = absurd (omega arith)
down_loop-Sunk (suc k) n root q i f hn x v =
    if_elim (Sunk n root q) (leb n (2 * i + 1)) _ _
      (λ leaf. (leaf-UpInv n root q i v (ground arith), Moved-rfl x))
      λ e.
        let j = smaller_child q i n in
        let s = smaller_child-IsSmallerChild n q i (ground arith) in
        if_elim (Sunk n root q) (leb (key q i) (key q j)) _ _
          (λ h. (settled-UpInv n root q i v j s (ground arith), Moved-rfl x))
          λ below.
            let step = swap-Moved n q i j x (omega (arith, s.deeper, s.inside)) s.inside hn in
            let rest =
              down_loop-Sunk k n root (swap q i j) j (omega (arith, s.deeper, s.inside))
                (omega (arith, step.same_len)) step.indexed
                (swap-DownInv n root q i v j s (ground arith)) in
            (rest.0, Moved-trans step rest.1)

-- `down` leaves at most the edge above the slot that it starts from out of order.
pub down-Sunk :
    (n : ℕ) (q : Pqueue) (i : ℕ)
    → n ≤ q.len
    → IsIndexed q
    → DownInv n i q i
    → Sunk n i q (down q i n)
unfolding down
down-Sunk n q i hn x v = down_loop-Sunk (n + 1) n i q i (omega arith) hn x v
