-- ===== src/Xmqd/InFlight/Moves.antt =====
-- Swaps in the queue: every message keeps the index of its slot, and none is lost.
use xmq.Base.{◌∙◌, ℕ, ◌≤◌, ◌<◌, ◌≡◌, refl, some, ◌==◌, if◌then◌else◌, arith}
use xmq.Xmqd.InFlight.{Pqueue, key, put, swap}

abbrev pub IsIndexed : Pqueue → Type 0
IsIndexed q = (i : ℕ) → i < q.len → q.index (q.slot i) ≡ some i

pub record Holds (q : Pqueue) (m : ℕ) : Type 0 where
  pub at : ℕ
  pub inside : at < q.len
  pub there : q.slot at ≡ m

-- `r` has the messages of `q` in other slots, those from `n` on in the same.
pub record Moved (n : ℕ) (q r : Pqueue) : Type 0 where
  pub same_len : r.len ≡ q.len
  pub same_pri : r.pri ≡ q.pri
  pub indexed : IsIndexed r
  pub beyond : (k : ℕ) → n ≤ k → r.slot k ≡ q.slot k
  pub kept : (m : ℕ) → Holds q m → Holds r m
  pub only : (m : ℕ) → Holds r m → Holds q m

pub Moved-rfl : {n : ℕ} {q : Pqueue} → IsIndexed q → Moved n q q
Moved-rfl h = record {
  same_len = refl;
  same_pri = refl;
  indexed = h;
  beyond = λ k p. refl;
  kept = λ m h. h;
  only = λ m h. h;
}

pub Moved-trans : {n : ℕ} {q r s : Pqueue} → Moved n q r → Moved n r s → Moved n q s
Moved-trans a b = record {
  same_len = b.same_len ∙ a.same_len;
  same_pri = b.same_pri ∙ a.same_pri;
  indexed = b.indexed;
  beyond = λ k p. b.beyond k p ∙ a.beyond k p;
  kept = λ m h. b.kept m (a.kept m h);
  only = λ m h. a.only m (b.only m h);
}

pub Moved-more : {n m : ℕ} {q r : Pqueue} → n ≤ m → Moved n q r → Moved m q r
Moved-more h a = record {
  same_len = a.same_len;
  same_pri = a.same_pri;
  indexed = a.indexed;
  beyond = λ k p. a.beyond k (omega arith);
  kept = a.kept;
  only = a.only;
}

pub key-swap :
    (q : Pqueue) (i j k : ℕ)
    → key (swap q i j) k ≡ (if k == j then key q i else if k == i then key q j else key q k)
unfolding swap put
key-swap q i j k = ground arith

pub swap-len : (q : Pqueue) (i j : ℕ) → (swap q i j).len ≡ q.len
unfolding swap
swap-len q i j = refl

pub swap-slot : (q : Pqueue) (i j : ℕ) → (swap q i j).slot j ≡ q.slot i
unfolding swap put
swap-slot q i j = ground arith

-- Where a swap takes a slot's message.
unfoldable other : ℕ → ℕ → ℕ → ℕ
other i j k = if k == j then i else if k == i then j else k

other-inside : (i j k n : ℕ) → i < n → j < n → k < n → other i j k < n
unfolding other
other-inside i j k n hi hj hk = ground arith

slot-swap-other : (q : Pqueue) (i j k : ℕ) → (swap q i j).slot (other i j k) ≡ q.slot k
unfolding swap put other
slot-swap-other q i j k = ground arith

slot-other : (q : Pqueue) (i j k : ℕ) → q.slot (other i j k) ≡ (swap q i j).slot k
unfolding swap put other
slot-other q i j k = ground arith

pub swap-Moved :
    (n : ℕ) (q : Pqueue) (i j : ℕ)
    → IsIndexed q
    → i < n
    → j < n
    → n ≤ q.len
    → Moved n q (swap q i j)
unfolding swap put
swap-Moved n q i j h hi hj hn = record {
  same_len = refl;
  same_pri = refl;
  indexed = λ k p. ground (arith, h k, h i, h j);
  beyond = λ k p. ground arith;
  kept = λ m p. record {
    at = other i j p.at;
    inside = other-inside i j p.at q.len (omega arith) (omega arith) p.inside;
    there = slot-swap-other q i j p.at ∙ p.there;
  };
  only = λ m p. record {
    at = other i j p.at;
    inside = other-inside i j p.at q.len (omega arith) (omega arith) p.inside;
    there = slot-other q i j p.at ∙ p.there;
  };
}
