-- ===== src/Xmqd/InFlight.antt =====
-- xmqd/in_flight_pqueue.go: the messages in flight, a binary heap in a slice, the least priority first.
--
-- A message is a pointer, a number; `pri` and `index` are its fields in the store, where `none` is the
-- index -1. `slot` is the slice's array up to `len`, made with a capacity of at least one, whose growth
-- and shrinking change no element. A priority is a time in nanoseconds. A call that reads past the slice
-- panics, which is `none`; the loops read only slots below the length that they are given.
pub mod Moves
pub mod Order
pub mod Down
pub mod Queue
pub mod Push
pub mod Due
use mathlib.Core.Option
use xmq.Base.{
  ℕ, zero, suc, ◌+◌, ◌-◌, ◌*◌, ◌/◌, Option, none, some, Bool, leb, ltb, ◌==◌, ◌&&◌, not,
  if◌then◌else◌,
}

pub record Pqueue : Type 0 where
  pub slot : ℕ → ℕ
  pub len : ℕ
  pub pri : ℕ → ℕ
  pub index : ℕ → Option ℕ

unfoldable pub put : {A : Type 0} → (ℕ → A) → ℕ → A → ℕ → A
put f i a k = if k == i then a else f k

abbrev pub key : Pqueue → ℕ → ℕ
key q i = q.pri (q.slot i)

unfoldable pub swap : Pqueue → ℕ → ℕ → Pqueue
swap q i j =
    let slots = put (put q.slot i (q.slot j)) j (q.slot i) in
    record {
      slot = slots;
      len = q.len;
      pri = q.pri;
      index = put (put q.index (slots i) (some i)) (slots j) (some j);
    }

abbrev pub parent : ℕ → ℕ
parent j = (j - 1) / 2

unfoldable pub up_loop : ℕ → Pqueue → ℕ → Pqueue
up_loop zero q j = q
up_loop (suc k) q j =
    let rise = up_loop k (swap q (parent j) j) (parent j) in
    if parent j == j then q else if leb (key q (parent j)) (key q j) then q else rise

unfoldable pub up : Pqueue → ℕ → Pqueue
up q j = up_loop (j + 1) q j

unfoldable pub smaller_child : Pqueue → ℕ → ℕ → ℕ
smaller_child q i n =
    let left = 2 * i + 1 in
    if ltb (left + 1) n && leb (key q (left + 1)) (key q left) then left + 1 else left

unfoldable pub down_loop : ℕ → Pqueue → ℕ → ℕ → Pqueue
down_loop zero q i n = q
down_loop (suc k) q i n =
    let j = smaller_child q i n in
    let sink = down_loop k (swap q i j) j n in
    if leb n (2 * i + 1) then q else if leb (key q i) (key q j) then q else sink

unfoldable pub down : Pqueue → ℕ → ℕ → Pqueue
down q i n = down_loop (n + 1) q i n

-- `x := (*pq)[n-1]`, its index, and the slice without it
unfoldable pub take_last : Pqueue → ℕ × Pqueue
take_last q =
    let x = q.slot (q.len - 1) in
    (x, record { slot = q.slot; len = q.len - 1; pri = q.pri; index = put q.index x none })

unfoldable pub push : Pqueue → ℕ → Pqueue
push q x =
    up
      (record {
        slot = put q.slot q.len x;
        len = q.len + 1;
        pri = q.pri;
        index = put q.index x (some q.len);
      })
      q.len

unfoldable pub pop : Pqueue → Option (ℕ × Pqueue)
pop q = if q.len == 0 then none else some (take_last (down (swap q 0 (q.len - 1)) 0 (q.len - 1)))

unfoldable pub remove : Pqueue → ℕ → Option (ℕ × Pqueue)
remove q i =
    let moved = up (down (swap q i (q.len - 1)) i (q.len - 1)) i in
    if ltb i q.len
    then if q.len - 1 == i then some (take_last q) else some (take_last moved)
    else none

-- What `PeekAndShift` answers, nothing with the time to wait or the message with no time, and the queue.
unfoldable pub peek_and_shift : Pqueue → ℕ → Option ((Option ℕ × ℕ) × Pqueue)
peek_and_shift q max =
    if q.len == 0
    then some ((none, 0), q)
    else if ltb max (key q 0)
    then some ((none, key q 0 - max), q)
    else Option.map (λ p. ((some (q.slot 0), 0), p.1)) (pop q)
