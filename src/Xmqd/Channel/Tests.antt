-- ===== src/Xmqd/Channel/Tests.antt =====
-- A channel with two messages in flight.
use mathlib.Core.Option
use xmq.Base.{
  refl, [], ◌∷◌, ◌+◌, ◌≡◌, true, false, none, some, ◌==◌, if◌then◌else◌, Bool-cases, inl, inr,
  arith,
}
use xmq.Xmqd.InFlight.{
  Pqueue, push, remove, peek_and_shift, pop, swap, put, down, down_loop, take_last, smaller_child,
}
use xmq.Xmqd.InFlight.Moves.{Holds}
use xmq.Xmqd.InFlight.Queue.{IsQueue, Takes, remove-Takes}
use xmq.Xmqd.InFlight.Push.{Added, push-Added}
use xmq.Xmqd.Channel.{Channel, finish_message, touch_message, pop_in_flight, pop_in_flight_at}
use xmq.Xmqd.Channel.InFlight.{IsChannel}
use xmq.Xmqd.Channel.Calls.{
  Answered, Finished, TouchedUntil, finish_message-Answered, touch_message-Answered,
}
use xmq.Xmqd.Channel.Expire.{
  Expiry, Expires, process_in_flight_queue, process_in_flight_queue_lem, expire, expire_peeked,
  expire_popped, with_requeued, stopped,
}

abbrev two : Pqueue
two = record {
  slot = λ k. if k == 0 then 7 else 4;
  len = 2;
  pri = λ m. if m == 7 then 10 else 20;
  index = λ m. if m == 7 then some 0 else if m == 4 then some 1 else none;
}

two-IsQueue : IsQueue two
two-IsQueue = record { ordered = λ c p r. ground arith; indexed = λ i p. ground arith }

abbrev sample : Channel
sample = record {
  id = λ m. m + 100;
  client = λ m. 1;
  delivered = λ m. 5;
  messages = λ i. if i == 107 then some 7 else if i == 104 then some 4 else none;
  pq = two;
}

sample-IsChannel : IsChannel sample
sample-IsChannel = record {
  queue = two-IsQueue;
  listed = λ m h. ground (arith, h.there, h.inside);
  queued = λ i m g. elim (Bool-cases (i == 107)) [
    | inl seven ↦ (record { at = 0; inside = omega arith; there = ground arith }, ground arith)
    | inr other ↦ (record { at = 1; inside = omega arith; there = ground arith }, ground arith)
  ];
}

fresh : Holds two 9 → ⊥
fresh h = ground (arith, h.there)

remove-Takes_example : Takes two 0 (remove two 0)
remove-Takes_example = remove-Takes two 0 two-IsQueue (omega arith)

push-Added_example : Added two 9 (push two 9)
push-Added_example = push-Added two 9 two-IsQueue fresh

finish_message-Answered_example :
    Answered (Finished sample 107) sample 1 107 (finish_message sample 1 107)
finish_message-Answered_example = finish_message-Answered sample 1 107 sample-IsChannel

touch_message-Answered_example :
    Answered (TouchedUntil sample 3 12 30) sample 1 104 (touch_message sample 1 104 3 12 30)
touch_message-Answered_example = touch_message-Answered sample 1 104 3 12 30 sample-IsChannel

process_in_flight_queue_lem_example :
    (e : Expiry) × (process_in_flight_queue (λ k. true) 3 false sample 15 ≡ some e)
    × Expires (λ k. true) sample 15 e
process_in_flight_queue_lem_example =
    process_in_flight_queue_lem (λ k. true) 3 false sample 15 sample-IsChannel (omega arith)

-- Both are due at 25: the earlier one is given back first.
test_both :
    Option.map (λ e. e.requeued) (process_in_flight_queue (λ k. true) 3 false sample 25)
    ≡ some (7 ∷ (4 ∷ []))
unfolding process_in_flight_queue expire expire_peeked expire_popped with_requeued stopped
    peek_and_shift pop swap put down down_loop take_last pop_in_flight pop_in_flight_at
    smaller_child
test_both = refl
