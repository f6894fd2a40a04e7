-- ===== src/Xmqd/Channel.antt =====
-- xmqd/channel.go: the messages in flight of a channel, a dictionary from their ids and a queue by the
-- time at which they are given up.
--
-- A message is a pointer, a number, and so are a message id and a client id. `id`, `client` and
-- `delivered` are fields of the messages; `pri` and `index` stand in the queue. Times are nanoseconds,
-- and the time now is an argument. Each call runs alone; the latency statistics are left out.
mod Tests
pub mod InFlight
pub mod Expire
pub mod Calls
use mathlib.Core.Option
use xmq.Base.{ℕ, ◌+◌, Option, none, some, leb, ◌==◌, if◌then◌else◌}
use xmq.Js.Text.{Text, lit}
use xmq.Xmqd.InFlight.{Pqueue, put, push, remove}

pub record Channel : Type 0 where
  pub id : ℕ → ℕ
  pub client : ℕ → ℕ
  pub delivered : ℕ → ℕ
  pub messages : ℕ → Option ℕ
  pub pq : Pqueue

-- A call returns, returns an error, or panics. What it changed before the error stays.
pub data Outcome : Type 0 where
  ok : Channel → Outcome
  error : Text → Channel → Outcome
  panic : Outcome

-- What `popInFlightMessage` returns.
pub data Popped : Type 0 where
  popped : ℕ → Channel → Popped
  refused : Text → Popped

unfoldable pub pop_in_flight_at : Channel → ℕ → ℕ → Option ℕ → Popped
pop_in_flight_at c client i none = refused (lit "ID not in flight")
pop_in_flight_at c client i (some m) =
    if c.client m == client
    then popped m (record c { messages = put c.messages i none })
    else refused (lit "client does not own message")

unfoldable pub pop_in_flight : Channel → ℕ → ℕ → Popped
pop_in_flight c client i = pop_in_flight_at c client i (c.messages i)

unfoldable pub push_in_flight_at : Channel → ℕ → Option ℕ → Outcome
push_in_flight_at c m none = ok (record c { messages = put c.messages (c.id m) (some m) })
push_in_flight_at c m (some other) = error (lit "ID already in flight") c

unfoldable pub push_in_flight : Channel → ℕ → Outcome
push_in_flight c m = push_in_flight_at c m (c.messages (c.id m))

unfoldable pub add_to_in_flight_pq : Channel → ℕ → Channel
add_to_in_flight_pq c m = record c { pq = push c.pq m }

unfoldable pub remove_at : Channel → Option ℕ → Option Channel
remove_at c none = some c
remove_at c (some i) = Option.map (λ p. record c { pq = p.1 }) (remove c.pq i)

unfoldable pub remove_from_in_flight_pq : Channel → ℕ → Option Channel
remove_from_in_flight_pq c m = remove_at c (c.pq.index m)

-- `pushInFlightMessage`, and `addToInFlightPQ` unless it fails
unfoldable pub added : ℕ → Outcome → Outcome
added m (ok c) = ok (add_to_in_flight_pq c m)
added m (error e c) = error e c
added m panic = panic

unfoldable pub set_pri : Channel → ℕ → ℕ → Channel
set_pri c m t = record c { pq = record c.pq { pri = put c.pq.pri m t } }

unfoldable pub start_in_flight_timeout : Channel → ℕ → ℕ → ℕ → ℕ → Outcome
start_in_flight_timeout c m client timeout now =
    let owned : Channel = record c {
      client = put c.client m client;
      delivered = put c.delivered m now;
    } in
    added m (push_in_flight (set_pri owned m (now + timeout)) m)

unfoldable pub finished : Option Channel → Outcome
finished none = panic
finished (some c) = ok c

unfoldable pub finish_popped : Channel → Popped → Outcome
finish_popped c (refused e) = error e c
finish_popped c (popped m d) = finished (remove_from_in_flight_pq d m)

unfoldable pub finish_message : Channel → ℕ → ℕ → Outcome
finish_message c client i = finish_popped c (pop_in_flight c client i)

-- The time until which a touched message is waited for: from now, but not longer than the limit after
-- its delivery.
unfoldable pub touched_until : ℕ → ℕ → ℕ → ℕ → ℕ
touched_until delivered timeout now limit =
    if leb (delivered + limit) (now + timeout) then delivered + limit else now + timeout

unfoldable pub touched : ℕ → ℕ → ℕ → ℕ → Option Channel → Outcome
touched m timeout now limit none = panic
touched m timeout now limit (some c) =
    added m (push_in_flight (set_pri c m (touched_until (c.delivered m) timeout now limit)) m)

unfoldable pub touch_popped : Channel → ℕ → ℕ → ℕ → Popped → Outcome
touch_popped c timeout now limit (refused e) = error e c
touch_popped c timeout now limit (popped m d) =
    touched m timeout now limit (remove_from_in_flight_pq d m)

unfoldable pub touch_message : Channel → ℕ → ℕ → ℕ → ℕ → ℕ → Outcome
touch_message c client i timeout now limit =
    touch_popped c timeout now limit (pop_in_flight c client i)
