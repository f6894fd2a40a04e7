-- ===== src/Views/Counter/Polling.antt =====
-- The polling loops: how many run at once.
use xmq.Base.{
  ℕ, suc, ◌+◌, ◌-◌, ◌≤◌, ◌<◌, ◌≡◌, refl, ◌∙◌, Bool, true, Option, none, some, List, any, length,
  ◌==◌, if◌then◌else◌, arith, if_elim,
}
use xmq.Js.Text.{Text}
use xmq.Js.Number.{Number}
use xmq.Vendor.{Underscore}
use xmq.Views.Base.{JqXhr, Parsed}
use xmq.Views.Counter.{
  World, Stats, clear_timeout, write_counts, start_loop, update_stats, display_frame, start,
  take_count, next_interval, stats_done, stats_fail, interval_changed, remove_counter, poll_fires,
  frame_fires, erase,
}
use xmq.Views.Counter.Timers.{
  Step, answer, failure, poll, frame, new_interval, removal, Reach, here, next,
}
use xmq.Views.Counter.Clearing.{
  count, length-erase, any-count, known, count_of-known, IsTimed, cleared, length-cleared,
  length-animator_cleared, Reach-IsTimed,
}

length-erase_due :
    (id : ℕ) (xs : List ℕ)
    → any (λ x. x == id) xs ≡ true
    → count id xs ≤ 1
    → suc (length (erase id xs)) ≡ length xs
length-erase_due id xs h once = omega (arith, length-erase id xs, any-count id xs h)

module _ {n : Number} where
  -- The polling loops: timers that will send a request, and requests without an answer.
  abbrev pub loops : World n → ℕ
  loops w = length w.polls + w.in_flight

  in_flight-clear_timeout :
      (t : Option ℕ) (w : World n) → (clear_timeout t w).in_flight ≡ w.in_flight
  unfolding clear_timeout
  in_flight-clear_timeout none w = refl
  in_flight-clear_timeout (some id) w = refl

  display_frame-loops : (w : World n) → loops (display_frame w) ≡ loops w
  unfolding display_frame write_counts
  display_frame-loops w = ground arith

  take_count-loops : (num : ℕ) (w : World n) → loops (take_count num w) ≡ loops w
  unfolding take_count write_counts
  take_count-loops num w = ground arith

  start_loop-loops : (i : ℕ) (w : World n) → loops (start_loop i w) ≡ suc (loops w)
  unfolding start_loop
  start_loop-loops i w = omega arith

  -- The poller's timer that the view knows has not fired.
  abbrev pub is_waiting : World n → Bool
  is_waiting w = known w.counter.poller w.polls

  stats_done-loops :
      (u : Underscore) (stats : Stats) (w : World n)
      → 0 < w.in_flight
      → loops (stats_done u stats w) + (if w.counter.removed then 1 else 0) ≡ loops w
  unfolding stats_done
  stats_done-loops u stats w h =
      let waiting : World n = record w { in_flight = w.in_flight - 1 } in
      let num = u.reduce stats.message_counts (λ (sum v : ℕ). sum + v) 0 in
      let taken = take_count num waiting in
      if_elim (λ v. loops v + (if w.counter.removed then 1 else 0) ≡ loops w) w.counter.removed _ _
        (λ gone. ground (arith, gone))
        λ live. ground (
          arith,
          live,
          start_loop-loops (next_interval taken.counter.interval) taken,
          take_count-loops num waiting,
        )

  stats_fail-loops :
      (parse : Text → Parsed) (xhr : JqXhr) (w : World n)
      → 0 < w.in_flight
      → IsTimed w
      → loops (stats_fail parse xhr w) + (if w.counter.removed then 1 else 0) ≡ loops w
  unfolding stats_fail
  stats_fail-loops parse xhr w h timed =
      let waiting : World n = record w { in_flight = w.in_flight - 1 } in
      let stopped = clear_timeout w.counter.animator waiting in
      let quiet : World n = record stopped {
        counter = record stopped.counter { animator = none };
      } in
      if_elim (λ v. loops v + (if w.counter.removed then 1 else 0) ≡ loops w) w.counter.removed _ _
        (λ gone. ground (arith, gone))
        λ live. ground (
          arith,
          live,
          start_loop-loops 10000 quiet,
          length-animator_cleared waiting (record { timers = timed.timers }),
          in_flight-clear_timeout w.counter.animator waiting,
        )

  in_flight-cleared : (w : World n) → (cleared w).in_flight ≡ w.in_flight
  in_flight-cleared w =
      in_flight-clear_timeout w.counter.animator (clear_timeout w.counter.poller w)
      ∙ in_flight-clear_timeout w.counter.poller w

  cleared-loops :
      (w : World n) → IsTimed w → loops (cleared w) + (if is_waiting w then 1 else 0) ≡ loops w
  cleared-loops w h = omega (
    arith,
    length-cleared w h,
    in_flight-cleared w,
    count_of-known w.counter.poller w.polls h.timers.once,
  )

  interval_changed-loops :
      (w : World n)
      → IsTimed w
      → loops (interval_changed w) ≡ (if is_waiting w then 0 else 1) + loops w
  unfolding interval_changed start update_stats
  interval_changed-loops w h = ground (arith, cleared-loops w h)

  remove_counter-loops :
      (w : World n)
      → IsTimed w
      → loops (remove_counter w) + (if is_waiting w then 1 else 0) ≡ loops w
  unfolding remove_counter
  remove_counter-loops w h = cleared-loops w h

  poll_fires-loops :
      (id : ℕ) (w : World n)
      → any (λ x. x == id) w.polls ≡ true
      → IsTimed w
      → loops (poll_fires id w) ≡ loops w
  unfolding poll_fires update_stats
  poll_fires-loops id w h timed =
      omega (arith, length-erase_due id w.polls h (timed.timers.once id))

  frame_fires-loops : (id : ℕ) (w : World n) → loops (frame_fires id w) ≡ loops w
  unfolding frame_fires
  frame_fires-loops id w = display_frame-loops _

module _ {n : Number} {u : Underscore} {parse : Text → Parsed} where
  -- The loops that a step starts: a change of the graph interval does where no timer of the poller
  -- waits for the view to clear it.
  abbrev pub step_started : {w v : World n} → Step u parse w v → ℕ
  step_started (answer _ _) = 0
  step_started {w} (new_interval _) = if is_waiting w then 0 else 1
  step_started _ = 0

  -- The loops that a step ends: the removal ends the one whose timer waits, and an answer that comes
  -- after the removal its own.
  abbrev pub step_ended : {w v : World n} → Step u parse w v → ℕ
  step_ended {w} (answer _ _) = if w.counter.removed then 1 else 0
  step_ended {w} (failure _ _) = if w.counter.removed then 1 else 0
  step_ended {w} (removal _) = if is_waiting w then 1 else 0
  step_ended _ = 0

  abbrev pub started : {w v : World n} → Reach u parse w v → ℕ
  started here = 0
  started (next r s) = step_started s + started r

  abbrev pub ended : {w v : World n} → Reach u parse w v → ℕ
  ended here = 0
  ended (next r s) = step_ended s + ended r

  Step-loops :
      {w v : World n} (s : Step u parse w v)
      → IsTimed w
      → loops v + step_ended s ≡ step_started s + loops w
  Step-loops {w} (answer stats h) timed = omega (arith, stats_done-loops u stats w h)
  Step-loops {w} (failure xhr h) timed = omega (arith, stats_fail-loops parse xhr w h timed)
  Step-loops {w} (poll id h) timed = omega (arith, poll_fires-loops id w h timed)
  Step-loops {w} (frame id h) timed = omega (arith, frame_fires-loops id w)
  Step-loops {w} (new_interval h) timed = omega (arith, interval_changed-loops w timed)
  Step-loops {w} (removal h) timed = omega (arith, remove_counter-loops w timed)

  -- In every run from a state in which each timer of the poller has its own id, below the next one
  -- and not the animator's, the polling loops are those at its start, one more for each change of the
  -- graph interval while no timer that the view knows waits to poll, and one less for each answer or
  -- failure after the removal, and for the removal while such a timer waits.
  pub counter_loops :
      {w v : World n} (r : Reach u parse w v) → IsTimed w → loops v + ended r ≡ started r + loops w
  counter_loops here timed = omega arith
  counter_loops (next r s) timed =
      omega (arith, counter_loops r timed, Step-loops s (Reach-IsTimed r timed))

module _ {n : Number} where
  -- Once the view is removed, no answer starts a timer or a request, and it stays removed.
  removed_answers :
      (u : Underscore) (parse : Text → Parsed) (stats : Stats) (xhr : JqXhr) (w : World n)
      → w.counter.removed ≡ true
      → (stats_done u stats w ≡ record w { in_flight = w.in_flight - 1 })
        × (stats_fail parse xhr w ≡ record w { in_flight = w.in_flight - 1 })
  unfolding stats_done stats_fail
  removed_answers u parse stats xhr w gone = (
    if_elim (λ v. v ≡ record w { in_flight = w.in_flight - 1 }) w.counter.removed _ _ (λ _. refl)
        (λ live. cc),
    if_elim (λ v. v ≡ record w { in_flight = w.in_flight - 1 }) w.counter.removed _ _ (λ _. refl)
        (λ live. cc),
  )
