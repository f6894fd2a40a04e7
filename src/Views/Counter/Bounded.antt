-- ===== src/Views/Counter/Bounded.antt =====
-- The number that the counter shows, against the last count.
use xmq.Base.{
  if_elim, ltb, ltb→lt, ◌+◌, ◌-◌, ℕ, ◌≤◌, ◌≡◌, ◌⊎◌, refl, false, Option, none, some, [], arith, inl,
  inr,
}
use xmq.Js.Text.{Text}
use xmq.Js.Decimal.{show}
use xmq.Js.Number.{Number}
use xmq.Vendor.{Underscore}
use xmq.Views.Base.{JqXhr, Parsed}
use xmq.Views.Counter.{
  Counter, World, Stats, clear_timeout, write_counts, update_stats, display_frame, start,
  start_loop, take_count, stats_done, stats_fail, interval_changed, remove_counter, poll_fires,
  frame_fires, erase,
}
use xmq.Views.Counter.Digits.{visible_text, write_text_lem}
use xmq.Views.Counter.Timers.{
  Step, answer, failure, poll, frame, new_interval, removal, Reach, here, next,
}

-- What the comparisons of the numbers keep to.
pub record IsOrdered (n : Number) : Type 0 where
  pub less-least : (a b : n.F) → n.less b (n.least a b) ≡ false
  pub less-itself : (a : n.F) → n.less a a ≡ false
  pub less-minus_one : (k : ℕ) → n.less (n.of_nat k) n.minus_one ≡ false
  pub less-larger :
      (j k : ℕ) (a : n.F) → j ≤ k → n.less (n.of_nat j) a ≡ false → n.less (n.of_nat k) a ≡ false

module _ {n : Number} where
  -- The number is not above the last count, and the digits are the number's, or there are none.
  pub record IsBounded (w : World n) : Type 0 where
    pub below : n.less (n.of_nat w.counter.last_num) w.counter.current_num ≡ false
    pub digits :
        (visible_text w.spans ≡ []) ⊎ (visible_text w.spans ≡ show (n.floor w.counter.current_num))

  module _ (o : IsOrdered n) where
    display_frame-IsBounded : (w : World n) → IsBounded (display_frame w)
    unfolding display_frame write_counts
    display_frame-IsBounded w =
        let last : n.F = n.of_nat w.counter.last_num in
        let current : n.F = n.least (n.add w.counter.current_num w.counter.delta) last in
        let bound = o.less-least (n.add w.counter.current_num w.counter.delta) last in
        let drawn = (write_text_lem (show (n.floor current)) w.spans).0 in
        if_elim IsBounded (n.less current last) _ _
          (λ _. record { below = bound; digits = inr drawn })
          (λ _. record { below = bound; digits = inr drawn })

    take_count-IsBounded : (num : ℕ) (w : World n) → IsBounded w → IsBounded (take_count num w)
    unfolding take_count write_counts
    take_count-IsBounded num w h =
        let c : Counter n = w.counter in
        let step : n.F =
          n.div (n.div (n.of_nat (num - c.last_num)) (n.div (n.of_nat c.interval) (n.of_nat 1000)))
            (n.of_nat 50) in
        let grown : World n = record w { counter = record c { delta = step; last_num = num } } in
        if_elim IsBounded (n.same c.current_num n.minus_one) _ _
          (λ _. record {
            below = o.less-itself (n.of_nat num);
            digits = inr (write_text_lem (show (n.floor (n.of_nat num))) w.spans).0;
          })
          (λ _.
            if_elim IsBounded (ltb c.last_num num) _ _
              (λ more.
                elim c.animator
                  as (λ a.
                    IsBounded
                      (elim a as (λ _. World n) [ none ↦ display_frame grown | some id ↦ grown ])) [
                        | none ↦ display_frame-IsBounded grown
                        | some id ↦ record {
                          below =
                              o.less-larger c.last_num num c.current_num
                                (omega (arith, ltb→lt _ _ more)) h.below;
                          digits = h.digits;
                        }
                      ])
              (λ _. h))

    stats_done-IsBounded :
        (u : Underscore) (stats : Stats) (w : World n)
        → IsBounded w
        → IsBounded (stats_done u stats w)
    unfolding stats_done start_loop
    stats_done-IsBounded u stats w h =
        let waiting : World n = record w { in_flight = w.in_flight - 1 } in
        let num = u.reduce stats.message_counts (λ (sum v : ℕ). sum + v) 0 in
        let taken =
          take_count-IsBounded num waiting (record { below = h.below; digits = h.digits }) in
        if_elim IsBounded w.counter.removed _ _ (λ _. record { below = h.below; digits = h.digits })
          (λ _. record { below = taken.below; digits = taken.digits })

    clear_timeout-IsBounded :
        (t : Option ℕ) (w : World n) → IsBounded w → IsBounded (clear_timeout t w)
    unfolding clear_timeout
    clear_timeout-IsBounded none w h = h
    clear_timeout-IsBounded (some id) w h = record { below = h.below; digits = h.digits }

    stats_fail-IsBounded :
        (parse : Text → Parsed) (xhr : JqXhr) (w : World n)
        → IsBounded w
        → IsBounded (stats_fail parse xhr w)
    unfolding stats_fail start_loop
    stats_fail-IsBounded parse xhr w h =
        let waiting : World n = record w { in_flight = w.in_flight - 1 } in
        let stopped =
          clear_timeout-IsBounded w.counter.animator waiting
            (record { below = h.below; digits = h.digits }) in
        if_elim IsBounded w.counter.removed _ _ (λ _. record { below = h.below; digits = h.digits })
          (λ _. record { below = stopped.below; digits = stopped.digits })

    start-IsBounded : (w : World n) → visible_text w.spans ≡ [] → IsBounded (start w)
    unfolding start update_stats
    start-IsBounded w h = record { below = o.less-minus_one 0; digits = inl h }

    remove_counter-IsBounded : (w : World n) → IsBounded w → IsBounded (remove_counter w)
    unfolding remove_counter
    remove_counter-IsBounded w h =
        let stopped =
          clear_timeout-IsBounded w.counter.animator (clear_timeout w.counter.poller w)
            (clear_timeout-IsBounded w.counter.poller w h) in
        record { below = stopped.below; digits = stopped.digits }

    Step-IsBounded :
        {u : Underscore} {parse : Text → Parsed} {w v : World n}
        → Step u parse w v
        → IsBounded w
        → IsBounded v
    unfolding poll_fires update_stats frame_fires interval_changed
    Step-IsBounded {u} {w} (answer stats waits) h = stats_done-IsBounded u stats w h
    Step-IsBounded {parse} {w} (failure xhr waits) h = stats_fail-IsBounded parse xhr w h
    Step-IsBounded {w} (poll id due) h = record { below = h.below; digits = h.digits }
    Step-IsBounded {w} (frame id due) h =
        display_frame-IsBounded (record w { frames = erase id w.frames })
    Step-IsBounded {w} (new_interval live) h = start-IsBounded _ refl
    Step-IsBounded {w} (removal live) h = remove_counter-IsBounded w h

    Reach-IsBounded :
        {u : Underscore} {parse : Text → Parsed} {w v : World n}
        → Reach u parse w v
        → IsBounded w
        → IsBounded v
    Reach-IsBounded here h = h
    Reach-IsBounded (next r s) h = Step-IsBounded s (Reach-IsBounded r h)

  -- Where numbers are compared as in an order, and no digits are shown at `start`: in every run after
  -- `start` the number is not above the last count, and the digits shown are those of the whole part
  -- of the number, or there are none.
  pub counter_shows :
      (o : IsOrdered n) (u : Underscore) (parse : Text → Parsed) (w v : World n)
      → visible_text w.spans ≡ []
      → Reach u parse (start w) v
      → (n.less (n.of_nat v.counter.last_num) v.counter.current_num ≡ false)
        × ((visible_text v.spans ≡ [])
            ⊎ (visible_text v.spans ≡ show (n.floor v.counter.current_num)))
  counter_shows o u parse w v none_shown r =
      let bounded = Reach-IsBounded o r (start-IsBounded o w none_shown) in
      (bounded.below, bounded.digits)
