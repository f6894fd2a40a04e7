-- ===== src/Views/Counter/Tests.antt =====
-- The counter in concrete runs.
use xmq.Base.{ℕ, suc, ◌+◌, ◌-◌, ◌⊎◌, ltb, none, ◌≡◌, refl, true, false, List, [], ◌∷◌, arith}
use xmq.Js.Text.{lit}
use xmq.Js.Decimal.{show}
use xmq.Vendor.{plain_underscore}
use xmq.Samples.{whole_numbers, unreadable, waiting, hundred, shifted_numbers, no_banner}
use xmq.Views.Counter.{
  World, Span, start, update_stats, stats_done, interval_changed, write_text, start_loop,
  take_count, write_counts, clear_timeout, remove_counter, erase,
}
use xmq.Views.Counter.Digits.{visible_text}
use xmq.Views.Counter.Timers.{
  Reach, answer, new_interval, removal, here, next, OneFrame, IsPaced, IsQuiet,
}
use xmq.Views.Counter.Steady.{counter_steady}
use xmq.Views.Counter.Bounded.{IsOrdered, counter_shows}
use xmq.Views.Counter.Polling.{loops, started, ended, counter_loops}
use xmq.Views.Counter.Clearing.{IsTimed}

abbrev spans : List Span
spans = record { digit = b'9'; visible = true } ∷ record { digit = b'9'; visible = true } ∷ []

first_answer :
    Reach plain_underscore unreadable
      (start waiting)
      (stats_done plain_underscore hundred (start waiting))
unfolding start update_stats
first_answer = next here (answer hundred (omega arith))

counter_steady_example :
    OneFrame
      (stats_done plain_underscore hundred (start waiting)).frames
      (stats_done plain_underscore hundred (start waiting)).counter.animator
    × IsPaced (stats_done plain_underscore hundred (start waiting)).counter.interval
    × IsQuiet
        (stats_done plain_underscore hundred (start waiting)).counter.removed
        (stats_done plain_underscore hundred (start waiting)).frames
counter_steady_example =
    counter_steady plain_underscore unreadable waiting
      (stats_done plain_underscore hundred (start waiting)) refl refl first_answer

-- An answer sets a timer; a new graph interval clears it and asks again; the view is removed, and the
-- second answer comes.
abbrev polling : World whole_numbers
polling = stats_done plain_underscore hundred waiting

abbrev changed : World whole_numbers
changed = interval_changed polling

abbrev gone : World whole_numbers
gone = remove_counter changed

polling_run : Reach plain_underscore unreadable waiting changed
unfolding stats_done start_loop take_count write_counts
polling_run = next (next here (answer hundred (omega arith))) (new_interval refl)

polling_run_ended :
    Reach plain_underscore unreadable waiting (stats_done plain_underscore hundred gone)
unfolding stats_done start_loop take_count write_counts interval_changed start update_stats
    clear_timeout remove_counter
polling_run_ended = next (next polling_run (removal refl)) (answer hundred (omega arith))

waiting-IsTimed : IsTimed waiting
waiting-IsTimed = record {
  timers = record { once = λ j. omega arith; old = λ j p. refl; apart = tt };
}

counter_loops_example :
    loops (stats_done plain_underscore hundred gone) + ended polling_run_ended
    ≡ started polling_run_ended + loops waiting
counter_loops_example = counter_loops polling_run_ended waiting-IsTimed

test_loops :
    ◌≡◌ {A = ℕ × ℕ × ℕ × ℕ}
      (
        loops (stats_done plain_underscore hundred gone),
        ended polling_run_ended,
        started polling_run_ended,
        loops waiting,
      )
      (0, 1, 0, 1)
unfolding polling_run polling_run_ended stats_done start_loop take_count write_counts
    interval_changed start update_stats clear_timeout remove_counter erase
test_loops = refl

-- A counter with numbers that are ordered, before and after its first answer.
abbrev idle : World shifted_numbers
idle = record {
  counter = record {
    poller = none;
    animator = none;
    delta = 1;
    current_num = 0;
    last_num = 0;
    interval = 100;
    removed = false;
  };
  polls = [];
  frames = [];
  next_timer = 1;
  in_flight = 0;
  spans = [];
  banner = no_banner;
}

ordered : IsOrdered shifted_numbers
ordered = record {
  less-least = λ a b. ground arith;
  less-itself = λ a. ground arith;
  less-minus_one = λ k. ground arith;
  less-larger = λ j k a h l. ground arith;
}

abbrev seeded : World shifted_numbers
seeded = stats_done plain_underscore hundred (start idle)

seeded_lem : Reach plain_underscore unreadable (start idle) seeded
unfolding start update_stats
seeded_lem = next here (answer hundred (omega arith))

counter_shows_example :
    (ltb (suc seeded.counter.last_num) seeded.counter.current_num ≡ false)
    × ((visible_text seeded.spans ≡ [])
        ⊎ (visible_text seeded.spans ≡ show (seeded.counter.current_num - 1)))
counter_shows_example =
    counter_shows ordered plain_underscore unreadable idle seeded refl seeded_lem

test_seeded : visible_text seeded.spans ≡ lit "100"
unfolding stats_done start update_stats take_count write_counts write_text show start_loop
test_seeded = refl
