-- ===== src/Views/Counter/Clearing.antt =====
-- xmqadmin/static/js/views/counter.js: `clearTimeout` on the timers of the poller, which it takes off
-- by their ids, and the ids of the timers in the steps of the counter.
use xmq.Base.{
  ℕ, suc, ◌+◌, ◌-◌, ◌≤◌, ◌<◌, ◌≡◌, refl, ap, ◌∙◌, ltb, Bool, true, false, Option, none, some, List,
  [], ◌∷◌, any, length, ◌==◌, if◌then◌else◌, arith, if_elim,
}
use xmq.Js.Text.{Text}
use xmq.Js.Number.{Number}
use xmq.Vendor.{Underscore}
use xmq.Views.Base.{JqXhr, Parsed}
use xmq.Views.Counter.{
  World, Stats, clear_timeout, write_counts, start_loop, update_stats, display_frame, start,
  take_count, next_interval, stats_done, stats_fail, interval_changed, remove_counter, poll_fires,
  frame_fires, erase,
}
use xmq.Views.Counter.Timers.{
  Step, answer, failure, poll, frame, new_interval, removal, Reach, here, next, erase_of,
  counter-clear_timeout,
}

abbrev pub count : ℕ → List ℕ → ℕ
count id [] = 0
count id (x ∷ xs) = if x == id then suc (count id xs) else count id xs

abbrev pub count_of : Option ℕ → List ℕ → ℕ
count_of none xs = 0
count_of (some id) xs = count id xs

pub length-erase : (id : ℕ) (xs : List ℕ) → length (erase id xs) + count id xs ≡ length xs
unfolding erase
length-erase id [] = omega arith
length-erase id (x ∷ xs) = ground (arith, length-erase id xs)

count-erase : (j id : ℕ) (xs : List ℕ) → count j (erase id xs) ≤ count j xs
unfolding erase
count-erase j id [] = omega arith
count-erase j id (x ∷ xs) = ground (arith, count-erase j id xs)

pub length-erase_of :
    (t : Option ℕ) (xs : List ℕ) → length (erase_of t xs) + count_of t xs ≡ length xs
length-erase_of none xs = omega arith
length-erase_of (some id) xs = length-erase id xs

count-erase_of : (j : ℕ) (t : Option ℕ) (xs : List ℕ) → count j (erase_of t xs) ≤ count j xs
count-erase_of j none xs = omega arith
count-erase_of j (some id) xs = count-erase j id xs

pub any-count : (id : ℕ) (xs : List ℕ) → any (λ x. x == id) xs ≡ true → 1 ≤ count id xs
any-count id [] h = cc
any-count id (x ∷ xs) h = ground (arith, any-count id xs)

count_none : (id : ℕ) (xs : List ℕ) → any (λ x. x == id) xs ≡ false → count id xs ≡ 0
count_none id [] h = refl
count_none id (x ∷ xs) h = ground (arith, count_none id xs)

-- Whether the timer of a variable is among those that have not fired.
abbrev pub known : Option ℕ → List ℕ → Bool
known none xs = false
known (some id) xs = any (λ x. x == id) xs

pub count_of-known :
    (t : Option ℕ) (xs : List ℕ)
    → ((j : ℕ) → count j xs ≤ 1)
    → count_of t xs ≡ (if known t xs then 1 else 0)
count_of-known none xs once = refl
count_of-known (some id) xs once = ground (arith, any-count id xs, count_none id xs, once id)

-- The animator's timer is an old one, and none of the poller's.
abbrev pub IsApart : Option ℕ → List ℕ → ℕ → Type 0
IsApart none polls new = Unit
IsApart (some id) polls new = (count id polls ≡ 0) × (id < new)

-- The poller's timers have an id each, which is not that of a later timer or of the animator's.
pub record Timed (polls : List ℕ) (animator : Option ℕ) (new : ℕ) : Type 0 where
  pub once : (j : ℕ) → count j polls ≤ 1
  pub old : (j : ℕ) → new ≤ j → count j polls ≡ 0
  pub apart : IsApart animator polls new

IsApart-fewer :
    (animator : Option ℕ) (polls fewer : List ℕ) (new : ℕ)
    → ((j : ℕ) → count j fewer ≤ count j polls)
    → IsApart animator polls new
    → IsApart animator fewer new
IsApart-fewer none polls fewer new less h = tt
IsApart-fewer (some id) polls fewer new less h = omega (arith, less id)

Timed-fewer :
    (animator : Option ℕ) (polls fewer : List ℕ) (new : ℕ)
    → ((j : ℕ) → count j fewer ≤ count j polls)
    → Timed polls animator new
    → Timed fewer animator new
Timed-fewer animator polls fewer new less h = record {
  once = λ j. omega (arith, less j, h.once j);
  old = λ j p. omega (arith, less j, h.old j p);
  apart = IsApart-fewer animator polls fewer new less h.apart;
}

IsApart-loop :
    (animator : Option ℕ) (polls : List ℕ) (new : ℕ)
    → IsApart animator polls new
    → IsApart animator (new ∷ polls) (suc new)
IsApart-loop none polls new h = tt
IsApart-loop (some id) polls new h = ground arith

Timed-loop :
    (animator : Option ℕ) (polls : List ℕ) (new : ℕ)
    → Timed polls animator new
    → Timed (new ∷ polls) animator (suc new)
Timed-loop animator polls new h = record {
  once = λ j. ground (arith, h.once j, h.old j);
  old = λ j p. ground (arith, h.old j);
  apart = IsApart-loop animator polls new h.apart;
}

Timed-still :
    {animator : Option ℕ} {polls : List ℕ} {new : ℕ}
    → Timed polls animator new
    → Timed polls none new
Timed-still h = record { once = h.once; old = h.old; apart = tt }

Timed-frame :
    {animator : Option ℕ} {polls : List ℕ} {new : ℕ}
    → Timed polls animator new
    → Timed polls (some new) (suc new)
Timed-frame {new} h = record {
  once = h.once;
  old = λ j p. h.old j (omega (arith, p));
  apart = (h.old new (omega arith), omega arith);
}

apart_of :
    (animator t : Option ℕ) (polls : List ℕ) (new : ℕ)
    → IsApart animator polls new
    → count_of animator (erase_of t polls) ≡ 0
apart_of none t polls new h = refl
apart_of (some id) t polls new h = omega (arith, count-erase_of id t polls)

pub record IsTimed {n : Number} (w : World n) : Type 0 where
  pub timers : Timed w.polls w.counter.animator w.next_timer

module _ {n : Number} where
  pub polls-clear_timeout :
      (t : Option ℕ) (w : World n) → (clear_timeout t w).polls ≡ erase_of t w.polls
  unfolding clear_timeout
  polls-clear_timeout none w = refl
  polls-clear_timeout (some id) w = refl

  next_timer-clear_timeout :
      (t : Option ℕ) (w : World n) → (clear_timeout t w).next_timer ≡ w.next_timer
  unfolding clear_timeout
  next_timer-clear_timeout none w = refl
  next_timer-clear_timeout (some id) w = refl

  clear_timeout-IsTimed : (t : Option ℕ) (w : World n) → IsTimed w → IsTimed (clear_timeout t w)
  clear_timeout-IsTimed t w h = record {
    timers =
        rw (polls-clear_timeout, counter-clear_timeout, next_timer-clear_timeout)
          (Timed-fewer w.counter.animator w.polls (erase_of t w.polls) w.next_timer
            (λ j. count-erase_of j t w.polls) h.timers);
  }

  -- Both timers of the view cleared.
  abbrev pub cleared : World n → World n
  cleared w = clear_timeout w.counter.animator (clear_timeout w.counter.poller w)

  cleared-IsTimed : (w : World n) → IsTimed w → IsTimed (cleared w)
  cleared-IsTimed w h =
      clear_timeout-IsTimed w.counter.animator _ (clear_timeout-IsTimed w.counter.poller w h)

  -- Clearing takes the poller's timer off, if it has not fired, and no other.
  pub length-cleared :
      (w : World n)
      → IsTimed w
      → length (cleared w).polls + count_of w.counter.poller w.polls ≡ length w.polls
  length-cleared w h =
      let p = polls-clear_timeout w.counter.poller w in
      let q = polls-clear_timeout w.counter.animator (clear_timeout w.counter.poller w) in
      omega (
        arith,
        ap length (q ∙ ap (erase_of w.counter.animator) p),
        length-erase_of w.counter.animator (erase_of w.counter.poller w.polls),
        length-erase_of w.counter.poller w.polls,
        apart_of w.counter.animator w.counter.poller w.polls w.next_timer h.timers.apart,
      )

  -- Clearing the animator's timer takes none of the poller's off.
  pub length-animator_cleared :
      (w : World n) → IsTimed w → length (clear_timeout w.counter.animator w).polls ≡ length w.polls
  length-animator_cleared w h = omega (
    arith,
    ap length (polls-clear_timeout w.counter.animator w),
    length-erase_of w.counter.animator w.polls,
    apart_of w.counter.animator none w.polls w.next_timer h.timers.apart,
  )

  display_frame-IsTimed : (w : World n) → IsTimed w → IsTimed (display_frame w)
  unfolding display_frame write_counts
  display_frame-IsTimed w h =
      let top = n.of_nat w.counter.last_num in
      let test = n.less (n.least (n.add w.counter.current_num w.counter.delta) top) top in
      if_elim IsTimed test _ _ (λ _. record { timers = Timed-frame h.timers })
        (λ _. record { timers = Timed-still h.timers })

  animated-IsTimed :
      (animator : Option ℕ) (w : World n)
      → IsTimed w
      → IsTimed (elim animator [ none ↦ display_frame w | some id ↦ w ])
  animated-IsTimed none w h = display_frame-IsTimed w h
  animated-IsTimed (some id) w h = h

  take_count-IsTimed : (num : ℕ) (w : World n) → IsTimed w → IsTimed (take_count num w)
  unfolding take_count write_counts
  take_count-IsTimed num w h =
      let c = w.counter in
      if_elim IsTimed (n.same c.current_num n.minus_one) _ _ (λ _. record { timers = h.timers })
        λ _.
          if_elim IsTimed (ltb c.last_num num) _ _
            (λ _. animated-IsTimed w.counter.animator _ (record { timers = h.timers })) (λ _. h)

  start_loop-IsTimed : (i : ℕ) (w : World n) → IsTimed w → IsTimed (start_loop i w)
  unfolding start_loop
  start_loop-IsTimed i w h = record {
    timers = Timed-loop w.counter.animator w.polls w.next_timer h.timers;
  }

  stats_done-IsTimed :
      (u : Underscore) (stats : Stats) (w : World n) → IsTimed w → IsTimed (stats_done u stats w)
  unfolding stats_done
  stats_done-IsTimed u stats w h =
      let waiting : World n = record w { in_flight = w.in_flight - 1 } in
      let num = u.reduce stats.message_counts (λ (sum v : ℕ). sum + v) 0 in
      let taken = take_count num waiting in
      if_elim IsTimed w.counter.removed _ _ (λ _. record { timers = h.timers })
        λ _. record {
          timers =
              (start_loop-IsTimed (next_interval taken.counter.interval) taken
                (take_count-IsTimed num waiting (record { timers = h.timers }))).timers;
        }

  stats_fail-IsTimed :
      (parse : Text → Parsed) (xhr : JqXhr) (w : World n)
      → IsTimed w
      → IsTimed (stats_fail parse xhr w)
  unfolding stats_fail
  stats_fail-IsTimed parse xhr w h =
      let waiting : World n = record w { in_flight = w.in_flight - 1 } in
      let stopped = clear_timeout w.counter.animator waiting in
      let quiet : World n = record stopped {
        counter = record stopped.counter { animator = none };
      } in
      let kept = clear_timeout-IsTimed w.counter.animator waiting (record { timers = h.timers }) in
      if_elim IsTimed w.counter.removed _ _ (λ _. record { timers = h.timers })
        λ _. record {
          timers =
              (start_loop-IsTimed 10000 quiet (record { timers = Timed-still kept.timers })).timers;
        }

  interval_changed-IsTimed : (w : World n) → IsTimed w → IsTimed (interval_changed w)
  unfolding interval_changed start update_stats
  interval_changed-IsTimed w h = record { timers = Timed-still (cleared-IsTimed w h).timers }

  remove_counter-IsTimed : (w : World n) → IsTimed w → IsTimed (remove_counter w)
  unfolding remove_counter
  remove_counter-IsTimed w h = record { timers = (cleared-IsTimed w h).timers }

  poll_fires-IsTimed : (id : ℕ) (w : World n) → IsTimed w → IsTimed (poll_fires id w)
  unfolding poll_fires update_stats
  poll_fires-IsTimed id w h = record {
    timers =
        Timed-fewer w.counter.animator w.polls (erase id w.polls) w.next_timer
          (λ j. count-erase j id w.polls) h.timers;
  }

  frame_fires-IsTimed : (id : ℕ) (w : World n) → IsTimed w → IsTimed (frame_fires id w)
  unfolding frame_fires
  frame_fires-IsTimed id w h = display_frame-IsTimed _ (record { timers = h.timers })

module _ {n : Number} {u : Underscore} {parse : Text → Parsed} where
  Step-IsTimed : {w v : World n} → Step u parse w v → IsTimed w → IsTimed v
  Step-IsTimed {w} (answer stats waits) h = stats_done-IsTimed u stats w h
  Step-IsTimed {w} (failure xhr waits) h = stats_fail-IsTimed parse xhr w h
  Step-IsTimed {w} (poll id due) h = poll_fires-IsTimed id w h
  Step-IsTimed {w} (frame id due) h = frame_fires-IsTimed id w h
  Step-IsTimed {w} (new_interval live) h = interval_changed-IsTimed w h
  Step-IsTimed {w} (removal live) h = remove_counter-IsTimed w h

  pub Reach-IsTimed : {w v : World n} → Reach u parse w v → IsTimed w → IsTimed v
  Reach-IsTimed here h = h
  Reach-IsTimed (next r s) h = Step-IsTimed s (Reach-IsTimed r h)
