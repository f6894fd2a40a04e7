-- ===== src/Views/Counter/Steady.antt =====
-- The animation and the poll interval in the runs of the counter.
use xmq.Base.{
  if_elim, ◌+◌, ◌-◌, ℕ, ◌≡◌, refl, ◌∙◌, true, false, none, [], any, ◌==◌, arith, inl, inr,
}
use xmq.Js.Text.{Text}
use xmq.Js.Number.{Number}
use xmq.Vendor.{Underscore}
use xmq.Views.Base.{JqXhr, Parsed, Banner}
use xmq.Views.Counter.{
  World, Stats, clear_timeout, update_stats, start, take_count, stats_done, stats_fail,
  interval_changed, remove_counter, poll_fires, frame_fires, erase,
}
use xmq.Views.Counter.Timers.{
  Step, answer, failure, poll, frame, new_interval, removal, Reach, here, next, OneFrame, IsPaced,
  IsQuiet, IsSteady, erase_one, clear_animator, frames-clear_timeout, counter-clear_timeout,
  frames-cleared, display_frame-IsSteady, take_count-IsSteady, next_interval-IsPaced,
  start_loop-IsSteady,
}

module _ {n : Number} where
  counter-cleared :
      (w : World n)
      → (clear_timeout w.counter.animator (clear_timeout w.counter.poller w)).counter ≡ w.counter
  counter-cleared w =
      counter-clear_timeout w.counter.animator _ ∙ counter-clear_timeout w.counter.poller w

  interval_changed-IsSteady :
      (w : World n) → IsSteady w → w.counter.removed ≡ false → IsSteady (interval_changed w)
  unfolding interval_changed start update_stats
  interval_changed-IsSteady w h live = record {
    one_frame = rw (frames-cleared w h) tt;
    paced = inr (refl, omega arith);
    quiet = rw (counter-cleared w, live) tt;
  }

  remove_counter-IsSteady : (w : World n) → IsSteady w → IsSteady (remove_counter w)
  unfolding remove_counter
  remove_counter-IsSteady w h = record {
    one_frame = rw (frames-cleared w h) tt;
    paced = rw (counter-cleared w) h.paced;
    quiet = frames-cleared w h;
  }

  poll_fires-IsSteady : (id : ℕ) (w : World n) → IsSteady w → IsSteady (poll_fires id w)
  unfolding poll_fires update_stats
  poll_fires-IsSteady id w h = record { one_frame = h.one_frame; paced = h.paced; quiet = h.quiet }

  -- A frame that is due belongs to a view that was not removed.
  live_of_frame :
      (id : ℕ) (w : World n)
      → IsSteady w
      → any (λ x. x == id) w.frames ≡ true
      → w.counter.removed ≡ false
  live_of_frame id w h due = ground (arith, h.quiet)

  frame_fires-IsSteady :
      (id : ℕ) (w : World n)
      → IsSteady w
      → any (λ x. x == id) w.frames ≡ true
      → IsSteady (frame_fires id w)
  unfolding frame_fires
  frame_fires-IsSteady id w h due =
      display_frame-IsSteady (record w { frames = erase id w.frames })
        (erase_one id w.frames w.counter.animator h.one_frame due) (live_of_frame id w h due)
        h.paced

  with_banner-IsSteady :
      (w : World n) (b : Banner) → IsSteady w → IsSteady (record w { banner = b })
  with_banner-IsSteady w b h = record { one_frame = h.one_frame; paced = h.paced; quiet = h.quiet }

  answered-IsSteady : (w : World n) (k : ℕ) → IsSteady w → IsSteady (record w { in_flight = k })
  answered-IsSteady w k h = record { one_frame = h.one_frame; paced = h.paced; quiet = h.quiet }

  stats_done-IsSteady :
      (u : Underscore) (stats : Stats) (w : World n) → IsSteady w → IsSteady (stats_done u stats w)
  unfolding stats_done
  stats_done-IsSteady u stats w h =
      let waiting : World n = record w { in_flight = w.in_flight - 1 } in
      let num = u.reduce stats.message_counts (λ (sum v : ℕ). sum + v) 0 in
      if_elim IsSteady w.counter.removed _ _ (λ _. answered-IsSteady w (w.in_flight - 1) h)
        λ live.
          let taken : IsSteady (take_count num waiting) =
            take_count-IsSteady num waiting (answered-IsSteady w (w.in_flight - 1) h) live in
          with_banner-IsSteady _ _
            (start_loop-IsSteady _ _ taken (next_interval-IsPaced _ taken.paced))

  stats_fail-IsSteady :
      (parse : Text → Parsed) (xhr : JqXhr) (w : World n)
      → IsSteady w
      → IsSteady (stats_fail parse xhr w)
  unfolding stats_fail
  stats_fail-IsSteady parse xhr w h =
      let waiting : World n = record w { in_flight = w.in_flight - 1 } in
      let stopped : World n = clear_timeout w.counter.animator waiting in
      let none_left : stopped.frames ≡ [] =
        frames-clear_timeout w.counter.animator waiting
        ∙ clear_animator w.frames w.counter.animator h.one_frame in
      if_elim IsSteady w.counter.removed _ _ (λ _. answered-IsSteady w (w.in_flight - 1) h)
        λ live. with_banner-IsSteady _ _ (
          start_loop-IsSteady 10000
            (record stopped { counter = record stopped.counter { animator = none } })
            (record {
              one_frame = rw none_left tt;
              paced = rw counter-clear_timeout h.paced;
              quiet = rw (counter-clear_timeout, live) tt;
            })
            (inl refl))

  Step-IsSteady :
      {u : Underscore} {parse : Text → Parsed} {w v : World n}
      → Step u parse w v
      → IsSteady w
      → IsSteady v
  Step-IsSteady {u} {w} (answer stats waits) h = stats_done-IsSteady u stats w h
  Step-IsSteady {parse} {w} (failure xhr waits) h = stats_fail-IsSteady parse xhr w h
  Step-IsSteady {w} (poll id due) h = poll_fires-IsSteady id w h
  Step-IsSteady {w} (frame id due) h = frame_fires-IsSteady id w h due
  Step-IsSteady {w} (new_interval live) h = interval_changed-IsSteady w h live
  Step-IsSteady {w} (removal live) h = remove_counter-IsSteady w h

  Reach-IsSteady :
      {u : Underscore} {parse : Text → Parsed} {w v : World n}
      → Reach u parse w v
      → IsSteady w
      → IsSteady v
  Reach-IsSteady here h = h
  Reach-IsSteady (next r s) h = Step-IsSteady s (Reach-IsSteady r h)

  start-IsSteady : (w : World n) → w.frames ≡ [] → w.counter.removed ≡ false → IsSteady (start w)
  unfolding start update_stats
  start-IsSteady w none_left live = record {
    one_frame = rw none_left tt;
    paced = inr (refl, omega arith);
    quiet = rw live tt;
  }

  -- However answers, failures, due timers, new graph intervals and the removal follow one another
  -- after `start` in a view with no animation, at most one timer of the animator is pending and it
  -- is the one that the view clears; the poll interval is 10000 or one of 100, 1100, …, 10100; and
  -- once the view is removed no animation is left.
  pub counter_steady :
      (u : Underscore) (parse : Text → Parsed) (w v : World n)
      → w.frames ≡ []
      → w.counter.removed ≡ false
      → Reach u parse (start w) v
      → OneFrame v.frames v.counter.animator
        × IsPaced v.counter.interval
        × IsQuiet v.counter.removed v.frames
  counter_steady u parse w v none_left live r =
      let h = Reach-IsSteady r (start-IsSteady w none_left live) in (h.one_frame, h.paced, h.quiet)
