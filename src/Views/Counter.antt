-- ===== src/Views/Counter.antt =====
-- xmqadmin/static/js/views/counter.js: the message counter, which polls the server and animates the
-- number. `Counter` is the view's own state; `World` adds the browser's: the timers that have not
-- fired, of the poller and of the animator, the requests without an answer, and the page's boxes. The
-- address of the large graph, which `updateStats` renews, is not part of it.
mod Tests
pub mod Digits
pub mod Timers
pub mod Steady
pub mod Bounded
pub mod Clearing
pub mod Polling
pub mod Image
use xmq.Base.{
  ℕ, zero, suc, ◌+◌, ◌-◌, Bool, true, false, not, Option, none, some, List, [], ◌∷◌, ◌++◌, keep,
  ltb, ◌==◌, if◌then◌else◌,
}
use xmq.Js.Text.{Text, lit}
use xmq.Js.Decimal.{show}
use xmq.Js.Number.{Number}
use xmq.Vendor.{Underscore}
use xmq.Views.Base.{Banner, JqXhr, Parsed, handle_ajax_error}

-- A digit's element in the page.
pub record Span : Type 0 where
  pub digit : ℕ
  pub visible : Bool

pub record Counter (n : Number) : Type 0 where
  pub poller : Option ℕ
  pub animator : Option ℕ
  pub delta : n.F
  pub current_num : n.F
  pub last_num : ℕ
  pub interval : ℕ
  pub removed : Bool

pub record World (n : Number) : Type 0 where
  pub counter : Counter n
  pub polls : List ℕ
  pub frames : List ℕ
  pub next_timer : ℕ
  pub in_flight : ℕ
  pub spans : List Span
  pub banner : Banner

-- The answer to `/counter`: the message counts of its entries, and its message.
pub record Stats : Type 0 where
  pub message_counts : List ℕ
  pub message : Text

abbrev pub target_poll_interval : ℕ
target_poll_interval = 10000

-- `text` in the digits' elements: those there are reused, more are appended, and the rest hidden.
unfoldable pub write_text : Text → List Span → List Span
write_text [] [] = []
write_text [] (x ∷ xs) = record x { visible = false } ∷ write_text [] xs
write_text (c ∷ s) [] = record { digit = c; visible = true } ∷ write_text s []
write_text (c ∷ s) (x ∷ xs) = record { digit = c; visible = true } ∷ write_text s xs

-- `clearTimeout`
unfoldable pub erase : ℕ → List ℕ → List ℕ
erase id = keep (λ x. not (x == id))

unfoldable pub next_interval : ℕ → ℕ
next_interval i = if ltb i target_poll_interval then i + 1000 else i

unfoldable pub show_message : Text → Banner → Banner
show_message [] b = record b { warning_shown = false; error_shown = false }
show_message (c ∷ s) b = record b {
  warning_shown = true;
  error_shown = false;
  warning_text = c ∷ s;
}

module _ {n : Number} where
  unfoldable pub clear_timeout : Option ℕ → World n → World n
  unfolding erase
  clear_timeout none w = w
  clear_timeout (some id) w = record w { polls = erase id w.polls; frames = erase id w.frames }

  unfoldable pub write_counts : n.F → World n → World n
  unfolding write_text
  write_counts c w = record w { spans = write_text (show (n.floor c)) w.spans }

  unfoldable pub start_loop : ℕ → World n → World n
  start_loop i w = record w {
    counter = record w.counter { interval = i; poller = some w.next_timer };
    polls = w.next_timer ∷ w.polls;
    next_timer = suc w.next_timer;
  }

  -- `updateStats` up to its answer
  unfoldable pub update_stats : World n → World n
  update_stats w = record w { in_flight = suc w.in_flight }

  unfoldable pub display_frame : World n → World n
  unfolding write_counts
  display_frame w =
      let c = w.counter in
      let next = n.least (n.add c.current_num c.delta) (n.of_nat c.last_num) in
      let drawn = write_counts next (record w { counter = record c { current_num = next } }) in
      if n.less next (n.of_nat c.last_num)
      then record drawn {
        counter = record c { current_num = next; animator = some w.next_timer };
        frames = w.next_timer ∷ w.frames;
        next_timer = suc w.next_timer;
      }
      else record drawn { counter = record c { current_num = next; animator = none } }

  unfoldable pub start : World n → World n
  unfolding update_stats
  start w = update_stats (record w {
    counter = record w.counter {
      poller = none;
      animator = none;
      delta = n.of_nat 0;
      current_num = n.minus_one;
      last_num = 0;
      interval = 100;
    };
  })

  -- The first answer seeds the display; a larger count sets the animation's step.
  unfoldable pub take_count : ℕ → World n → World n
  unfolding write_counts display_frame
  take_count num w =
      let c = w.counter in
      let seeded =
        write_counts (n.of_nat num)
          (record w { counter = record c { current_num = n.of_nat num; last_num = num } }) in
      let step =
        n.div (n.div (n.of_nat (num - c.last_num)) (n.div (n.of_nat c.interval) (n.of_nat 1000)))
          (n.of_nat 50) in
      let grown = record w { counter = record c { delta = step; last_num = num } } in
      let animated : World n = elim c.animator [ none ↦ display_frame grown | some id ↦ grown ] in
      if n.same c.current_num n.minus_one
      then seeded
      else if ltb c.last_num num
      then animated
      else w

  abbrev answered : World n → World n
  answered w = record w { in_flight = w.in_flight - 1 }

  unfoldable pub stats_done : Underscore → Stats → World n → World n
  stats_done u stats w =
      let num = u.reduce stats.message_counts (λ (sum v : ℕ). sum + v) 0 in
      let taken = take_count num (answered w) in
      let looped = start_loop (next_interval taken.counter.interval) taken in
      if w.counter.removed
      then answered w
      else record looped { banner = show_message stats.message w.banner }

  unfoldable pub stats_fail : (Text → Parsed) → JqXhr → World n → World n
  stats_fail parse xhr w =
      let stopped = clear_timeout w.counter.animator (answered w) in
      let looped =
        start_loop 10000
          (record stopped { counter = record stopped.counter { animator = none } }) in
      if w.counter.removed
      then answered w
      else record looped { banner = handle_ajax_error parse xhr w.banner }

  -- The listener on `change:graph_interval`; drawing the view changes nothing of this state but the
  -- elements of the digits, which the template does not hold.
  unfoldable pub interval_changed : World n → World n
  interval_changed w =
      let stopped = clear_timeout w.counter.animator (clear_timeout w.counter.poller w) in
      start (record stopped { spans = [] })

  unfoldable pub remove_counter : World n → World n
  remove_counter w =
      let stopped = clear_timeout w.counter.animator (clear_timeout w.counter.poller w) in
      record stopped { counter = record stopped.counter { removed = true } }

  unfoldable pub poll_fires : ℕ → World n → World n
  poll_fires id w = update_stats (record w { polls = erase id w.polls })

  unfoldable pub frame_fires : ℕ → World n → World n
  frame_fires id w = display_frame (record w { frames = erase id w.frames })
