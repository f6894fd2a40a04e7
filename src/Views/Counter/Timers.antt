-- ===== src/Views/Counter/Timers.antt =====
-- The runs of the counter, and its timers and poll interval in them.
use xmq.Base.{
  ap, ◌∙◌, ◌⊎◌, ◌%◌, ℕ, ◌≤◌, ◌<◌, ◌≡◌, refl, Bool, true, false, Option, none, some, List, [], ◌∷◌,
  any, ◌==◌, arith,
}
use xmq.Js.Text.{Text}
use xmq.Js.Number.{Number}
use xmq.Vendor.{Underscore}
use xmq.Views.Base.{JqXhr, Parsed}
use xmq.Views.Counter.{
  World, Stats, clear_timeout, write_counts, start_loop, display_frame, take_count, next_interval,
  stats_done, stats_fail, interval_changed, remove_counter, poll_fires, frame_fires, erase,
}

module _ {n : Number} (u : Underscore) (parse : Text → Parsed) where
  -- What can happen: an answer, where a request waits for one; a timer that is due; a new graph
  -- interval, while the view listens; the view's removal.
  pub data Step (w : World n) : World n → Type 0 where
    answer : (stats : Stats) → 0 < w.in_flight → Step w (stats_done u stats w)
    failure : (xhr : JqXhr) → 0 < w.in_flight → Step w (stats_fail parse xhr w)
    poll : (id : ℕ) → any (λ x. x == id) w.polls ≡ true → Step w (poll_fires id w)
    frame : (id : ℕ) → any (λ x. x == id) w.frames ≡ true → Step w (frame_fires id w)
    new_interval : w.counter.removed ≡ false → Step w (interval_changed w)
    removal : w.counter.removed ≡ false → Step w (remove_counter w)

  pub data Reach (w : World n) : World n → Type 0 where
    here : Reach w w
    next : {v x : World n} → Reach w v → Step v x → Reach w x

-- At most one timer of the animator, and that is the one which the view knows.
abbrev pub OneFrame : List ℕ → Option ℕ → Type 0
OneFrame [] animator = Unit
OneFrame (id ∷ []) animator = animator ≡ some id
OneFrame (_ ∷ (_ ∷ _)) animator = ⊥

-- The poll intervals that the code sets: 100 and each thousand above it up to 10100, and 10000.
abbrev pub IsPaced : ℕ → Type 0
IsPaced i = (i ≡ 10000) ⊎ ((i % 1000 ≡ 100) × (i ≤ 10100))

-- A view that was removed has no animation.
abbrev pub IsQuiet : Bool → List ℕ → Type 0
IsQuiet true frames = frames ≡ []
IsQuiet false frames = Unit

pub record IsSteady {n : Number} (w : World n) : Type 0 where
  pub one_frame : OneFrame w.frames w.counter.animator
  pub paced : IsPaced w.counter.interval
  pub quiet : IsQuiet w.counter.removed w.frames

-- `clearTimeout` on the frames.
abbrev pub erase_of : Option ℕ → List ℕ → List ℕ
erase_of none fs = fs
erase_of (some id) fs = erase id fs

pub OneFrame-erase :
    (id : ℕ) (fs : List ℕ) (animator : Option ℕ)
    → OneFrame fs animator
    → OneFrame (erase id fs) animator
unfolding erase
OneFrame-erase id [] animator h = tt
OneFrame-erase id (x ∷ []) animator h = ground arith
OneFrame-erase id (x ∷ (y ∷ fs)) animator h = absurd h

-- Erasing the one frame that there is leaves none.
pub erase_one :
    (id : ℕ) (fs : List ℕ) (animator : Option ℕ)
    → OneFrame fs animator
    → any (λ x. x == id) fs ≡ true
    → erase id fs ≡ []
unfolding erase
erase_one id [] animator h e = refl
erase_one id (x ∷ []) animator h e = ground arith
erase_one id (x ∷ (y ∷ fs)) animator h e = absurd h

erase_animator : (id : ℕ) (fs : List ℕ) → OneFrame fs (some id) → erase id fs ≡ []
unfolding erase
erase_animator id [] h = refl
erase_animator id (x ∷ []) h = ground arith
erase_animator id (x ∷ (y ∷ fs)) h = absurd h

-- Clearing the animator's timer leaves no frame.
pub clear_animator :
    (fs : List ℕ) (animator : Option ℕ) → OneFrame fs animator → erase_of animator fs ≡ []
clear_animator [] none h = refl
clear_animator [] (some id) h = unfold erase in refl
clear_animator (x ∷ []) none h = cc
clear_animator (x ∷ []) (some id) h = erase_animator id (x ∷ []) h
clear_animator (x ∷ (y ∷ fs)) animator h = absurd h

OneFrame-clear : (t a : Option ℕ) (fs : List ℕ) → OneFrame fs a → OneFrame (erase_of t fs) a
OneFrame-clear none a fs h = h
OneFrame-clear (some id) a fs h = OneFrame-erase id fs a h

pub next_interval-IsPaced : (i : ℕ) → IsPaced i → IsPaced (next_interval i)
unfolding next_interval
next_interval-IsPaced i h = ground arith

module _ {n : Number} where
  pub frames-clear_timeout :
      (t : Option ℕ) (w : World n) → (clear_timeout t w).frames ≡ erase_of t w.frames
  unfolding clear_timeout
  frames-clear_timeout none w = refl
  frames-clear_timeout (some id) w = refl

  pub counter-clear_timeout : (t : Option ℕ) (w : World n) → (clear_timeout t w).counter ≡ w.counter
  unfolding clear_timeout
  counter-clear_timeout none w = refl
  counter-clear_timeout (some id) w = refl

  -- Both timers of the view cleared, no frame is left.
  pub frames-cleared :
      (w : World n)
      → IsSteady w
      → (clear_timeout w.counter.animator (clear_timeout w.counter.poller w)).frames ≡ []
  frames-cleared w h =
      frames-clear_timeout w.counter.animator _
      ∙ (ap (erase_of w.counter.animator) (frames-clear_timeout w.counter.poller w)
          ∙ clear_animator (erase_of w.counter.poller w.frames) w.counter.animator
              (OneFrame-clear w.counter.poller w.counter.animator w.frames h.one_frame))

  pub display_frame-IsSteady :
      (w : World n)
      → w.frames ≡ []
      → w.counter.removed ≡ false
      → IsPaced w.counter.interval
      → IsSteady (display_frame w)
  unfolding display_frame write_counts
  display_frame-IsSteady w none_left live paced = ground arith

  pub take_count-IsSteady :
      (num : ℕ) (w : World n) → IsSteady w → w.counter.removed ≡ false → IsSteady (take_count num w)
  unfolding take_count write_counts
  take_count-IsSteady num w h live =
      ground (
        arith,
        h.one_frame,
        h.paced,
        h.quiet,
        clear_animator w.frames w.counter.animator h.one_frame,
      )

  pub start_loop-IsSteady :
      (i : ℕ) (w : World n) → IsSteady w → IsPaced i → IsSteady (start_loop i w)
  unfolding start_loop
  start_loop-IsSteady i w h paced = record {
    one_frame = h.one_frame;
    paced = paced;
    quiet = h.quiet;
  }
