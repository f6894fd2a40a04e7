-- ===== src/Samples.antt =====
-- Test data: the settings of a page, and whole numbers in the place of the language's numbers.
use xmq.Base.{ℕ, suc, ◌-◌, ◌+◌, ◌*◌, ◌/◌, ◌^◌, min, true, false, [], ◌∷◌, ltb, ◌==◌}
use xmq.Js.Text.{Text, lit}
use xmq.Js.Decimal.{show}
use xmq.Js.Number.{Number}
use xmq.AppState.{Globals, AppState}
use xmq.Views.Base.{Banner, JqXhr, Parsed, message}
use xmq.Views.Counter.{World, Stats}
use mathlib.Core.Option.{none}

abbrev pub sample_globals : Globals
sample_globals = record {
  version = lit "1.3.0";
  graphite_url = lit "http://graphite";
  graph_enabled = true;
  statsd_interval = 60;
  statsd_counter_format = lit "stats.counters.%s.count";
  statsd_gauge_format = lit "stats.gauges.%s";
  statsd_prefix = lit "xmq.%s.";
  xmqlookupd = lit "127.0.0.1:4161" ∷ [];
  is_admin = true;
  base_path = lit "/xmq";
}

abbrev pub sample_app : AppState
sample_app = record { globals = sample_globals; graph_interval = lit "2h" }

abbrev pub whole_numbers : Number
whole_numbers = record {
  F = ℕ;
  of_nat = λ k. k;
  add = λ a b. a + b;
  mul = λ a b. a * b;
  div = λ a b. a / b;
  pow = λ a b. a ^ b;
  floor = λ a. a;
  nearest = λ a. a;
  least = λ a b. min a b;
  minus_one = 2 ^ 60;
  same = λ a b. a == b;
  less = λ a b. ltb a b;
  to_text = λ a. show a;
}

-- Whole numbers from minus one on: k stands for k - 1.
abbrev pub shifted_numbers : Number
shifted_numbers = record whole_numbers {
  of_nat = λ k. suc k;
  add = λ a b. a + b - 1;
  floor = λ a. a - 1;
  minus_one = 0;
}

abbrev pub no_banner : Banner
no_banner = record {
  warning_shown = false;
  warning_text = [];
  error_shown = false;
  error_text = none;
}

abbrev pub unreadable : Text → Parsed
unreadable s = message none

abbrev pub refused : JqXhr
refused = record { ready_state = 0; response_text = [] }

-- A counter whose request waits for its answer.
abbrev pub waiting : World whole_numbers
waiting = record {
  counter = record {
    poller = none;
    animator = none;
    delta = 0;
    current_num = 2 ^ 60;
    last_num = 0;
    interval = 100;
    removed = false;
  };
  polls = [];
  frames = [];
  next_timer = 1;
  in_flight = 1;
  spans = [];
  banner = no_banner;
}

abbrev pub hundred : Stats
hundred = record { message_counts = 60 ∷ 40 ∷ []; message = [] }
