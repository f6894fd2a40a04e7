-- ===== src/Helpers/Graphite.antt =====
-- xmqadmin/static/js/lib/handlebars_helpers.js: the keys and targets of Graphite graphs.
pub mod Keys
pub mod Prefix
pub mod Targets
use xmq.Base.{
  ℕ, ◌*◌, Bool, true, false, ◌&&◌, ◌||◌, Option, none, some, List, [], ◌∷◌, ◌++◌, map, leb, ◌==◌,
  if◌then◌else◌, keep, length,
}
use xmq.Js.Text.{Text, lit, ◌===◌, substring}
use xmq.Js.Text.Replace.{replace_format}
use xmq.Js.Number.{Number}
use xmq.Vendor.{Underscore}
use xmq.AppState.{Globals}

pub data Metric : Type 0 where
  counter gauge : Metric

abbrev metric_table : List (Text × Metric)
metric_table =
    (lit "depth", gauge)
    ∷ (lit "in_flight_count", gauge)
    ∷ (lit "deferred_count", gauge)
    ∷ (lit "requeue_count", counter)
    ∷ (lit "timeout_count", counter)
    ∷ (lit "message_count", counter)
    ∷ (lit "clients", gauge)
    ∷ (lit "*_bytes", gauge)
    ∷ (lit "gc_pause_*", gauge)
    ∷ (lit "gc_runs", counter)
    ∷ (lit "heap_objects", gauge)
    ∷ (lit "e2e_processing_latency", gauge)
    ∷ []

find_metric : Text → List (Text × Metric) → Option Metric
find_metric key [] = none
find_metric key ((k, m) ∷ table) = if key === k then some m else find_metric key table

-- `metricType(key)`; `none` is undefined. A name that every object inherits gives a function in the
-- source, which its callers treat like undefined.
unfoldable pub metric_type : Text → Option Metric
unfolding ◌===◌ find_metric
metric_type key = find_metric key metric_table

unfoldable pub format_statsd_key : Globals → Option Metric → Text → Text
format_statsd_key g none key = key
format_statsd_key g (some counter) key = replace_format g.statsd_counter_format key
format_statsd_key g (some gauge) key = replace_format g.statsd_gauge_format key

-- `host.replace(/[\.:]/g, '_')`
unfoldable pub host_char : ℕ → ℕ
host_char c = if (c == b'.') || (c == b':') then b'_' else c

unfoldable pub host_key : Text → Text
unfolding host_char
host_key host = map host_char host

-- The prefix with the host's key in it, before the test for the dot.
unfoldable pub host_prefix : Globals → Text → Text
unfolding host_key
host_prefix g host = replace_format g.statsd_prefix (host_key host)

unfoldable pub statsd_prefix : Globals → Text → Text
unfolding host_prefix
statsd_prefix g host =
    let prefix = host_prefix g host in
    if substring prefix (length prefix) 1 === lit "." then prefix else prefix ++ lit "."

-- `s.replaceAll(' ', '_').replaceAll('/', '-').replaceAll(/[^a-zA-Z0-9-_.]/g, '')`
space_char : ℕ → ℕ
space_char c = if c == b' ' then b'_' else c

slash_char : ℕ → ℕ
slash_char c = if c == b'/' then b'-' else c

unfoldable pub is_key_char : ℕ → Bool
is_key_char c =
    (leb b'a' c && leb c b'z')
    || ((leb b'A' c && leb c b'Z')
        || ((leb b'0' c && leb c b'9') || ((c == b'-') || ((c == b'_') || (c == b'.')))))

unfoldable pub sanitize_graphite_key : Text → Text
unfolding space_char slash_char is_key_char
sanitize_graphite_key s = keep is_key_char (map slash_char (map space_char s))

-- The percentile entries and names of `e2e_processing_latency`.
pub record Latency (n : Number) : Type 0 where
  pub topic : Text
  pub channel : Text
  pub quantiles : List n.F

-- The type of a graph, with `ns1` and `ns2` as that type reads them.
pub data Graph (n : Number) : Type 0 where
  of_topic : Text → Graph n
  of_channel : Text → Text → Graph n
  of_node : Graph n
  of_e2e : Latency n → Graph n
  of_counters : Graph n
  of_other : Graph n

unfoldable pub color_list : {n : Number} → Graph n → Text → Text
color_list (of_topic _) key =
    if (key === lit "depth") || (key === lit "deferred_count") then lit "red" else lit "blue"
color_list (of_channel _ _) key =
    if (key === lit "depth") || (key === lit "deferred_count") then lit "red" else lit "blue"
color_list of_node key = lit "red,green,blue,purple"
color_list (of_e2e _) key = lit "blue"
color_list of_counters key = lit "green"
color_list of_other key = lit "blue"

-- `node ? node : '*'`
unfoldable pub host_of : Text → Text
host_of [] = lit "*"
host_of (c ∷ s) = c ∷ s

-- `(p['quantile'] * 100)` in a text
percent_text : (n : Number) → n.F → Text
percent_text n q = n.to_text (n.mul q (n.of_nat 100))

latency_target : (n : Number) → Globals → Text → Latency n → Text → n.F → Text
unfolding percent_text ◌===◌ format_statsd_key metric_type
latency_target n g node l key q =
    let prefix = statsd_prefix g (host_of node) in
    let tail = key ++ (lit "_" ++ percent_text n q) in
    let t =
      if l.channel === []
      then prefix ++ (lit "topic." ++ (l.topic ++ (lit "." ++ tail)))
      else prefix
        ++ (lit "topic." ++ (l.topic ++ (lit ".channel." ++ (l.channel ++ (lit "." ++ tail))))) in
    let u = if node === lit "*" then lit "averageSeries(" ++ (t ++ lit ")") else t in
    lit "scale(" ++ (format_statsd_key g (metric_type key) u ++ lit ",0.000001)")

sum_series : Text → Text
sum_series t = lit "sumSeries(" ++ (t ++ lit ")")

unfoldable pub gen_targets : (n : Number) → Underscore → Globals → Graph n → Text → Text → List Text
unfolding format_statsd_key metric_type statsd_prefix sanitize_graphite_key host_of latency_target
    sum_series
gen_targets n u g (of_topic ns1) node key =
    let prefix = statsd_prefix g (host_of node) in
    sum_series (
      format_statsd_key g (metric_type key)
        (prefix ++ (lit "topic." ++ (sanitize_graphite_key ns1 ++ (lit "." ++ key)))))
    ∷ []
gen_targets n u g (of_channel ns1 ns2) node key =
    let prefix = statsd_prefix g (host_of node) in
    sum_series (
      format_statsd_key g (metric_type key) (
        prefix
        ++ (lit "topic."
            ++ (sanitize_graphite_key ns1
                ++ (lit ".channel." ++ (sanitize_graphite_key ns2 ++ (lit "." ++ key)))))))
    ∷ []
gen_targets n u g of_node node key =
    let target = statsd_prefix g (host_of node) ++ (lit "mem." ++ key) in
    let averaged =
      if key === lit "gc_runs" then lit "movingAverage(" ++ (target ++ lit ",45)") else target in
    format_statsd_key g (metric_type key) averaged ∷ []
gen_targets n u g (of_e2e l) node key = u.each l.quantiles (latency_target n g node l key)
gen_targets n u g of_counters node key =
    let prefix = statsd_prefix g (host_of node) in
    sum_series (format_statsd_key g (metric_type key) (prefix ++ (lit "topic.*.channel.*." ++ key)))
    ∷ []
gen_targets n u g of_other node key = []

-- The `rate` helper; `none` is undefined.
unfoldable pub rate : (n : Number) → Underscore → Globals → Graph n → Text → Option Text
unfolding gen_targets
rate n u g graph node = elim (gen_targets n u g graph node (lit "message_count")) [
  | [] ↦ none
  | t ∷ _ ↦ some t
]
