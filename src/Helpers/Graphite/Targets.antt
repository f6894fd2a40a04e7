-- ===== src/Helpers/Graphite/Targets.antt =====
-- The targets of a graph, from the configured format and the names of topic and channel.
use xmq.Base.{
  ℕ, ◌≡◌, ◌≢◌, refl, some, List, [], ◌∷◌, ◌++◌, length, arith, sym, subst, All, All-append,
  length-map, Bool-cases, inl, inr,
}
use xmq.Js.Text.{Text, lit, ◌===◌, ===_iff, join}
use xmq.Js.Text.Split.{Lacks}
use xmq.Js.Text.Replace.{replace_format-join}
use xmq.Js.Number.{Number}
use xmq.Vendor.{Underscore}
use xmq.AppState.{Globals}
use xmq.Helpers.Graphite.{
  Metric, counter, gauge, metric_type, metric_table, find_metric, format_statsd_key, statsd_prefix,
  host_of, gen_targets, sanitize_graphite_key, Graph, of_topic, of_channel, of_e2e, of_other,
}
use xmq.Helpers.Graphite.Keys.{sanitize-Lacks_dollar}

-- The configured format of a metric's type.
abbrev pub format_of : Globals → Metric → Text
format_of g counter = g.statsd_counter_format
format_of g gauge = g.statsd_gauge_format

find-Lacks_dollar :
    (key : Text) (table : List (Text × Metric)) (m : Metric)
    → All (λ e. Lacks b'$' e.0) table
    → find_metric key table ≡ some m
    → Lacks b'$' key
unfolding find_metric
find-Lacks_dollar key [] m h e = cc
find-Lacks_dollar key ((k, w) ∷ table) m (h, hs) e = elim (Bool-cases (key === k)) [
  | inl same ↦ subst (Lacks b'$') (sym ((===_iff key k).0 same)) h
  | inr other ↦ find-Lacks_dollar key table m hs (rw other at e)
]

-- A key with a metric type holds no `$`.
key-Lacks_dollar : (key : Text) (m : Metric) → metric_type key ≡ some m → Lacks b'$' key
unfolding metric_type
key-Lacks_dollar key m e = find-Lacks_dollar key metric_table m (omega arith) e

format_statsd_key-join :
    (g : Globals) (m : Metric) (key : Text) (ps : List Text)
    → format_of g m ≡ join (lit "%s") ps
    → All (Lacks b'%') ps
    → Lacks b'$' key
    → format_statsd_key g (some m) key ≡ join key ps
unfolding format_statsd_key
format_statsd_key-join g counter key ps e h k = rw e (replace_format-join key ps k h)
format_statsd_key-join g gauge key ps e h k = rw e (replace_format-join key ps k h)

-- The Graphite path of a topic's or a channel's metric.
abbrev pub topic_key : Globals → Text → Text → Text → Text
topic_key g node key t =
    statsd_prefix g (host_of node)
    ++ (lit "topic." ++ (sanitize_graphite_key t ++ (lit "." ++ key)))

abbrev pub channel_key : Globals → Text → Text → Text → Text → Text
channel_key g node key t c =
    statsd_prefix g (host_of node)
    ++ (lit "topic."
        ++ (sanitize_graphite_key t
            ++ (lit ".channel." ++ (sanitize_graphite_key c ++ (lit "." ++ key)))))

dotted : (s t : Text) → Lacks b'$' s → Lacks b'$' t → Lacks b'$' (s ++ t)
dotted s t h k = All-append (λ c. c ≢ b'$') s t h k

module _ (n : Number) (u : Underscore) (g : Globals) (m : Metric) (node key : Text) (ps : List Text)
    (typed : metric_type key ≡ some m) (format : format_of g m ≡ join (lit "%s") ps)
    (pieces : All (Lacks b'%') ps) (prefix : Lacks b'$' (statsd_prefix g (host_of node))) where
  rest_plain : Lacks b'$' (lit "." ++ key)
  rest_plain = dotted (lit ".") key (omega arith) (key-Lacks_dollar key m typed)

  named :
      (w t r : Text)
      → Lacks b'$' w
      → Lacks b'$' r
      → Lacks b'$' (w ++ (sanitize_graphite_key t ++ r))
  named w t r h k = dotted w _ h (dotted (sanitize_graphite_key t) r (sanitize-Lacks_dollar t) k)

  -- For a metric with a format that has no "%" but its "%s", and a host's prefix with no "$": whatever
  -- the topic is called, its graph has one target, the sum of the format with the prefix, the
  -- sanitized topic and the metric in each place of the format.
  pub gen_targets-topic :
      (t : Text)
      → gen_targets n u g (of_topic t) node key
        ≡ (lit "sumSeries(" ++ (join (topic_key g node key t) ps ++ lit ")")) ∷ []
  unfolding gen_targets
  gen_targets-topic t =
      let plain : Lacks b'$' (topic_key g node key t) =
        dotted _ _ prefix (named (lit "topic.") t _ (omega arith) rest_plain) in
      rw (typed, format_statsd_key-join g m (topic_key g node key t) ps format pieces plain)

  -- For a metric with a format that has no "%" but its "%s", and a host's prefix with no "$": whatever
  -- the topic and the channel are called, the channel's graph has one target, the sum of the format
  -- with the prefix, both sanitized names and the metric in each place of the format.
  pub gen_targets-channel :
      (t c : Text)
      → gen_targets n u g (of_channel t c) node key
        ≡ (lit "sumSeries(" ++ (join (channel_key g node key t c) ps ++ lit ")")) ∷ []
  unfolding gen_targets
  gen_targets-channel t c =
      let plain : Lacks b'$' (channel_key g node key t c) = dotted _ _ prefix (
        named (lit "topic.") t _ (omega arith)
          (named (lit ".channel.") c _ (omega arith) rest_plain)) in
      rw (typed, format_statsd_key-join g m (channel_key g node key t c) ps format pieces plain)

-- How many targets a graph asks for.
abbrev pub target_count : {n : Number} → Graph n → ℕ
target_count (of_e2e l) = length l.quantiles
target_count of_other = 0
target_count _ = 1

pub length-gen_targets :
    (n : Number) (u : Underscore) (g : Globals) (graph : Graph n) (node key : Text)
    → length (gen_targets n u g graph node key) ≡ target_count graph
unfolding gen_targets
length-gen_targets n u g (of_e2e l) node key = rw u.each_lem (length-map l.quantiles _)
length-gen_targets n u g (of_topic _) node key = refl
length-gen_targets n u g _ node key = refl
