-- ===== src/Helpers/Graph/Queries.antt =====
-- How the large graph and the sparkline of one metric differ.
use xmq.Base.{◌≡◌, ◌≢◌, refl, ◌∙◌, ap, Option, none, some, ◌++◌, map}
use mathlib.Core.Path.{fun_ext}
use xmq.Js.Text.{Text, lit}
use xmq.Js.Number.{Number}
use xmq.Vendor.{Underscore}
use xmq.AppState.{AppState}
use xmq.Helpers.Graphite.{Metric, counter, gauge, metric_type, Graph, gen_targets}
use xmq.Helpers.Graph.{
  summarize, scale_counter, interval_text, sparkline_targets, large_graph_targets,
}

scale_counter_plain :
    (n : Number) (app : AppState) (m : Option Metric) (t : Text)
    → m ≢ some counter
    → scale_counter n app m t ≡ t
unfolding scale_counter
scale_counter_plain n app none t h = refl
scale_counter_plain n app (some gauge) t h = refl
scale_counter_plain n app (some counter) t h = absurd (h refl)

scale_counter_lem :
    (n : Number) (app : AppState) (m : Option Metric) (t : Text)
    → m ≡ some counter
    → scale_counter n app m t
      ≡ lit "scale("
        ++ (t
            ++ (lit ","
                ++ (n.to_text (n.div (n.of_nat 1) (n.of_nat app.globals.statsd_interval))
                    ++ lit ")")))
unfolding scale_counter
scale_counter_lem n app m t h = rw h

module _ (n : Number) (u : Underscore) (app : AppState) (graph : Graph n) (node key : Text) where
  -- The large graph of a metric that is no counter asks for the targets of its sparkline.
  pub large_graph_targets-eq-sparkline :
      metric_type key ≢ some counter
      → large_graph_targets n u app graph node key ≡ sparkline_targets n u app graph node key
  unfolding large_graph_targets sparkline_targets
  large_graph_targets-eq-sparkline h = ap (u.each (gen_targets n u app.globals graph node key)) (
      fun_ext (λ t.
        ap (summarize (interval_text n u app)) (scale_counter_plain n app (metric_type key) t h)))

  -- Of a counter, it asks for the same targets, each scaled by one over the statsd interval.
  pub large_graph_targets_scaled :
      metric_type key ≡ some counter
      → large_graph_targets n u app graph node key
        ≡ map
            (λ t. summarize (interval_text n u app) (
              lit "scale("
              ++ (t
                  ++ (lit ","
                      ++ (n.to_text (n.div (n.of_nat 1) (n.of_nat app.globals.statsd_interval))
                          ++ lit ")")))))
            (gen_targets n u app.globals graph node key)
  unfolding large_graph_targets
  large_graph_targets_scaled h =
      u.each_lem _ _
      ∙ ap (λ f. map f (gen_targets n u app.globals graph node key))
          (fun_ext (λ t.
            ap (summarize (interval_text n u app)) (scale_counter_lem n app (metric_type key) t h)))
