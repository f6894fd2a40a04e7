-- ===== src/Helpers/Graph.antt =====
-- xmqadmin/static/js/lib/handlebars_helpers.js: the addresses of graphs. `param` stands for jQuery's
-- `$.param`, which writes a query.
pub mod Queries
use xmq.Base.{ℕ, Option, none, some, List, [], ◌∷◌, ◌++◌, map, if◌then◌else◌}
use xmq.Js.Text.{Text, lit}
use xmq.Js.Decimal.{show}
use xmq.Js.Number.{Number}
use xmq.Vendor.{Underscore}
use xmq.AppState.{AppState}
use xmq.Helpers.Graphite.{Metric, counter, gauge, metric_type, Graph, color_list, gen_targets}

pub data Setting : Type 0 where
  one : Text → Setting
  many : List Text → Setting

abbrev pub Query : Type 0
Query = List (Text × Setting)

unfoldable pub summarize : Text → Text → Text
summarize interval t = lit "summarize(" ++ (t ++ (lit ",\"" ++ (interval ++ lit "\",\"avg\")")))

scale_counter : (n : Number) → AppState → Option Metric → Text → Text
scale_counter n app none t = t
scale_counter n app (some gauge) t = t
scale_counter n app (some counter) t =
    let scale = n.div (n.of_nat 1) (n.of_nat app.globals.statsd_interval) in
    lit "scale(" ++ (t ++ (lit "," ++ (n.to_text scale ++ lit ")")))

module _ (n : Number) (u : Underscore) (app : AppState) where
  unfoldable pub interval_text : Text
  interval_text = show app.globals.statsd_interval ++ lit "sec"

  unfoldable pub sparkline_targets : Graph n → Text → Text → List Text
  sparkline_targets graph node key =
      u.each (gen_targets n u app.globals graph node key) (summarize interval_text)

  unfoldable pub large_graph_targets : Graph n → Text → Text → List Text
  unfolding scale_counter
  large_graph_targets graph node key =
      u.each (gen_targets n u app.globals graph node key)
        (λ t. summarize interval_text (scale_counter n app (metric_type key) t))

  unfoldable pub sparkline_query : Graph n → Text → Text → Query
  sparkline_query graph node key =
      (lit "colorList", one (color_list graph key))
      ∷ (lit "height", one (lit "20"))
      ∷ (lit "width", one (lit "120"))
      ∷ (lit "hideGrid", one (lit "true"))
      ∷ (lit "hideLegend", one (lit "true"))
      ∷ (lit "hideAxes", one (lit "true"))
      ∷ (lit "bgcolor", one (lit "ff000000"))
      ∷ (lit "fgcolor", one (lit "black"))
      ∷ (lit "margin", one (lit "0"))
      ∷ (lit "yMin", one (lit "0"))
      ∷ (lit "lineMode", one (lit "connected"))
      ∷ (lit "drawNullAsZero", one (lit "false"))
      ∷ (lit "from", one (lit "-" ++ app.graph_interval))
      ∷ (lit "until", one (lit "-1min"))
      ∷ (lit "target", many (sparkline_targets graph node key))
      ∷ []

  unfoldable pub large_graph_query : Graph n → Text → Text → Query
  large_graph_query graph node key =
      (lit "colorList", one (color_list graph key))
      ∷ (lit "height", one (lit "450"))
      ∷ (lit "width", one (lit "800"))
      ∷ (lit "bgcolor", one (lit "ff000000"))
      ∷ (lit "fgcolor", one (lit "999999"))
      ∷ (lit "yMin", one (lit "0"))
      ∷ (lit "lineMode", one (lit "connected"))
      ∷ (lit "drawNullAsZero", one (lit "false"))
      ∷ (lit "from", one (lit "-" ++ app.graph_interval))
      ∷ (lit "until", one (lit "-1min"))
      ∷ (lit "target", many (large_graph_targets graph node key))
      ∷ []

  unfoldable pub sparkline : (Query → Text) → Graph n → Text → Text → Text
  sparkline param graph node key =
      app.globals.graphite_url ++ (lit "/render?" ++ param (sparkline_query graph node key))

  unfoldable pub large_graph : (Query → Text) → Graph n → Text → Text → Text
  large_graph param graph node key =
      app.globals.graphite_url ++ (lit "/render?" ++ param (large_graph_query graph node key))
