-- ===== src/AppState/Tests.antt =====
-- The settings at a concrete page.
use xmq.Base.{◌≡◌, refl, none, []}
use xmq.Js.Text.{lit, split, ◌===◌}
use xmq.Vendor.{plain_underscore, plain_events}
use xmq.Samples.{sample_globals, sample_app}
use xmq.AppState.{Session, set_graph_interval, initialize, base_path, api_path, query_param}
use xmq.AppState.Interval.{initialize-set_graph_interval}

abbrev session : Session
session = record { app = sample_app; stored = none }

initialize-set_graph_interval_example :
    (initialize plain_events plain_underscore sample_globals []
      (set_graph_interval plain_events (lit "12h") session).stored).app.graph_interval
    ≡ lit "12h"
unfolding query_param split ◌===◌
initialize-set_graph_interval_example =
    initialize-set_graph_interval plain_events plain_underscore sample_globals [] (lit "12h")
      session (λ e. cc) (λ e. cc) refl

test_paths :
    (base_path sample_globals (lit "/") ≡ lit "/xmq")
    × (api_path sample_globals (lit "/topics") ≡ lit "/xmq/api/topics")
unfolding api_path ◌===◌
test_paths = (refl, refl)
