-- ===== src/Views/Tests.antt =====
-- The views in concrete runs.
use mathlib.Core.List.{reverse}
use xmq.Base.{◌≡◌, refl, true, false, none, some, List, map, [], ◌∷◌}
use xmq.Js.Text.{lit}
use xmq.Vendor.{plain_underscore, plain_events}
use xmq.Samples.{sample_app, unreadable, refused}
use xmq.Router.{Call, topics_call, topic_call, counter_call, trigger, topics_show, counter_show}
use xmq.Views.Base.{
  View, Attrs, view, nil, cons, fields, subviews, new_view, no_source, collection, json, word,
  words, no_attrs, spinner, counter_page, topics_page, header_bar, app_shell, remove,
  get_render_ctx, rendered, failed, parse_error_message,
}
use xmq.Views.Base.Removal.{ids, remove_lem}
use xmq.AppState.{Session}
use xmq.Views.Header.{graph_intervals, on_graph_interval_click}
use xmq.Views.Header.Menu.{choose_lem}
use xmq.Views.App.{initial, run}
use xmq.Views.App.Page.{live, page_of, run-refines}
use xmq.Views.App.Shown.{listing, run_live}
use xmq.Views.Page.{Answer, topics, fetch_done, fetch_fail, interval_change}
use xmq.Views.Page.Lifecycle.{fetch_done_lem, fail_then_spinner}

abbrev session : Session
session = record { app = sample_app; stored = none }

abbrev tree : View
tree =
    view (fields (new_view 0 app_shell no_source))
      (cons (new_view 1 header_bar no_source) (cons (new_view 2 spinner no_source) nil))

remove_lem_example :
    ((remove tree).1 ≡ reverse (ids tree))
    × ((fields (remove tree).0).removed ≡ true)
    × (subviews (remove tree).0 ≡ nil)
remove_lem_example = remove_lem tree

run_live_example :
    listing (
      subviews
        (run plain_underscore sample_app
          (topics_show ∷ (counter_show ∷ []))
          (initial plain_underscore sample_app)).shell)
    ≡ (header_bar, false) ∷ ((spinner, true) ∷ ((counter_page, false) ∷ []))
run_live_example = run_live plain_underscore sample_app (topics_show ∷ []) counter_show

abbrev fresh : View
fresh = new_view 2 spinner (collection (json (lit "[]")))

abbrev reply : Answer
reply = record {
  source = collection (json (lit "[]"));
  message = word (lit "W");
  topics = json (lit "{}");
}

fetch_done_lem_example :
    (ctx : Attrs) × ((fields
        (fetch_done plain_underscore sample_app topics reply fresh).page).content
      ≡ rendered topics_page ctx)
    × (ctx (lit "message") ≡ some (word (lit "W")))
    × ((fetch_done plain_underscore sample_app topics reply fresh).ready ≡ lit "view:ready" ∷ [])
unfolding new_view
fetch_done_lem_example =
    fetch_done_lem plain_underscore sample_app topics reply fresh
      (record { kept = refl; again = refl })

fail_then_spinner_example :
    ((fields (fetch_fail plain_underscore sample_app unreadable refused fresh).page).content
      ≡ failed (parse_error_message unreadable refused))
    × ((fields
          (interval_change plain_underscore sample_app no_attrs topics
            (fetch_fail plain_underscore sample_app unreadable refused fresh).page).page).content
        ≡ rendered spinner
            (get_render_ctx plain_underscore sample_app (fields fresh).source (some no_attrs)))
    × ((interval_change plain_underscore sample_app no_attrs topics
          (fetch_fail plain_underscore sample_app unreadable refused fresh).page).ready
        ≡ [])
unfolding new_view
fail_then_spinner_example =
    fail_then_spinner plain_underscore sample_app unreadable refused no_attrs topics fresh
      (record { kept = refl; again = refl }) refl refl

-- The menu's title is an item of the menu, too.
choose_lem_example :
    (ctx : Attrs) × ((on_graph_interval_click plain_underscore plain_events no_attrs
        (lit "Graph Timeframe")
        (session, new_view 1 header_bar no_source)).0.app.graph_interval
      ≡ lit "Graph Timeframe")
    × ((on_graph_interval_click plain_underscore plain_events no_attrs
          (lit "Graph Timeframe")
          (session, new_view 1 header_bar no_source)).0.stored
        ≡ some (lit "Graph Timeframe"))
    × ((fields
          (on_graph_interval_click plain_underscore plain_events no_attrs
            (lit "Graph Timeframe")
            (session, new_view 1 header_bar no_source)).1).content
        ≡ rendered header_bar ctx)
    × (ctx (lit "graph_interval") ≡ some (word (lit "Graph Timeframe")))
    × (ctx (lit "graph_intervals") ≡ some (words graph_intervals))
unfolding new_view
choose_lem_example =
    choose_lem plain_underscore plain_events no_attrs (lit "Graph Timeframe") session
      (new_view 1 header_bar no_source) (record { kept = refl; again = refl }) (λ e. cc)

abbrev visits : List Call
visits = topics_call ∷ topic_call (some (lit "orders")) none ∷ counter_call ∷ []

run-refines_example :
    live (
      subviews
        (run plain_underscore sample_app
          (map trigger visits)
          (initial plain_underscore sample_app)).shell)
    ≡ page_of plain_underscore sample_app (some counter_show)
unfolding trigger
run-refines_example = run-refines plain_underscore sample_app visits
