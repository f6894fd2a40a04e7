-- ===== src/Views/Header/Menu.antt =====
-- The header after a click on its menu.
use xmq.Base.{◌≡◌, ◌≢◌, ◌∙◌, ap, Option, some}
use xmq.Js.Text.{Text, lit, ◌===◌}
use xmq.Vendor.{Underscore, ModelEvents}
use xmq.AppState.{AppState, Session, set_graph_interval}
use xmq.AppState.Interval.{set_interval, set_stored}
use xmq.Views.Base.{View, view, fields, Attrs, Source, word, words, rendered, object}
use xmq.Views.Base.Rendering.{IsLive, content-draw}
use xmq.Views.Header.{graph_intervals, header_ctx, header_render, on_graph_interval_click}

header_ctx_interval :
    (u : Underscore) (app : AppState) (from : Source) (d : Option Attrs)
    → header_ctx u app from d (lit "graph_interval") ≡ some (word app.graph_interval)
unfolding header_ctx object ◌===◌
header_ctx_interval u app from d = u.extend_lem _ _ (lit "graph_interval")

header_ctx_intervals :
    (u : Underscore) (app : AppState) (from : Source) (d : Option Attrs)
    → header_ctx u app from d (lit "graph_intervals") ≡ some (words graph_intervals)
unfolding header_ctx object ◌===◌
header_ctx_intervals u app from d = u.extend_lem _ _ (lit "graph_intervals")

-- A click on an item with any text that is not the current interval makes that text the interval of
-- the settings, stores it, and draws the live header again with it.
pub choose_lem :
    (u : Underscore) (events : ModelEvents) (settings : Attrs) (text : Text) (s : Session)
    (v : View)
    → IsLive v
    → s.app.graph_interval ≢ text
    → (ctx : Attrs) × ((on_graph_interval_click u events settings text (s, v)).0.app.graph_interval
        ≡ text)
      × ((on_graph_interval_click u events settings text (s, v)).0.stored ≡ some text)
      × ((fields (on_graph_interval_click u events settings text (s, v)).1).content
          ≡ rendered (fields v).template ctx)
      × (ctx (lit "graph_interval") ≡ some (word text))
      × (ctx (lit "graph_intervals") ≡ some (words graph_intervals))
unfolding on_graph_interval_click header_render
choose_lem u events settings text s (view f vs) live new =
    let app = (set_graph_interval events text s).app in
    (
      header_ctx u app f.source (some settings),
      set_interval events text s,
      set_stored events text s new,
      rw ((events.changes_iff s.app.graph_interval text).1 new) (content-draw _ (view f vs) live),
      header_ctx_interval u app f.source (some settings)
          ∙ ap (λ x. some (word x)) (set_interval events text s),
      header_ctx_intervals u app f.source (some settings),
    )
