-- ===== src/Views/Header.antt =====
-- xmqadmin/static/js/views/header.js: the header with the menu of graph intervals, and what a click on
-- the menu does to the settings and to the header itself.
pub mod Menu
use xmq.Base.{ℕ, Bool, true, false, Option, none, some, List, [], ◌∷◌, if◌then◌else◌}
use xmq.Js.Text.{Text, lit}
use xmq.Vendor.{Underscore, ModelEvents}
use xmq.AppState.{AppState, Session, set_graph_interval}
use xmq.Views.Base.{View, view, Attrs, Source, word, words, object, get_render_ctx, draw}

abbrev pub graph_intervals : List Text
graph_intervals =
    lit "1h" ∷ lit "2h" ∷ lit "12h" ∷ lit "24h" ∷ lit "48h" ∷ lit "168h" ∷ lit "off" ∷ []

-- The header's own `getRenderCtx`
unfoldable pub header_ctx : Underscore → AppState → Source → Option Attrs → Attrs
unfolding get_render_ctx object
header_ctx u app source data' = u.extend (get_render_ctx u app source data') (
    object (
      (lit "graph_intervals", words graph_intervals)
      ∷ (lit "graph_interval", word app.graph_interval)
      ∷ []))

unfoldable pub header_render : Underscore → AppState → Option Attrs → View → View × List ℕ
unfolding header_ctx draw
header_render u app data' (view f vs) = draw (header_ctx u app f.source data') (view f vs)

-- A click on an item with this text. `settings` is the settings' model, which Backbone hands to the
-- listener `render`, and which that takes for data.
unfoldable pub on_graph_interval_click :
    Underscore → ModelEvents → Attrs → Text → Session × View → Session × View
unfolding header_render set_graph_interval
on_graph_interval_click u events settings text (s, v) =
    let chosen = set_graph_interval events text s in
    let redrawn = (header_render u chosen.app (some settings) v).0 in
    (chosen, if events.changes s.app.graph_interval text then redrawn else v)
