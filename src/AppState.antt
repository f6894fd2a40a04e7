-- ===== src/AppState.antt =====
-- xmqadmin/static/js/app_state.js: the page's settings, the graph interval and where it is kept,
-- and the paths of pages and of the API.
pub mod Paths
pub mod Interval
mod Tests
use xmq.Base.{
  ℕ, Bool, true, false, Option, none, some, List, [], ◌∷◌, ◌++◌, ◌==◌, if◌then◌else◌, drop,
}
use xmq.Js.Text.{Text, lit, ◌===◌, split}
use xmq.Vendor.{Underscore, ModelEvents}

-- The globals that the page's template sets.
pub record Globals : Type 0 where
  pub version : Text
  pub graphite_url : Text
  pub graph_enabled : Bool
  pub statsd_interval : ℕ
  pub statsd_counter_format : Text
  pub statsd_gauge_format : Text
  pub statsd_prefix : Text
  pub xmqlookupd : List Text
  pub is_admin : Bool
  pub base_path : Text

pub record AppState : Type 0 where
  pub globals : Globals
  pub graph_interval : Text

-- The model, and what `localStorage` holds under `graph_interval`.
pub record Session : Type 0 where
  pub app : AppState
  pub stored : Option Text

abbrev pub defaults : Globals → AppState
defaults g = record { globals = g; graph_interval = lit "2h" }

-- `a || b` on a text that may be missing: an empty text counts as missing.
abbrev pub or_else : Option Text → Text → Text
or_else none d = d
or_else (some []) d = d
or_else (some (c ∷ s)) d = c ∷ s

-- `AppState.set('graph_interval', v)`, with the listener that writes to `localStorage`.
unfoldable pub set_graph_interval : ModelEvents → Text → Session → Session
set_graph_interval events v s =
    let app = record s.app { graph_interval = v } in
    if events.changes s.app.graph_interval v
    then record { app = app; stored = some v }
    else record s { app = app }

pub query_item : Text → Option (List Text)
query_item [] = none
query_item (c ∷ s) = some (split b'=' (c ∷ s))

-- `window.location.search`, read at a key
pub query_param : Underscore → Text → Text → Option Text
unfolding query_item
query_param u search = u.object (u.compact (u.each (split b'&' (drop 1 search)) query_item))

unfoldable pub initialize : ModelEvents → Underscore → Globals → Text → Option Text → Session
unfolding query_param set_graph_interval
initialize events u g search stored =
    let def = if g.graph_enabled then lit "2h" else lit "off" in
    let interval = or_else (query_param u search (lit "t")) (or_else stored def) in
    set_graph_interval events interval (record { app = defaults g; stored = stored })

-- `s.replace(/\/$/, '')`
strip_slash : Text → Text
strip_slash [] = []
strip_slash (c ∷ []) = if c == b'/' then [] else c ∷ []
strip_slash (c ∷ (d ∷ s)) = c ∷ strip_slash (d ∷ s)

-- The base path before a page's path; "/" is no prefix.
abbrev pub prefix_of : Globals → Text
prefix_of g = if g.base_path === lit "/" then [] else g.base_path

unfoldable pub base_path : Globals → Text → Text
unfolding strip_slash
base_path g p = or_else (some (strip_slash (prefix_of g ++ p))) (lit "/")

unfoldable pub api_path : Globals → Text → Text
unfolding base_path
api_path g p = base_path g (lit "/api" ++ p)
