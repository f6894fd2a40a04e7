-- ===== src/Views/Base.antt =====
-- xmqadmin/static/js/views/base.js: a view, its subviews, and what it shows. A view is a tree, since
-- only its parent holds a subview; `id` tells views apart. The calls of Backbone's own `remove` are
-- the list of ids that an operation returns, in their order.
pub mod Removal
pub mod Rendering
use xmq.Base.{
  ℕ, Bool, true, false, ◌&&◌, not, Option, none, some, List, [], ◌∷◌, ◌++◌, ◌==◌, if◌then◌else◌,
}
use xmq.Js.Text.{Text, lit, ◌===◌}
use xmq.Vendor.{Underscore}
use xmq.AppState.{AppState}

-- The values of a template's context.
pub data Attr : Type 0 where
  flag : Bool → Attr
  word : Text → Attr
  words : List Text → Attr
  json : Text → Attr

abbrev pub Attrs : Type 0
Attrs = Text → Option Attr

abbrev pub no_attrs : Attrs
no_attrs k = none

-- An object literal with its properties.
unfoldable pub object : List (Text × Attr) → Attrs
unfolding ◌===◌
object [] k = none
object ((j, v) ∷ ps) k = if k === j then some v else object ps k

pub data Template : Type 0 where
  spinner topics_page topic_page channel_page lookup_page nodes_page node_page : Template
  counter_page header_bar app_shell : Template

-- What a view's element holds: nothing, a template with its context, or the error template.
pub data Content : Type 0 where
  blank : Content
  rendered : Template → Attrs → Content
  failed : Option Text → Content

-- `model` or `collection`, as `toJSON` gives it.
pub data Source : Type 0 where
  no_source : Source
  model : Attrs → Source
  collection : Attr → Source

pub record Fields : Type 0 where
  pub id : ℕ
  pub template : Template
  pub source : Source
  pub render_once : Bool
  pub is_rendered : Bool
  pub removed : Bool
  pub content : Content

mutual
  pub data View : Type 0 where
    view : Fields → Views → View

  pub data Views : Type 0 where
    nil : Views
    cons : View → Views → Views

abbrev pub fields : View → Fields
fields (view f vs) = f

abbrev pub subviews : View → Views
subviews (view f vs) = vs

-- `initialize`, on a view of a template with its model or collection
unfoldable pub new_view : ℕ → Template → Source → View
new_view id template source =
    view
      (record {
        id = id;
        template = template;
        source = source;
        render_once = false;
        is_rendered = false;
        removed = false;
        content = blank;
      })
      nil

-- The calls of Backbone's `remove` that a view's `remove` makes: the subviews from the last to the
-- first, each with its own, and then the view.
unfoldable mutual
  pub remove_log : View → List ℕ
  remove_log (view f vs) = subviews_log vs ++ f.id ∷ []

  pub subviews_log : Views → List ℕ
  subviews_log nil = []
  subviews_log (cons v vs) = subviews_log vs ++ remove_log v

unfoldable pub remove_subviews : View → View × List ℕ
unfolding subviews_log
remove_subviews (view f vs) = (view f nil, subviews_log vs)

unfoldable pub remove : View → View × List ℕ
unfolding remove_subviews
remove (view f vs) =
    let (v, log) = remove_subviews (view (record f { removed = true }) vs) in (v, log ++ f.id ∷ [])

with_source : Underscore → Source → Attrs → Attrs
with_source u no_source ctx = ctx
with_source u (model m) ctx = u.extend ctx m
with_source u (collection c) ctx = u.extend ctx (object ((lit "collection", c) ∷ []))

with_data : Underscore → Option Attrs → Attrs → Attrs
with_data u none ctx = ctx
with_data u (some d) ctx = u.extend ctx d

graph_active : AppState → Bool
graph_active app = app.globals.graph_enabled && not (app.graph_interval === lit "off")

unfoldable pub get_render_ctx : Underscore → AppState → Source → Option Attrs → Attrs
unfolding with_source with_data graph_active object
get_render_ctx u app source data' = with_data u data' (
    with_source u source (
      object (
        (lit "graph_enabled", flag app.globals.graph_enabled)
        ∷ (lit "graph_interval", word app.graph_interval)
        ∷ (lit "graph_active", flag (graph_active app))
        ∷ (lit "xmqlookupd", words app.globals.xmqlookupd)
        ∷ (lit "version", word app.globals.version)
        ∷ [])))

-- `render` with the context that the view's `getRenderCtx` gives, and no `postRender`
unfoldable pub draw : Attrs → View → View × List ℕ
unfolding remove_subviews
draw ctx (view f vs) =
    let (_, log) = remove_subviews (view f vs) in
    let drawn =
      if f.removed
      then record f { is_rendered = true }
      else record f { is_rendered = true; content = rendered f.template ctx } in
    if f.render_once && f.is_rendered then (view f vs, []) else (view drawn nil, log)

-- `render` of a view with the `getRenderCtx` of this class
unfoldable pub render : Underscore → AppState → Option Attrs → View → View × List ℕ
unfolding get_render_ctx draw
render u app data' (view f vs) = draw (get_render_ctx u app f.source data') (view f vs)

-- A failed request, and what `JSON.parse` and the read of `message` make of its text.
pub record JqXhr : Type 0 where
  pub ready_state : ℕ
  pub response_text : Text

pub data Parsed : Type 0 where
  message : Option Text → Parsed
  throws : Text → Parsed

unfoldable pub parse_error_message : (Text → Parsed) → JqXhr → Option Text
parse_error_message parse xhr =
    if xhr.ready_state == 4
    then elim (parse xhr.response_text) [
      | message m ↦ m
      | throws e ↦ some (lit "ERROR: failed to decode JSON - " ++ e)
    ]
    else some (lit "ERROR: failed to connect to xmqadmin")

-- The `#warning` and `#error` boxes of the page.
pub record Banner : Type 0 where
  pub warning_shown : Bool
  pub warning_text : Text
  pub error_shown : Bool
  pub error_text : Option Text

-- `text(m)`, which writes nothing where there is no text to write
text_or_old : Option Text → Option Text → Option Text
text_or_old old none = old
text_or_old old (some m) = some m

unfoldable pub handle_ajax_error : (Text → Parsed) → JqXhr → Banner → Banner
unfolding parse_error_message text_or_old
handle_ajax_error parse xhr b = record b {
  warning_shown = false;
  error_shown = true;
  error_text = text_or_old b.error_text (parse_error_message parse xhr);
}

unfoldable pub handle_view_error : (Text → Parsed) → JqXhr → View → View × List ℕ
unfolding parse_error_message remove_subviews
handle_view_error parse xhr (view f vs) =
    let (v, log) =
      remove_subviews (view (record f { content = failed (parse_error_message parse xhr) }) vs) in
    (v, log)
