-- ===== src/Views/App.antt =====
-- xmqadmin/static/js/views/app.js: the page's shell, which shows one view at a time beside the
-- header. `currentView` is one of the subviews, named by its id.
pub mod Shown
pub mod Page
use xmq.Base.{
  ℕ, zero, suc, ◌+◌, Bool, true, false, not, Option, none, some, List, [], ◌∷◌, ◌++◌, ◌==◌,
  if◌then◌else◌,
}
use xmq.Js.Text.{Text, lit}
use xmq.Vendor.{Underscore}
use xmq.AppState.{AppState}
use xmq.Views.Header.{header_render}
use xmq.Router.{
  Event, topics_show, topic_show, channel_show, lookup_show, nodes_show, node_show, counter_show,
}
use xmq.Views.Base.{
  View, Views, view, nil, cons, fields, subviews, Attr, Attrs, Source, no_source, model, collection,
  flag, word, json, object, Template, spinner, counter_page, header_bar, app_shell, new_view,
  render, remove,
}

pub record App : Type 0 where
  pub shell : View
  pub current : Option ℕ
  pub next_id : ℕ

-- A topic's name is null where its part of the address is empty.
name_attr : Option Text → Attr
name_attr none = json (lit "null")
name_attr (some t) = word t

-- The view that the handler of an event makes: its first template, and its model or collection.
unfoldable pub view_of : AppState → Event → Template × Source
unfolding object name_attr
view_of app topics_show = (spinner, collection (json (lit "[]")))
view_of app (topic_show t) = (
  spinner,
  model (object ((lit "name", name_attr t) ∷ (lit "isAdmin", flag app.globals.is_admin) ∷ [])),
)
view_of app (channel_show t c) = (
  spinner,
  model (
      object (
        (lit "topic", name_attr t)
        ∷ (lit "name", word c)
        ∷ (lit "isAdmin", flag app.globals.is_admin)
        ∷ [])),
)
view_of app lookup_show = (spinner, no_source)
view_of app nodes_show = (spinner, collection (json (lit "[]")))
view_of app (node_show n) = (spinner, model (object ((lit "name", word n) ∷ [])))
view_of app counter_show = (counter_page, no_source)

-- The subviews, with the one of this id removed.
unfoldable pub remove_id : ℕ → Views → Views
remove_id c nil = nil
remove_id c (cons v vs) =
    let rest = remove_id c vs in if (fields v).id == c then cons (remove v).0 rest else cons v rest

unfoldable pub push : Views → View → Views
push nil v = cons v nil
push (cons w vs) v = cons w (push vs v)

unfoldable pub remove_current : Option ℕ → Views → Views
remove_current none vs = vs
remove_current (some c) vs = remove_id c vs

module _ (u : Underscore) (app : AppState) where
  -- `appendSubview`, of a page's view and of the header, each with its own `render`
  unfoldable pub append_subview : View → View → View
  append_subview v (view f vs) = view f (push vs (render u app none v).0)

  unfoldable pub append_header : View → View → View
  append_header v (view f vs) = view f (push vs (header_render u app none v).0)

  -- `showView`
  unfoldable pub show_view : Event → App → App
  unfolding append_subview remove_current view_of
  show_view e a =
      let (template, source) = view_of app e in
      let shell = view (fields a.shell) (remove_current a.current (subviews a.shell)) in
      record {
        shell = append_subview (new_view a.next_id template source) shell;
        current = some a.next_id;
        next_id = suc a.next_id;
      }

  -- `initialize`: the shell is drawn, and `postRender` appends the header
  unfoldable pub initial : App
  unfolding append_header
  initial = record {
    shell =
        append_header (new_view 1 header_bar no_source)
          (render u app none (new_view 0 app_shell no_source)).0;
    current = none;
    next_id = 2;
  }

  unfoldable pub run : List Event → App → App
  run [] a = a
  run (e ∷ es) a = run es (show_view e a)
