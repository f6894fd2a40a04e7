-- ===== src/Views/App/Page.antt =====
-- The shell as the page's visitor sees it: the header, and the view of the last event.
use xmq.Base.{
  ℕ, ◌≡◌, refl, ◌∙◌, ap, false, Option, none, some, List, [], ◌∷◌, ◌++◌, map, if◌then◌else◌, arith,
}
use xmq.Vendor.{Underscore}
use xmq.AppState.{AppState}
use xmq.Router.{Event, Call, trigger}
use xmq.Views.Base.{
  View, Views, nil, cons, fields, subviews, new_view, Content, rendered, draw, render,
  get_render_ctx, header_bar, no_source,
}
use xmq.Views.Header.{header_ctx, header_render}
use xmq.Views.App.{App, view_of, remove_id, push, show_view, initial, run, remove_current}
use xmq.Views.App.Shown.{Below, Below-push, Below-remove_current, removed-remove}

-- What the subviews that are not removed show.
abbrev pub live : Views → List Content
live nil = []
live (cons v vs) = if (fields v).removed then live vs else (fields v).content ∷ live vs

-- The page by its specification: the last event alone says which view there is.
abbrev pub last_event : Option Event → List Event → Option Event
last_event o [] = o
last_event o (e ∷ es) = last_event (some e) es

live-push :
    (vs : Views) (v : View)
    → (fields v).removed ≡ false
    → live (push vs v) ≡ live vs ++ ((fields v).content ∷ [])
unfolding push
live-push nil v h = rw h
live-push (cons w vs) v h = ground (arith, live-push vs v h)

live-remove_id :
    (c : ℕ) (vs : Views) (v : View)
    → Below c vs
    → (fields v).id ≡ c
    → live (remove_id c (push vs v)) ≡ live vs
unfolding remove_id push
live-remove_id c nil v h e = ground (arith, removed-remove v)
live-remove_id c (cons w vs) v (h, k) e = ground (arith, live-remove_id c vs v k e)

module _ (u : Underscore) (app : AppState) where
  -- The header of a new page, and the view of an event, each as it is first drawn.
  abbrev pub header_content : Content
  header_content = rendered header_bar (header_ctx u app no_source none)

  abbrev pub event_content : Event → Content
  event_content e = rendered (view_of app e).0 (get_render_ctx u app (view_of app e).1 none)

  abbrev pub page_of : Option Event → List Content
  page_of none = header_content ∷ []
  page_of (some e) = header_content ∷ event_content e ∷ []

  record IsPage (a : App) (o : Option Event) : Type 0 where
    below : Below a.next_id (subviews a.shell)
    kept : live (remove_current a.current (subviews a.shell)) ≡ header_content ∷ []
    shown : live (subviews a.shell) ≡ page_of o

  show_view-IsPage :
      (e : Event) (a : App) (o : Option Event) → IsPage a o → IsPage (show_view u app e a) (some e)
  unfolding show_view new_view render draw remove_current
  show_view-IsPage e a o h =
      let rest : Views = remove_current a.current (subviews a.shell) in
      let below : Below a.next_id rest = Below-remove_current a.next_id a.current _ h.below in
      record {
        below = Below-push a.next_id rest _ below refl;
        kept = live-remove_id a.next_id rest _ below refl ∙ h.kept;
        shown = live-push rest _ refl ∙ ap (λ l. l ++ (event_content e ∷ [])) h.kept;
      }

  run-IsPage :
      (es : List Event) (a : App) (o : Option Event)
      → IsPage a o
      → IsPage (run u app es a) (last_event o es)
  unfolding run
  run-IsPage [] a o h = h
  run-IsPage (e ∷ es) a o h = run-IsPage es _ (some e) (show_view-IsPage e a o h)

  initial-IsPage : IsPage (initial u app) none
  unfolding initial push new_view header_render render draw remove_current
  initial-IsPage = record { below = (omega arith, tt); kept = refl; shown = refl }

  -- Whatever routes are taken one after another, the views that are not removed show the header and
  -- the page of the last route's event, freshly drawn, and nothing else; before the first route,
  -- the header alone.
  pub run-refines :
      (calls : List Call)
      → live (subviews (run u app (map trigger calls) (initial u app)).shell)
        ≡ page_of (last_event none (map trigger calls))
  run-refines calls = (run-IsPage (map trigger calls) _ none initial-IsPage).shown
