-- ===== src/Views/App/Shown.antt =====
-- The subviews of the shell: which there are, and which were removed.
use xmq.Base.{
  ℕ, suc, ◌<◌, ◌≡◌, refl, sym, subst, ◌∙◌, ap, Bool, true, false, Option, none, some, List, [], ◌∷◌,
  ◌++◌, map, map-append, append-nil, append_assoc, arith,
}
use xmq.Vendor.{Underscore}
use xmq.AppState.{AppState}
use xmq.Router.{
  Event, topics_show, topic_show, channel_show, lookup_show, nodes_show, node_show, counter_show,
}
use xmq.Views.Base.{
  View, Views, view, nil, cons, fields, subviews, Template, spinner, counter_page, header_bar,
  new_view, draw, render, remove, remove_subviews,
}
use xmq.Views.Header.{header_render}
use xmq.Views.App.{App, view_of, remove_id, push, show_view, initial, run, remove_current}

-- What the subviews are, in their order: the template of each, and whether it was removed.
abbrev pub listing : Views → List (Template × Bool)
listing nil = []
listing (cons v vs) = ((fields v).template, (fields v).removed) ∷ listing vs

-- The template with which the view of an event begins: the counter has its page at once, and all others
-- wait for their answer.
abbrev pub first_template : Event → Template
first_template counter_show = counter_page
first_template topics_show = spinner
first_template _ = spinner

-- All ids are below a number.
abbrev pub Below : ℕ → Views → Type 0
Below n nil = Unit
Below n (cons v vs) = ((fields v).id < n) × Below n vs

listing-push :
    (vs : Views) (v : View)
    → listing (push vs v) ≡ listing vs ++ (((fields v).template, (fields v).removed) ∷ [])
unfolding push
listing-push nil v = refl
listing-push (cons w vs) v =
    ap (λ l. ((fields w).template, (fields w).removed) ∷ l) (listing-push vs v)

pub Below-push :
    (n : ℕ) (vs : Views) (v : View) → Below n vs → (fields v).id ≡ n → Below (suc n) (push vs v)
unfolding push
Below-push n nil v h e = (omega arith, tt)
Below-push n (cons w vs) v (h, k) e = (omega arith, Below-push n vs v k e)

id-remove : (v : View) → (fields (remove v).0).id ≡ (fields v).id
unfolding remove remove_subviews
id-remove (view f vs) = refl

pub removed-remove : (v : View) → (fields (remove v).0).removed ≡ true
unfolding remove remove_subviews
removed-remove (view f vs) = refl

template-remove : (v : View) → (fields (remove v).0).template ≡ (fields v).template
unfolding remove remove_subviews
template-remove (view f vs) = refl

Below-remove_id : (n c : ℕ) (vs : Views) → Below n vs → Below n (remove_id c vs)
unfolding remove_id
Below-remove_id n c nil h = tt
Below-remove_id n c (cons v vs) (h, k) = ground (arith, id-remove v, Below-remove_id n c vs k)

-- Removing the view that was pushed last, where its id is new, marks it and leaves the others.
listing-remove_id :
    (c : ℕ) (vs : Views) (v : View)
    → Below c vs
    → (fields v).id ≡ c
    → listing (remove_id c (push vs v)) ≡ listing vs ++ (((fields v).template, true) ∷ [])
unfolding remove_id push
listing-remove_id c nil v h e = ground (arith, removed-remove v, template-remove v)
listing-remove_id c (cons w vs) v (h, k) e = ground (arith, listing-remove_id c vs v k e)

pub Below-remove_current :
    (n : ℕ) (c : Option ℕ) (s : Views) → Below n s → Below n (remove_current c s)
unfolding remove_current
Below-remove_current n none s h = h
Below-remove_current n (some c) s h = Below-remove_id n c s h

first_template_lem : (app : AppState) (e : Event) → (view_of app e).0 ≡ first_template e
unfolding view_of
first_template_lem app topics_show = refl
first_template_lem app (topic_show t) = refl
first_template_lem app (channel_show t c) = refl
first_template_lem app lookup_show = refl
first_template_lem app nodes_show = refl
first_template_lem app (node_show n) = refl
first_template_lem app counter_show = refl

abbrev removed_view : Event → Template × Bool
removed_view e = (first_template e, true)

-- Without the current view, there are the header and the removed views of these events.
record IsListed (a : App) (es : List Event) : Type 0 where
  below : Below a.next_id (subviews a.shell)
  kept :
      listing (remove_current a.current (subviews a.shell))
      ≡ (header_bar, false) ∷ map removed_view es

module _ (u : Underscore) (app : AppState) where
  -- The current view of the last event stands after them.
  listing-show_view :
      (e : Event) (a : App) (es : List Event)
      → IsListed a es
      → listing (subviews (show_view u app e a).shell)
        ≡ ((header_bar, false) ∷ map removed_view es) ++ ((first_template e, false) ∷ [])
  unfolding show_view new_view render draw remove_subviews
  listing-show_view e a es h =
      listing-push (remove_current a.current (subviews a.shell)) _
      ∙ (ap (λ l. l ++ (((view_of app e).0, false) ∷ [])) h.kept
          ∙ ap (λ t. ((header_bar, false) ∷ map removed_view es) ++ ((t, false) ∷ []))
              (first_template_lem app e))

  show_view-IsListed :
      (e : Event) (a : App) (es : List Event)
      → IsListed a es
      → IsListed (show_view u app e a) (es ++ (e ∷ []))
  unfolding show_view new_view render draw remove_subviews remove_current
  show_view-IsListed e a es h =
      let rest : Views = remove_current a.current (subviews a.shell) in
      let below : Below a.next_id rest = Below-remove_current a.next_id a.current _ h.below in
      record {
        below = Below-push a.next_id rest _ below refl;
        kept =
            listing-remove_id a.next_id rest _ below refl
            ∙ (ap (λ l. l ++ (((view_of app e).0, true) ∷ [])) h.kept
                ∙ (ap (λ t. ((header_bar, false) ∷ map removed_view es) ++ ((t, true) ∷ []))
                      (first_template_lem app e)
                    ∙ ap (λ l. (header_bar, false) ∷ l)
                        (sym (map-append removed_view es (e ∷ [])))));
      }

  run-IsListed :
      (es before : List Event) (a : App)
      → IsListed a before
      → IsListed (run u app es a) (before ++ es)
  unfolding run
  run-IsListed [] before a h = subst (IsListed a) (sym (append-nil before)) h
  run-IsListed (e ∷ es) before a h =
      subst (IsListed (run u app (e ∷ es) a)) (append_assoc before (e ∷ []) es)
        (run-IsListed es (before ++ (e ∷ [])) _ (show_view-IsListed e a before h))

  run_last :
      (es : List Event) (e : Event) (a : App)
      → run u app (es ++ (e ∷ [])) a ≡ show_view u app e (run u app es a)
  unfolding run
  run_last [] e a = refl
  run_last (f ∷ es) e a = run_last es e (show_view u app f a)

  initial-IsListed : IsListed (initial u app) []
  unfolding initial push new_view header_render draw render remove_subviews remove_current
  initial-IsListed = record { below = (omega arith, tt); kept = refl }

  -- After any events and a last one, the subviews of the shell are the header, then a view with its
  -- first template for each event, in their order. Those of the earlier events were removed and are
  -- still on the list; the header and the view of the last event were not removed.
  pub run_live :
      (es : List Event) (e : Event)
      → listing (subviews (run u app (es ++ (e ∷ [])) (initial u app)).shell)
        ≡ (header_bar, false)
          ∷ (map (λ x. (first_template x, true)) es ++ ((first_template e, false) ∷ []))
  run_live es e =
      ap (λ a. listing (subviews a.shell)) (run_last es e (initial u app))
      ∙ listing-show_view e _ es (run-IsListed es [] (initial u app) initial-IsListed)
