-- ===== src/Views/Base/Removal.antt =====
-- The order in which a tree of views is removed.
use mathlib.Core.List.{reverse, reverse-append, reverse-cons}
use xmq.Base.{ℕ, ◌≡◌, refl, sym, ◌∙◌, ap, true, List, [], ◌∷◌, ◌++◌}
use xmq.Views.Base.{
  View, Views, view, nil, cons, fields, subviews, remove_log, subviews_log, remove,
}

-- The ids of a tree, each view before its subviews and these in their order.
unfoldable mutual
  pub ids : View → List ℕ
  ids (view f vs) = f.id ∷ subview_ids vs

  pub subview_ids : Views → List ℕ
  subview_ids nil = []
  subview_ids (cons v vs) = ids v ++ subview_ids vs

mutual
  unfolding remove_log ids

  log-reverse : (v : View) → remove_log v ≡ reverse (ids v)
  log-reverse (view f vs) =
      ap (λ l. l ++ f.id ∷ []) (logs-reverse vs) ∙ sym (reverse-cons f.id (subview_ids vs))

  logs-reverse : (vs : Views) → subviews_log vs ≡ reverse (subview_ids vs)
  logs-reverse nil = refl
  logs-reverse (cons v vs) =
      ap (λ l. l ++ remove_log v) (logs-reverse vs)
      ∙ (ap (λ l. reverse (subview_ids vs) ++ l) (log-reverse v)
          ∙ sym (reverse-append (ids v) (subview_ids vs)))

-- Removing a view calls Backbone's `remove` once for each view of its tree, a later subview before
-- an earlier one and both before their parent, and leaves the view marked and with no subviews.
pub remove_lem :
    (v : View)
    → ((remove v).1 ≡ reverse (ids v))
      × ((fields (remove v).0).removed ≡ true)
      × (subviews (remove v).0 ≡ nil)
unfolding remove
remove_lem (view f vs) = (log-reverse (view f vs), refl, refl)
