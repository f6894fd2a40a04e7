-- ===== src/Views/Page/Lifecycle.antt =====
-- What a page shows after its answer, after a failure, and when the graph interval changes.
use mathlib.Core.Path.{ap₂}
use xmq.Base.{◌≡◌, refl, ◌∙◌, ap, Bool, true, false, Option, none, some, [], ◌∷◌, arith}
use xmq.Js.Text.{Text, lit, ◌===◌}
use xmq.Vendor.{Underscore, or_from}
use xmq.AppState.{AppState}
use xmq.Views.Base.{
  View, view, fields, Attr, Attrs, rendered, failed, render, get_render_ctx, handle_view_error,
  parse_error_message, remove_subviews, JqXhr, Parsed, collection, no_source, object, spinner,
}
use xmq.Views.Base.Rendering.{IsLive, content-draw, get_render_ctx_lem, source_attrs}
use xmq.Views.Page.{
  Kind, topics, topic, channel, lookup, nodes, node, page_template, page_data, Answer, Outcome,
  fetch_done, fetch_fail, interval_change,
}

-- The pages that listen to the graph interval.
abbrev pub listens : Kind → Bool
listens (lookup _) = false
listens topics = true
listens _ = true

content-handle_view_error :
    (parse : Text → Parsed) (xhr : JqXhr) (v : View)
    → (fields (handle_view_error parse xhr v).0).content ≡ failed (parse_error_message parse xhr)
unfolding handle_view_error remove_subviews
content-handle_view_error parse xhr (view f vs) = refl

module _ (u : Underscore) (app : AppState) where
  content-render :
      (d : Option Attrs) (v : View)
      → IsLive v
      → (fields (render u app d v).0).content
        ≡ rendered (fields v).template (get_render_ctx u app (fields v).source d)
  unfolding render
  content-render d (view f vs) h = content-draw _ (view f vs) h

  page_data-message : (kind : Kind) (a : Answer) → page_data kind a (lit "message") ≡ some a.message
  unfolding page_data object ◌===◌
  page_data-message topics a = refl
  page_data-message (topic _) a = refl
  page_data-message (channel _) a = refl
  page_data-message (lookup _) a = refl
  page_data-message nodes a = refl
  page_data-message node a = refl

  -- With its answer a live page shows its template, in a context that has the answer's message, and
  -- triggers `view:ready` once.
  pub fetch_done_lem :
      (kind : Kind) (a : Answer) (v : View)
      → IsLive v
      → (ctx : Attrs) × ((fields (fetch_done u app kind a v).page).content
          ≡ rendered (page_template kind) ctx)
        × (ctx (lit "message") ≡ some a.message)
        × ((fetch_done u app kind a v).ready ≡ lit "view:ready" ∷ [])
  unfolding fetch_done
  fetch_done_lem kind a (view f vs) h = (
    get_render_ctx u app a.source (some (page_data kind a)),
    content-render (some (page_data kind a)) _ (record { kept = h.kept; again = h.again }),
    get_render_ctx_lem u app a.source (some (page_data kind a)) (lit "message")
        ∙ ap
            (λ o. or_from o (
              or_from (source_attrs a.source (lit "message"))
                (get_render_ctx u app no_source none (lit "message"))))
            (page_data-message kind a),
    refl,
  )

  interval_change_lem :
      (settings : Attrs) (kind : Kind) (v : View)
      → listens kind ≡ true
      → interval_change u app settings kind v
        ≡ record { page = (render u app (some settings) v).0; ready = [] }
  unfolding interval_change
  interval_change_lem settings topics v h = refl
  interval_change_lem settings (topic _) v h = refl
  interval_change_lem settings (channel _) v h = refl
  interval_change_lem settings (lookup _) v h = cc
  interval_change_lem settings nodes v h = refl
  interval_change_lem settings node v h = refl

  handle_view_error-kept :
      (parse : Text → Parsed) (xhr : JqXhr) (v : View)
      → ((fields (handle_view_error parse xhr v).0).template ≡ (fields v).template)
        × ((fields (handle_view_error parse xhr v).0).source ≡ (fields v).source)
        × (IsLive v → IsLive (handle_view_error parse xhr v).0)
  unfolding handle_view_error remove_subviews
  handle_view_error-kept parse xhr (view f vs) =
      (refl, refl, λ h. record { kept = h.kept; again = h.again })

  -- A live page that still has the spinner, and listens, shows the error of a failed request; when the
  -- graph interval changes, it shows the spinner again and triggers no `view:ready`.
  pub fail_then_spinner :
      (parse : Text → Parsed) (xhr : JqXhr) (settings : Attrs) (kind : Kind) (v : View)
      → IsLive v
      → (fields v).template ≡ spinner
      → listens kind ≡ true
      → ((fields (fetch_fail u app parse xhr v).page).content
          ≡ failed (parse_error_message parse xhr))
        × ((fields
              (interval_change u app settings kind
                (fetch_fail u app parse xhr v).page).page).content
            ≡ rendered spinner (get_render_ctx u app (fields v).source (some settings)))
        × ((interval_change u app settings kind (fetch_fail u app parse xhr v).page).ready ≡ [])
  unfolding fetch_fail
  fail_then_spinner parse xhr settings kind v h spins hears =
      let w = (handle_view_error parse xhr v).0 in
      let (template, source, live) = handle_view_error-kept parse xhr v in
      let drawn = interval_change_lem settings kind w hears in
      (
        content-handle_view_error parse xhr v,
        ap (λ (o : Outcome). (fields o.page).content) drawn
            ∙ (content-render (some settings) w (live h)
                ∙ ap₂ (λ t s. rendered t (get_render_ctx u app s (some settings)))
                    (template ∙ spins) source),
        ap (λ (o : Outcome). o.ready) drawn,
      )

  render-kept :
      (d : Option Attrs) (v : View)
      → IsLive v
      → ((fields (render u app d v).0).template ≡ (fields v).template)
        × ((fields (render u app d v).0).source ≡ (fields v).source)
        × ((fields (render u app d v).0).removed ≡ false)
        × ((fields (render u app d v).0).render_once ≡ false)
  unfolding render
  render-kept d (view f vs) h = ground (arith, h.kept, h.again)

  settings-message :
      (c : Attr)
      → or_from
          (source_attrs (collection c) (lit "message"))
          (get_render_ctx u app no_source none (lit "message"))
        ≡ none
  unfolding get_render_ctx object ◌===◌
  settings-message c = refl

  -- On a live page that listens and whose answer is a collection, the answer's message is gone from the context once the graph interval
  -- has changed, since the settings have no property `message`.
  message_lost :
      (settings : Attrs) (kind : Kind) (a : Answer) (c : Attr) (v : View)
      → IsLive v
      → listens kind ≡ true
      → a.source ≡ collection c
      → settings (lit "message") ≡ none
      → (ctx : Attrs) × ((fields
            (interval_change u app settings kind (fetch_done u app kind a v).page).page).content
          ≡ rendered (page_template kind) ctx)
        × (ctx (lit "message") ≡ none)
  unfolding fetch_done
  message_lost settings kind a c (view f vs) h hears is_collection silent =
      let shown : View = view (record f { template = page_template kind; source = a.source }) vs in
      let w = (render u app (some (page_data kind a)) shown).0 in
      let (template, source, kept, again) =
        render-kept (some (page_data kind a)) shown (record { kept = h.kept; again = h.again }) in
      (
        get_render_ctx u app (fields w).source (some settings),
        ap (λ (o : Outcome). (fields o.page).content) (interval_change_lem settings kind w hears)
            ∙ (content-render (some settings) w (record { kept = kept; again = again })
                ∙ ap (λ t. rendered t (get_render_ctx u app (fields w).source (some settings)))
                    template),
        get_render_ctx_lem u app (fields w).source (some settings) (lit "message")
            ∙ rw (silent, source, is_collection) (settings-message c),
      )
