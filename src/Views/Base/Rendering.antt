-- ===== src/Views/Base/Rendering.antt =====
-- What `render` draws, with which context, and when it draws nothing.
use xmq.Base.{◌≡◌, ◌≢◌, ◌↔◌, refl, ◌∙◌, ap, true, false, Option, none, some, [], ◌∷◌, arith}
use xmq.Js.Text.{Text, lit, ===_iff}
use xmq.Vendor.{Underscore, or_from}
use xmq.AppState.{AppState}
use xmq.Views.Base.{
  View, view, fields, Attrs, Source, flag, rendered, draw, render, get_render_ctx, no_source, model,
  collection, no_attrs, remove, object,
}

-- A view that is drawn whenever it is asked for: it is not removed, nor drawn once only.
pub record IsLive (v : View) : Type 0 where
  pub kept : (fields v).removed ≡ false
  pub again : (fields v).render_once ≡ false

pub content-draw :
    (ctx : Attrs) (v : View)
    → IsLive v
    → (fields (draw ctx v).0).content ≡ rendered (fields v).template ctx
unfolding draw
content-draw ctx (view f vs) h = ground (arith, h.kept, h.again)

-- The properties of a view's model, or of an object with its collection.
abbrev pub source_attrs : Source → Attrs
source_attrs no_source = no_attrs
source_attrs (model m) = m
source_attrs (collection c) = object ((lit "collection", c) ∷ [])

abbrev pub data_attrs : Option Attrs → Attrs
data_attrs none = no_attrs
data_attrs (some d) = d

-- The context takes a property from the data of the call, else from the model or collection, else
-- from the settings.
pub get_render_ctx_lem :
    (u : Underscore) (app : AppState) (source : Source) (d : Option Attrs) (k : Text)
    → get_render_ctx u app source d k
      ≡ or_from
          (data_attrs d k)
          (or_from (source_attrs source k) (get_render_ctx u app no_source none k))
unfolding get_render_ctx
get_render_ctx_lem u app no_source none k = refl
get_render_ctx_lem u app no_source (some d) k = u.extend_lem _ _ k
get_render_ctx_lem u app (model m) none k = u.extend_lem _ _ k
get_render_ctx_lem u app (model m) (some d) k =
    u.extend_lem _ _ k ∙ ap (or_from (d k)) (u.extend_lem _ _ k)
get_render_ctx_lem u app (collection c) none k = u.extend_lem _ _ k
get_render_ctx_lem u app (collection c) (some d) k =
    u.extend_lem _ _ k ∙ ap (or_from (d k)) (u.extend_lem _ _ k)

-- A view that was removed keeps the content it had, whatever renders it later.
render-remove :
    (u : Underscore) (app : AppState) (d : Option Attrs) (v : View)
    → (fields (render u app d (remove v).0).0).content ≡ (fields v).content
unfolding render remove
render-remove u app d (view f vs) = ground arith

-- The settings say that graphs are drawn exactly when they are enabled and the interval is not "off".
pub graph_active_iff :
    (u : Underscore) (app : AppState)
    → (get_render_ctx u app no_source none (lit "graph_active") ≡ some (flag true))
      ↔ ((app.globals.graph_enabled ≡ true) × (app.graph_interval ≢ lit "off"))
unfolding get_render_ctx
graph_active_iff u app = ground (arith, ===_iff app.graph_interval (lit "off"))
