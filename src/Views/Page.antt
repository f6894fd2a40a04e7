-- ===== src/Views/Page.antt =====
-- xmqadmin/static/js/views: topics.js, topic.js, channel.js, lookup.js, nodes.js and node.js. Each page
-- starts with a spinner and a request, draws its template when the answer comes, and all but the
-- lookup page are drawn again when the graph interval changes.
pub mod Lifecycle
use xmq.Base.{Bool, true, false, Option, none, some, List, [], ◌∷◌, map}
use xmq.Js.Text.{Text, lit}
use xmq.Vendor.{Underscore}
use xmq.AppState.{AppState, Globals, api_path}
use xmq.Models.{Topic, Channel, topic_url, channel_url, nodes_url, topics_url}
use xmq.Views.Base.{
  View, view, Fields, fields, Attr, Attrs, Source, Template, flag, word, object, render,
  handle_view_error, JqXhr, Parsed, topics_page, topic_page, channel_page, lookup_page, nodes_page,
  node_page,
}

pub data Kind : Type 0 where
  topics : Kind
  topic : Topic → Kind
  channel : Channel → Kind
  lookup : Bool → Kind
  nodes node : Kind

abbrev pub page_template : Kind → Template
page_template topics = topics_page
page_template (topic _) = topic_page
page_template (channel _) = channel_page
page_template (lookup _) = lookup_page
page_template nodes = nodes_page
page_template node = node_page

-- An answer: the model or collection as Backbone has set it from the answer, its message, and for the
-- lookup page the topics with their channels.
pub record Answer : Type 0 where
  pub source : Source
  pub message : Attr
  pub topics : Attr

-- The data that the page hands to `render` with an answer.
unfoldable pub page_data : Kind → Answer → Attrs
unfolding object
page_data topics a = object ((lit "message", a.message) ∷ [])
page_data (topic t) a = object ((lit "message", a.message) ∷ (lit "isAdmin", flag t.is_admin) ∷ [])
page_data (channel c) a =
    object ((lit "message", a.message) ∷ (lit "isAdmin", flag c.is_admin) ∷ [])
page_data (lookup admin) a =
    object
      ((lit "topics", a.topics) ∷ (lit "message", a.message) ∷ (lit "isAdmin", flag admin) ∷ [])
page_data nodes a = object ((lit "message", a.message) ∷ [])
page_data node a = object ((lit "message", a.message) ∷ [])

with_answer : Kind → Answer → View → View
with_answer kind a (view f vs) =
    view (record f { template = page_template kind; source = a.source }) vs

-- A page after something happened, and how often it triggered `view:ready`.
pub record Outcome : Type 0 where
  pub page : View
  pub ready : List Text

module _ (u : Underscore) (app : AppState) where
  -- `done`, then `always`
  unfoldable pub fetch_done : Kind → Answer → View → Outcome
  unfolding with_answer
  fetch_done kind a v = record {
    page = (render u app (some (page_data kind a)) (with_answer kind a v)).0;
    ready = lit "view:ready" ∷ [];
  }

  -- `fail`, then `always`
  unfoldable pub fetch_fail : (Text → Parsed) → JqXhr → View → Outcome
  fetch_fail parse xhr v = record {
    page = (handle_view_error parse xhr v).0;
    ready = lit "view:ready" ∷ [];
  }

  -- The listener on `change:graph_interval` is `render` itself: Backbone hands it the settings' model
  -- as its first argument, which `render` takes for data.
  unfoldable pub interval_change : Attrs → Kind → View → Outcome
  interval_change settings (lookup _) v = record { page = v; ready = [] }
  interval_change settings kind v = record { page = (render u app (some settings) v).0; ready = [] }
