-- ===== src/Router.antt =====
-- xmqadmin/static/js/router.js: the routes, and the event that each triggers on `Pubsub`. Which route
-- Backbone chooses for an address, and the parameters that it takes out of it, is its own business:
-- a `Call` is the callback that it makes, with null for a part that is missing.
mod Tests
pub mod Patterns
use xmq.Base.{Option, none, some, List, [], ◌∷◌, drop}
use xmq.Js.Text.{Text, lit}
use xmq.AppState.{Globals, base_path}

pub data Name : Type 0 where
  topics topic lookup nodes counter : Name

pub data Call : Type 0 where
  topics_call : Call
  topic_call : Option Text → Option Text → Call
  lookup_call : Call
  nodes_call : Option Text → Call
  counter_call : Call

pub data Event : Type 0 where
  topics_show : Event
  topic_show : Option Text → Event
  channel_show : Option Text → Text → Event
  lookup_show : Event
  nodes_show : Event
  node_show : Text → Event
  counter_show : Event

-- `AppState.basePath(p).substring(1)`
bp : Globals → Text → Text
bp g p = drop 1 (base_path g p)

unfoldable pub routes : Globals → List (Text × Name)
unfolding bp
routes g =
    (bp g (lit "/"), topics)
    ∷ (bp g (lit "/topics/(:topic)(/:channel)"), topic)
    ∷ (bp g (lit "/lookup"), lookup)
    ∷ (bp g (lit "/nodes(/:node)"), nodes)
    ∷ (bp g (lit "/counter"), counter)
    ∷ []

on_topic : Option Text → Option Text → Event
on_topic t none = topic_show t
on_topic t (some c) = channel_show t c

on_nodes : Option Text → Event
on_nodes none = nodes_show
on_nodes (some n) = node_show n

unfoldable pub trigger : Call → Event
unfolding on_topic on_nodes
trigger topics_call = topics_show
trigger (topic_call t c) = on_topic t c
trigger lookup_call = lookup_show
trigger (nodes_call n) = on_nodes n
trigger counter_call = counter_show
