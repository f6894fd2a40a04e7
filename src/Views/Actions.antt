-- ===== src/Views/Actions.antt =====
-- xmqadmin/static/js/views: what the clicks on a topic, a channel, the lookup page and the shell do. An
-- action is the list of its calls, in their order; the user's answer to a question and the server's to
-- a request are arguments.
mod Tests
pub mod Requests
use xmq.Base.{
  Bool, true, false, ◌&&◌, ◌||◌, not, Option, none, some, List, [], ◌∷◌, ◌++◌, if◌then◌else◌,
}
use xmq.Js.Text.{Text, lit, ◌===◌}
use xmq.Js.Uri.{encode_uri_component}
use xmq.AppState.{Globals, base_path, api_path}
use xmq.Models.{Topic, Channel, topic_url, channel_url}

pub data Method : Type 0 where
  delete_request post_request : Method

-- A request's body: nothing, or the object that `JSON.stringify` writes.
abbrev pub Body : Type 0
Body = List (Text × Text)

pub data Effect : Type 0 where
  ask : Text → Effect
  request : Method → Text → Body → Effect
  uri_error : Effect
  reload : Effect
  set_location : Text → Effect
  show_failure : Effect
  navigate : Text → Effect

-- What a request's answer does: `done`, and `fail`.
pub data Reply : Type 0 where
  done fail : Reply

abbrev pub on_reply : Reply → List Effect → List Effect → List Effect
on_reply done ok bad = ok
on_reply fail ok bad = bad

-- A request to an address that may not be encodable.
send : Method → Option Text → Body → List Effect → List Effect
send method none body rest = uri_error ∷ []
send method (some url) body rest = request method url body ∷ rest

question : Text → Text → List Effect → Bool → List Effect
question action subject rest confirmed =
    ask (
      lit "Are you sure you want to <strong>"
      ++ (action ++ (lit "</strong> <em>" ++ (subject ++ lit "</em>?"))))
    ∷ (if confirmed then rest else [])

reload_or_failure : Reply → List Effect
reload_or_failure reply = on_reply reply (reload ∷ []) (show_failure ∷ [])

unfoldable pub topic_action : Globals → Topic → Text → Bool → Reply → List Effect
unfolding send question reload_or_failure
topic_action g t action confirmed reply =
    let deletion =
      send delete_request (topic_url g t) []
        (on_reply reply (set_location (base_path g (lit "/")) ∷ []) []) in
    let other =
      send post_request (topic_url g t) ((lit "action", action) ∷ []) (reload_or_failure reply) in
    question action t.name (if action === lit "delete" then deletion else other) confirmed

-- Where the page of a deleted channel goes: to its topic, whose name is encoded when the answer comes.
topic_location : Globals → Text → List Effect
topic_location g topic = elim (encode_uri_component topic) [
  | none ↦ uri_error ∷ []
  | some t ↦ set_location (base_path g (lit "/topics/" ++ t)) ∷ []
]

unfoldable pub channel_action : Globals → Channel → Text → Bool → Reply → List Effect
unfolding send question reload_or_failure topic_location
channel_action g c action confirmed reply =
    let deletion =
      send delete_request (channel_url g c) []
        (on_reply reply (topic_location g c.topic) (show_failure ∷ [])) in
    let other =
      send post_request (channel_url g c) ((lit "action", action) ∷ []) (reload_or_failure reply) in
    question action (c.topic ++ (lit "/" ++ c.name))
      (if action === lit "delete" then deletion else other) confirmed

unfoldable pub on_create_topic_channel : Globals → Text → Text → Reply → List Effect
unfolding reload_or_failure
on_create_topic_channel g topic channel reply =
    if (topic === []) && (channel === [])
    then []
    else request post_request (api_path g (lit "/topics"))
        ((lit "topic", topic) ∷ (lit "channel", channel) ∷ [])
      ∷ reload_or_failure reply

-- `destroy` sends the deletion to the model's address.
unfoldable pub on_delete_topic : Globals → Text → Reply → List Effect
unfolding send reload_or_failure
on_delete_topic g name reply =
    send delete_request (topic_url g (record { name = name; is_admin = false })) []
      (reload_or_failure reply)

unfoldable pub on_delete_channel : Globals → Text → Text → Reply → List Effect
unfolding send reload_or_failure
on_delete_channel g topic name reply =
    send delete_request (channel_url g (record { topic = topic; name = name; is_admin = false })) []
      (reload_or_failure reply)

-- `node_url` stands for Backbone's address of a node's model, from its name.
unfoldable pub on_tombstone_click : (Text → Option Text) → Text → Text → Bool → Reply → List Effect
unfolding send question reload_or_failure
on_tombstone_click node_url node topic confirmed reply =
    question (lit "tombstone") node
      (send delete_request (node_url node) ((lit "topic", topic) ∷ []) (reload_or_failure reply))
      confirmed

unfoldable pub on_link_click : Bool → Bool → Text → List Effect
on_link_click ctrl meta href = if ctrl || meta then [] else navigate href ∷ []
