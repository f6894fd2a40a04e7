-- ===== src/Views/Actions/Requests.antt =====
-- Which requests an action sends, and what it shows.
use xmq.Base.{
  ℕ, suc, ◌≡◌, ◌↔◌, refl, Bool, true, false, ◌&&◌, not, Option, some, List, [], ◌∷◌, ◌++◌,
  if◌then◌else◌, arith, any,
}
use xmq.Js.Text.{Text, lit, ◌===◌, ===_iff, ===_refl}
use xmq.AppState.{Globals}
use xmq.Models.{Topic, Channel, topic_url, channel_url}
use xmq.Views.Actions.{
  Method, delete_request, post_request, Body, Effect, ask, request, reload, show_failure, Reply,
  done, fail, topic_action, channel_action, on_create_topic_channel, on_tombstone_click,
}

abbrev pub is_request : Effect → Bool
is_request (request _ _ _) = true
is_request (ask _) = false
is_request _ = false

abbrev pub is_failure : Effect → Bool
is_failure show_failure = true
is_failure (ask _) = false
is_failure _ = false

-- Without a yes, an action on a topic or a channel and a tombstone ask their question and send nothing.
pub unconfirmed :
    (g : Globals) (t : Topic) (c : Channel) (node_url : Text → Option Text) (action node : Text)
    (reply : Reply)
    → (any is_request (topic_action g t action false reply) ≡ false)
      × (any is_request (channel_action g c action false reply) ≡ false)
      × (any is_request (on_tombstone_click node_url node t.name false reply) ≡ false)
unfolding topic_action channel_action on_tombstone_click
unconfirmed g t c node_url action node reply = (refl, refl, refl)

abbrev is_question : Effect → Bool
is_question (ask _) = true
is_question reload = false
is_question _ = false

abbrev is_reload : Effect → Bool
is_reload reload = true
is_reload (ask _) = false
is_reload _ = false

abbrev is_done : Reply → Bool
is_done done = true
is_done fail = false

abbrev requests_of : Effect → List (Method × Text × Body)
requests_of (request method url body) = (method, url, body) ∷ []
requests_of (ask _) = []
requests_of _ = []

-- The requests among the effects, and how many effects are of a kind.
abbrev pub requests : List Effect → List (Method × Text × Body)
requests [] = []
requests (e ∷ es) = requests_of e ++ requests es

abbrev count : (Effect → Bool) → List Effect → ℕ
count p [] = 0
count p (e ∷ es) = if p e then suc (count p es) else count p es

-- The questions, the failures shown and the reloads.
abbrev pub seen : List Effect → ℕ × ℕ × ℕ
seen es = (count is_question es, count is_failure es, count is_reload es)

-- What an action on a channel is to send.
abbrev pub action_request : Text → Text → Method × Text × Body
action_request action url =
    if action === lit "delete"
    then (delete_request, url, [])
    else (post_request, url, (lit "action", action) ∷ [])

abbrev pub once_if : Bool → ℕ
once_if b = if b then 1 else 0

-- An action on a channel that has an address asks one question. Unless the user says yes it sends
-- nothing. Then it sends just one request to that address: a deletion without a body, or for any other
-- action a post that names the action. It shows one failure if the request fails and none otherwise,
-- and reloads the page just if the request of an action other than the deletion succeeds.
pub channel_action_reply :
    (g : Globals) (c : Channel) (action url : Text) (confirmed : Bool) (reply : Reply)
    → channel_url g c ≡ some url
    → (requests (channel_action g c action confirmed reply)
        ≡ (if confirmed then action_request action url ∷ [] else []))
      × (seen (channel_action g c action confirmed reply) ≡ (
        1,
        once_if (confirmed && not (is_done reply)),
        once_if (confirmed && is_done reply && not (action === lit "delete")),
      ))
unfolding channel_action
channel_action_reply g c action url false reply e = (refl, refl)
channel_action_reply g c action url true done e = ground arith
channel_action_reply g c action url true fail e = ground arith

-- A confirmed deletion of a topic that has an address sends a request, and shows no failure where it
-- fails.
topic_delete_silent :
    (g : Globals) (t : Topic) (url : Text)
    → topic_url g t ≡ some url
    → (any is_request (topic_action g t (lit "delete") true fail) ≡ true)
      × (any is_failure (topic_action g t (lit "delete") true fail) ≡ false)
unfolding topic_action
topic_delete_silent g t url e = rw (===_refl (lit "delete"), e) (refl, refl)

-- The form sends its request unless both of its fields are empty.
pub create_sends :
    (g : Globals) (topic channel : Text) (reply : Reply)
    → (on_create_topic_channel g topic channel reply ≡ []) ↔ ((topic ≡ []) × (channel ≡ []))
unfolding on_create_topic_channel
create_sends g topic channel reply = ground (arith, ===_iff topic [], ===_iff channel [])
