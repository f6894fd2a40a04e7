-- ===== src/Views/Actions/Tests.antt =====
-- The actions at concrete models.
use xmq.Base.{◌≡◌, refl, true, Option, some, [], ◌∷◌}
use xmq.Js.Text.{Text, lit, ◌===◌}
use xmq.Js.Uri.{encode_uri_component}
use xmq.AppState.{api_path}
use xmq.Samples.{sample_globals}
use xmq.Models.{Topic, Channel, channel_url}
use xmq.Views.Actions.{delete_request, fail, channel_action}
use xmq.Views.Actions.Requests.{requests, seen, channel_action_reply}

abbrev orders : Topic
orders = record { name = lit "orders"; is_admin = true }

abbrev mail : Channel
mail = record { topic = lit "orders"; name = lit "mail"; is_admin = true }

abbrev node_url : Text → Option Text
node_url s = some s

channel_action_reply_example :
    (requests (channel_action sample_globals mail (lit "delete") true fail)
      ≡ (delete_request, lit "/xmq/api/topics/orders/mail", []) ∷ [])
    × (seen (channel_action sample_globals mail (lit "delete") true fail) ≡ (1, 1, 0))
unfolding channel_url encode_uri_component api_path ◌===◌
channel_action_reply_example =
    channel_action_reply sample_globals mail (lit "delete") (lit "/xmq/api/topics/orders/mail") true
      fail refl
