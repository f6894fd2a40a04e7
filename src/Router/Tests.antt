-- ===== src/Router/Tests.antt =====
-- The events of concrete calls.
use xmq.Base.{◌≡◌, refl, none, some}
use xmq.Js.Text.{lit}
use xmq.Router.{trigger, topic_call, nodes_call, topic_show, channel_show, nodes_show}

test_topic : trigger (topic_call (some (lit "orders")) none) ≡ topic_show (some (lit "orders"))
unfolding trigger
test_topic = refl

test_channel :
    trigger (topic_call (some (lit "orders")) (some (lit "billing")))
    ≡ channel_show (some (lit "orders")) (lit "billing")
unfolding trigger
test_channel = refl

test_nodes : trigger (nodes_call none) ≡ nodes_show
unfolding trigger
test_nodes = refl
