-- ===== src/Xmqlookupd/History/Served.antt =====
-- Every call as moves.
use xmq.Base.{List, [], ◌∷◌, Bool-cases, Option-cases, inl, inr}
use xmq.Js.Text.{lit}
use xmq.Protocol.{is_valid_topic_name}
use xmq.Xmqlookupd.Dict.{MapOrder}
use xmq.Xmqlookupd.Registrations.{find_registrations}
use xmq.Xmqlookupd.Registrations.Abstract.{add_registration_op, step}
use xmq.Xmqlookupd.Daemon.{Lookupd, topic_key, channel_key}
use xmq.Xmqlookupd.Admin.{
  do_create_topic, do_create_channel, do_delete_topic, do_delete_channel,
  do_tombstone_topic_producer, get_nodes,
}
use xmq.Xmqlookupd.History.{
  Call, ping_call, identify_call, register_call, unregister_call, create_topic_call,
  create_channel_call, delete_topic_call, delete_channel_call, tombstone_call, nodes_call, serve,
  serve_all,
}
use xmq.Xmqlookupd.History.Moves.{
  Moves, stay, Moves-trans, changed, remove_registrations-Moves, tombstone_places-Moves,
}
use xmq.Xmqlookupd.History.Requests.{
  with_topic-Moves, with_channel-Moves, nodes_of-Moves, found-Moves,
}
use xmq.Xmqlookupd.History.Daemons.{ping-Moves, identify-Moves, register-Moves, unregister-Moves}

-- What each call does is made of such moves.
pub serve-Moves : (order : MapOrder) (c : Call) (l : Lookupd) → Moves l (serve order c l)
unfolding serve do_create_topic do_create_channel do_delete_topic do_delete_channel
    do_tombstone_topic_producer get_nodes step
serve-Moves order (ping_call remote p) l = ping-Moves remote p l
serve-Moves order (identify_call now remote p) l = identify-Moves now remote p l
serve-Moves order (register_call remote id topic channel) l =
    register-Moves remote id topic channel l
serve-Moves order (unregister_call remote id topic channel) l =
    unregister-Moves order remote id topic channel l
serve-Moves order (create_topic_call args) l = with_topic-Moves l args _ λ a topic.
    elim (Bool-cases (is_valid_topic_name topic)) [
      | inr bad ↦ rw bad stay
      | inl good ↦ rw good (changed l (add_registration_op (topic_key topic)) tt l.db)
    ]
serve-Moves order (create_channel_call args) l = with_channel-Moves l args _ λ topic channel.
    Moves-trans (changed l (add_registration_op (channel_key topic channel)) tt l.db)
      (changed l (add_registration_op (topic_key topic)) tt _)
serve-Moves order (delete_topic_call args) l =
    with_topic-Moves l args _ λ a topic.
      Moves-trans (remove_registrations-Moves l _ l.db) (remove_registrations-Moves l _ _)
serve-Moves order (delete_channel_call args) l =
    with_channel-Moves l args _
      λ topic channel. found-Moves l (find_registrations order (lit "channel") topic channel l.db)
serve-Moves order (tombstone_call now args) l = with_topic-Moves l args _ λ a topic.
    elim (Option-cases a.node) [
      | inl e ↦ rw e stay
      | inr (node, e) ↦ rw e (tombstone_places-Moves l now node _ l.db)
    ]
serve-Moves order (nodes_call clock now o) l = nodes_of-Moves order clock o _ l

pub serve_all-Moves :
    (order : MapOrder) (cs : List Call) (l : Lookupd) → Moves l (serve_all order cs l)
unfolding serve_all
serve_all-Moves order [] l = stay
serve_all-Moves order (c ∷ cs) l =
    Moves-trans (serve-Moves order c l) (serve_all-Moves order cs (serve order c l))
