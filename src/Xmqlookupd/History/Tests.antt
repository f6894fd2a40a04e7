-- ===== src/Xmqlookupd/History/Tests.antt =====
-- The lookup daemon after concrete calls.
use xmq.Base.{
  ◌≡◌, refl, true, false, Option, none, some, List, [], ◌∷◌, all, any, arith, ◌++◌, ◌&&◌, ◌||◌, not,
}
use xmq.Js.Text.{Text, lit, ◌===◌}
use xmq.Xmqlookupd.Dict.{as_stored, get}
use xmq.Xmqlookupd.Registrations.{PeerInfo, Producer, add_producer, producers_of, is_tombstoned}
use xmq.Xmqlookupd.Daemon.{
  Lookupd, start, refused, add_copy, identify, lacks_fields, register, unregister, topic_key,
  channel_key,
}
use xmq.Xmqlookupd.Admin.{Args, Options, do_lookup, get_nodes}
use xmq.Xmqlookupd.History.{
  Call, ping_call, identify_call, register_call, tombstone_call, serve, serve_all,
}
use xmq.Protocol.{
  is_valid_topic_name, is_valid_channel_name, is_valid_name, matches_name, is_name_rest,
  is_name_char,
}
use xmq.Xmqlookupd.Members.{member, may_register, is_served, target, register_lem}
use xmq.Xmqlookupd.Members.Unregister.{cleared, unregister_lem}
use xmq.Xmqlookupd.History.Silent.{names, lookup_forgets}
use xmq.Xmqlookupd.History.Found.{lookup_finds}
use xmq.Xmqlookupd.History.Struck.{shows, tombstone_hides}
use xmq.Xmqlookupd.Daemon.{check, registered}
use xmq.Xmqlookupd.History.Pointers.{unmarked, nodes_unmarked}

abbrev remote : Option Text
remote = some (lit "10.0.0.9:5")

abbrev peer : PeerInfo
peer = record {
  id = lit "a:1";
  remote_address = lit "10.0.0.9:5";
  hostname = lit "node";
  broadcast_address = lit "10.0.0.9";
  tcp_port = 4150;
  http_port = 4151;
  version = lit "1.2";
  last_update = 100;
  raft_state = [];
}

abbrev options : Options
options = record { inactive_producer_timeout = 300; tombstone_lifetime = 45 }

abbrev orders : Option Args
orders =
    some record { topic = some (lit "orders"); channel = none; node = some (lit "10.0.0.9:4151") }

abbrev joined : List Call
joined = identify_call 100 remote (some peer) ∷ []

-- The daemon registers and pings, and its topic is tombstoned.
abbrev later_calls : List Call
later_calls =
    register_call remote (lit "a:1") (lit "orders") []
    ∷ ping_call remote (some peer)
    ∷ tombstone_call 390 orders
    ∷ []

abbrev known : Lookupd
known = serve_all as_stored joined start

abbrev listed : Lookupd
listed = serve_all as_stored (joined ++ later_calls) start

is_known : get ◌===◌ (lit "a:1") (serve_all as_stored joined start).peers ≡ some peer
unfolding serve_all serve identify lacks_fields add_copy ◌===◌
is_known = refl

lookup_forgets_example :
    names (lit "a:1") (
      do_lookup as_stored
        (λ id. 500)
        401
        options
        orders
        (serve_all as_stored later_calls (serve_all as_stored joined start)).db)
    ≡ false
lookup_forgets_example =
    lookup_forgets as_stored joined later_calls (lit "a:1") peer (λ id. 500) 401 options orders
      is_known (omega arith)

nodes_unmarked_example :
    all unmarked
      (get_nodes as_stored
        (λ id. 400)
        395
        options
        (serve_all as_stored (identify_call 100 remote (some peer) ∷ later_calls) start)).0
    ≡ true
nodes_unmarked_example =
    nodes_unmarked as_stored (identify_call 100 remote (some peer) ∷ later_calls) (λ id. 400) 395
      options

-- A second `Identify` is refused.
refused_again :
    (identify 200 remote (some peer) (serve_all as_stored joined start)).0
    ≡ refused (lit "E_INVALID:cannot IDENTIFY again")
unfolding serve_all serve identify lacks_fields add_copy ◌===◌
refused_again = refl

register_lem_example :
    (is_served (register (some (lit "h:5")) (lit "a:1") (lit "orders") (lit "mail") known).0
      ≡ may_register (lit "a:1") (lit "orders") (lit "mail") known)
    × (member
          (register (some (lit "h:5")) (lit "a:1") (lit "orders") (lit "mail") known).1
          (channel_key (lit "orders") (lit "mail"))
          (lit "a:1")
        ≡ ((may_register (lit "a:1") (lit "orders") (lit "mail") known
              && (target (lit "orders") (lit "mail") (channel_key (lit "orders") (lit "mail"))
                  && (lit "a:1" === lit "a:1")))
            || member known (channel_key (lit "orders") (lit "mail")) (lit "a:1")))
register_lem_example =
    register_lem as_stored joined (lit "h:5") (lit "a:1") (lit "orders") (lit "mail")
      (channel_key (lit "orders") (lit "mail")) (lit "a:1")

unregister_lem_example :
    (is_served (unregister as_stored (some (lit "h:5")) (lit "a:1") (lit "orders") [] listed).0
      ≡ may_register (lit "a:1") (lit "orders") [] listed)
    × (member
          (unregister as_stored (some (lit "h:5")) (lit "a:1") (lit "orders") [] listed).1
          (topic_key (lit "orders"))
          (lit "a:1")
        ≡ (not (
              may_register (lit "a:1") (lit "orders") [] listed
              && (cleared (lit "orders") [] (topic_key (lit "orders"))
                  && (lit "a:1" === lit "a:1")))
            && member listed (topic_key (lit "orders")) (lit "a:1")))
unregister_lem_example =
    unregister_lem as_stored (joined ++ later_calls) (lit "h:5") (lit "a:1") (lit "orders") []
      (topic_key (lit "orders")) (lit "a:1")

-- The daemon may register.
registers : may_register (lit "a:1") (lit "orders") (lit "mail") known ≡ true
unfolding serve_all serve identify lacks_fields add_copy ◌===◌ is_valid_topic_name
    is_valid_channel_name is_valid_name matches_name is_name_rest is_name_char
registers = refl

abbrev serving : Lookupd
serving =
    serve_all as_stored (joined ++ (register_call remote (lit "a:1") (lit "orders") [] ∷ [])) start

is_serving :
    (member serving (topic_key (lit "orders")) (lit "a:1") ≡ true)
    × (get ◌===◌ (lit "a:1") serving.peers ≡ some peer)
    × (any
          (λ (e : Text × Producer). (e.1.info.id === lit "a:1") && is_tombstoned 400 45 e.1)
          (producers_of (topic_key (lit "orders")) serving.db)
        ≡ false)
unfolding serve_all serve identify lacks_fields add_copy ◌===◌ register check registered
    is_valid_topic_name is_valid_name matches_name is_name_rest is_name_char is_tombstoned
    producers_of add_producer
is_serving = (refl, refl, refl)

lookup_finds_example :
    names (lit "a:1") (
      do_lookup as_stored
        (λ id. 400)
        395
        options
        (some (record { topic = some (lit "orders"); channel = none; node = none }))
        serving.db)
    ≡ true
unfolding ◌===◌
lookup_finds_example =
    lookup_finds as_stored (joined ++ (register_call remote (lit "a:1") (lit "orders") [] ∷ []))
      (lit "a:1") (lit "orders") peer (λ id. 400) 395 options none none is_serving.0 refl
      is_serving.1 (omega arith) is_serving.2

abbrev struck : Lookupd
struck =
    serve as_stored
      (tombstone_call 390 (
        some (record {
          topic = some (lit "orders");
          channel = none;
          node = some (lit "10.0.0.9:4151");
        })))
      serving

tombstone_hides_example :
    shows (lit "10.0.0.9:4151") (
      do_lookup as_stored
        (λ id. 400)
        395
        options
        (some (record { topic = some (lit "orders"); channel = none; node = none }))
        struck.db)
    ≡ false
unfolding ◌===◌
tombstone_hides_example =
    tombstone_hides as_stored (joined ++ (register_call remote (lit "a:1") (lit "orders") [] ∷ []))
      (lit "orders") (lit "10.0.0.9:4151") (λ id. 400) 395 390 options none none none refl
      (λ i. (omega arith, omega arith))
