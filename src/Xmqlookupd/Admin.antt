-- ===== src/Xmqlookupd/Admin.antt =====
-- xmqlookupd/http.go: the requests of the admin server and of consumers. A request is `none` where its
-- query cannot be parsed, and otherwise its arguments, each of which may be missing.
use xmq.Base.{
  ℕ, Bool, false, not, Option, none, some, List, [], ◌∷◌, ◌++◌, map, any, keep, concat,
  if◌then◌else◌, ◌==◌,
}
use xmq.Js.Text.{Text, lit, ◌===◌}
use xmq.Js.Decimal.{show}
use xmq.Protocol.{is_valid_topic_name, is_valid_channel_name}
use xmq.Xmqlookupd.Dict.{MapOrder, get}
use xmq.Xmqlookupd.Registrations.{
  Registration, PeerInfo, Producer, ProducerMap, RegistrationDb, producers_of, tombstone,
  is_tombstoned, update_producer, set_raft_state, add_registration, remove_registration,
  need_filter, is_match, keys, sub_keys, filter, filter_by_active, producer_map_to_slice,
  find_registrations, find_producers, lookup_registrations,
}
use xmq.Xmqlookupd.Daemon.{Lookupd, client_key, topic_key, channel_key}

pub record Args : Type 0 where
  pub topic : Option Text
  pub channel : Option Text
  pub node : Option Text

-- `http_api.Err` with its status and text, or the answer
pub data Answer (A : Type 0) : Type 0 where
  failed : ℕ → Text → Answer A
  answered : A → Answer A

-- The arguments that every request but the list of topics needs, and then `f`.
unfoldable pub with_topic : {A : Type 0} → Option Args → (Args → Text → Answer A) → Answer A
with_topic none f = failed 400 (lit "INVALID_REQUEST")
with_topic (some a) f = elim a.topic [
  | none ↦ failed 400 (lit "MISSING_ARG_TOPIC")
  | some topic ↦ f a topic
]

-- `GetTopicChannelArgs`
unfoldable pub with_channel : {A : Type 0} → Option Args → (Text → Text → Answer A) → Answer A
with_channel {A} args f = with_topic args λ a topic.
    let rest : Answer A = elim a.channel [
      | none ↦ failed 400 (lit "MISSING_ARG_CHANNEL")
      | some channel ↦
          if not (is_valid_channel_name channel)
          then failed 400 (lit "INVALID_ARG_CHANNEL")
          else f topic channel
    ] in
    if not (is_valid_topic_name topic) then failed 400 (lit "INVALID_ARG_TOPIC") else rest

unfoldable pub remove_registrations : List Registration → RegistrationDb → RegistrationDb
remove_registrations [] db = db
remove_registrations (r ∷ rr) db = remove_registrations rr (remove_registration r db)

unfoldable pub do_create_topic : Option Args → RegistrationDb → Answer RegistrationDb
do_create_topic args db = with_topic args λ a topic.
    if not (is_valid_topic_name topic)
    then failed 400 (lit "INVALID_ARG_TOPIC")
    else answered (add_registration (topic_key topic) db)

unfoldable pub do_create_channel : Option Args → RegistrationDb → Answer RegistrationDb
do_create_channel args db = with_channel args λ topic channel.
    answered (add_registration (topic_key topic) (add_registration (channel_key topic channel) db))

-- `fmt.Sprintf("%s:%d", ...)`
unfoldable pub address : PeerInfo → Text
address p = p.broadcast_address ++ (lit ":" ++ show p.http_port)

-- A producer that was found, and the registration where it stands.
abbrev pub Place : Type 0
Place = Registration × Producer

unfoldable pub new_places : List Place → List Text → List Place
new_places [] found = []
new_places ((k, p) ∷ ps) found =
    let seen = any (λ i. i === p.info.id) found in
    let rest = new_places ps (if seen then found else p.info.id ∷ found) in
    if seen then rest else (k, p) ∷ rest

unfoldable pub tombstone_places : ℕ → Text → List Place → RegistrationDb → RegistrationDb
tombstone_places now node [] db = db
tombstone_places now node ((k, p) ∷ ps) db =
    let struck = update_producer k p.info.id (tombstone now) db in
    tombstone_places now node ps (if address p.info === node then struck else db)

-- The state that the peer's last ping told, if the peer is known.
unfoldable pub state_of : Producer → Lookupd → Text
state_of p l = elim (get ◌===◌ p.info.id l.peers) [
  | none ↦ p.info.raft_state
  | some info ↦ info.raft_state
]

-- What `getNodes` says of a peer.
pub record Node : Type 0 where
  pub info : PeerInfo
  pub topics : List Text
  pub tombstones : List Bool

-- The first of the producers that has the very pointer, if its tombstone still counts.
unfoldable pub tombstone_of : (Producer → Bool) → ℕ → List Producer → Bool
tombstone_of struck ref [] = false
tombstone_of struck ref (p ∷ ps) =
    let rest = tombstone_of struck ref ps in if p.ref == ref then struck p else rest

-- What a consumer is told of a topic.
pub record Found : Type 0 where
  pub channels : List Text
  pub producers : List PeerInfo

-- `InactiveProducerTimeout` and `TombstoneLifetime`
pub record Options : Type 0 where
  pub inactive_producer_timeout : ℕ
  pub tombstone_lifetime : ℕ

-- `clock` is the time at which a tombstone is read.
module _ (order : MapOrder) where
  unfoldable pub do_topics : RegistrationDb → List Text
  do_topics db = keys (find_registrations order (lit "topic") (lit "*") [] db)

  unfoldable pub do_channels : Option Args → RegistrationDb → Answer (List Text)
  do_channels args db =
      with_topic args
        λ a topic. answered (sub_keys (find_registrations order (lit "channel") topic (lit "*") db))

  unfoldable pub do_lookup : (Text → ℕ) → ℕ → Options → Option Args → RegistrationDb → Answer Found
  do_lookup clock now o args db = with_topic args λ a topic.
      elim (find_registrations order (lit "topic") topic [] db) [
        | [] ↦ failed 404 (lit "TOPIC_NOT_FOUND")
        | _ ∷ _ ↦ answered (record {
          channels = sub_keys (find_registrations order (lit "channel") topic (lit "*") db);
          producers =
              map (λ (p : Producer). p.info)
                (filter_by_active clock now o.inactive_producer_timeout o.tombstone_lifetime
                  (find_producers order (lit "topic") topic [] db));
        })
      ]

  unfoldable pub do_delete_topic : Option Args → RegistrationDb → Answer RegistrationDb
  do_delete_topic args db = with_topic args λ a topic.
      let left =
        remove_registrations (find_registrations order (lit "channel") topic (lit "*") db) db in
      answered (remove_registrations (find_registrations order (lit "topic") topic [] left) left)

  unfoldable pub do_delete_channel : Option Args → RegistrationDb → Answer RegistrationDb
  do_delete_channel args db = with_channel args λ topic channel.
      elim (find_registrations order (lit "channel") topic channel db) [
        | [] ↦ failed 404 (lit "CHANNEL_NOT_FOUND")
        | r ∷ rr ↦ answered (remove_registrations (r ∷ rr) db)
      ]

  -- `FindProducers`, with the place of each pointer
  unfoldable pub found_places : Text → Text → Text → RegistrationDb → List Place
  found_places category key sub_key db =
      let k : Registration = record { category = category; key = key; sub_key = sub_key } in
      let placed : Registration × ProducerMap → List Place =
        λ e. map (λ p. (e.0, p)) (producer_map_to_slice order e.1) in
      let matching =
        keep (λ (e : Registration × ProducerMap). is_match category key sub_key e.0)
          (order.visit db) in
      if not (need_filter key sub_key)
      then placed (k, producers_of k db)
      else new_places (concat (map placed matching)) []

  unfoldable pub do_tombstone_topic_producer :
      ℕ → Option Args → RegistrationDb → Answer RegistrationDb
  do_tombstone_topic_producer now args db = with_topic args λ a topic. elim a.node [
    | none ↦ failed 400 (lit "MISSING_ARG_NODE")
    | some node ↦ answered (tombstone_places now node (found_places (lit "topic") topic [] db) db)
  ]

  unfoldable pub node_of : (Text → ℕ) → Options → RegistrationDb → Producer → Node
  node_of clock o db p =
      let topics =
        keys (filter (lit "topic") (lit "*") [] (lookup_registrations order p.info.id db)) in
      record {
        info = p.info;
        topics = topics;
        tombstones =
            map
              (λ t.
                tombstone_of (λ tp. is_tombstoned (clock tp.info.id) o.tombstone_lifetime tp) p.ref
                  (find_producers order (lit "topic") t [] db))
              topics;
      }

  -- The state of a peer goes into the producer of the clients, and into the answer.
  unfoldable pub nodes_of : (Text → ℕ) → Options → List Producer → Lookupd → List Node × Lookupd
  nodes_of clock o [] l = ([], l)
  nodes_of clock o (p ∷ ps) l =
      let state = state_of p l in
      let q = set_raft_state state p in
      let after : Lookupd = record l {
        db = update_producer client_key p.info.id (set_raft_state state) l.db;
      } in
      let (ns, m) = nodes_of clock o ps after in
      (record (node_of clock o l.db p) { info = q.info } ∷ ns, m)

  unfoldable pub get_nodes : (Text → ℕ) → ℕ → Options → Lookupd → List Node × Lookupd
  get_nodes clock now o l =
      nodes_of clock o
        (filter_by_active clock now o.inactive_producer_timeout 0
          (find_producers order (lit "client") [] [] l.db))
        l
