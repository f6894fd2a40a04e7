-- ===== src/Xmqlookupd/Daemon.antt =====
-- xmqlookupd/grpc.go: the calls of the message daemons. `peers` and the database are all that the calls
-- change. A call runs alone; `remote` is the address that gRPC knows of the caller, if it does, and `now`
-- the time. Of the answer, only whether the call is served is modelled.
use xmq.Base.{
  ℕ, ◌+◌, ◌-◌, Bool, false, ◌&&◌, ◌||◌, not, Option, none, some, List, [], ◌∷◌, ◌++◌, drop, leb,
  ◌==◌, if◌then◌else◌, length,
}
use xmq.Js.Text.{Text, lit, ◌===◌}
use xmq.Protocol.{is_valid_topic_name, is_valid_channel_name, ephemeral}
use xmq.Xmqlookupd.Dict.{MapOrder, get, put}
use xmq.Xmqlookupd.Registrations.{
  Registration, PeerInfo, Producer, RegistrationDb, new_db, add_producer, remove_producer,
  remove_registration, find_registrations,
}

-- `refs` counts the pointers to copies of peers that have been given out.
pub record Lookupd : Type 0 where
  pub peers : List (Text × PeerInfo)
  pub db : RegistrationDb
  pub refs : ℕ

abbrev pub start : Lookupd
start = record { peers = []; db = new_db; refs = 0 }

-- A call is served, is refused with a text in its reply, fails with a status, or has no reply at all
-- after a panic.
pub data Reply : Type 0 where
  served : Reply
  refused : Text → Reply
  internal : Reply
  no_reply : Reply

abbrev pub client_key : Registration
client_key = record { category = lit "client"; key = []; sub_key = [] }

abbrev pub topic_key : Text → Registration
topic_key topic = record { category = lit "topic"; key = topic; sub_key = [] }

abbrev pub channel_key : Text → Text → Registration
channel_key topic channel = record { category = lit "channel"; key = topic; sub_key = channel }

-- `&Producer{peerInfo: &protocol.PeerInfo{...}}` with the fields of `info` but its state
abbrev pub new_producer : ℕ → PeerInfo → Producer
new_producer ref info = record {
  ref = ref;
  info = record info { raft_state = [] };
  tombstoned = false;
  tombstoned_at = 0;
}

unfoldable pub add_copy : Registration → PeerInfo → Lookupd → Lookupd
add_copy k info l = record l {
  db = (add_producer k (new_producer l.refs info) l.db).1;
  refs = l.refs + 1;
}

-- The peer that a ping is from, if its id is not empty and known.
unfoldable pub known_peer : Text → List (Text × PeerInfo) → Option PeerInfo
known_peer id peers = if id === [] then none else get ◌===◌ id peers

unfoldable pub ping : Option Text → Option PeerInfo → Lookupd → Reply × Lookupd
ping none peer l = (internal, l)
ping (some remote) none l = (served, l)
ping (some remote) (some p) l = elim (known_peer p.id l.peers) [
  | none ↦ (served, l)
  | some info ↦ (
    served,
    record l { peers = put ◌===◌ p.id (record info { raft_state = p.raft_state }) l.peers },
  )
]

-- A field that `Identify` requires is not there.
unfoldable pub lacks_fields : PeerInfo → Bool
lacks_fields p =
    (p.id === [])
    || ((p.broadcast_address === [])
        || ((p.tcp_port == 0) || ((p.http_port == 0) || (p.version === []))))

unfoldable pub identify : ℕ → Option Text → Option PeerInfo → Lookupd → Reply × Lookupd
identify now none peer l = (internal, l)
identify now (some remote) none l = (no_reply, l)
identify now (some remote) (some p) l =
    let info : PeerInfo = record p {
      remote_address = remote;
      last_update = now;
      raft_state = [];
    } in
    if lacks_fields p
    then (refused (lit "E_BAD_BODY:IDENTIFY missing fields"), l)
    else elim (get ◌===◌ p.id l.peers) [
      | some _ ↦ (refused (lit "E_INVALID:cannot IDENTIFY again"), l)
      | none ↦ (served, add_copy client_key info (record l { peers = put ◌===◌ p.id info l.peers }))
    ]

-- The tests of `Register` and `Unregister`, in their order.
pub data Checked : Type 0 where
  denied : Text → Checked
  admitted : PeerInfo → Checked

unfoldable pub check : Text → Text → Text → Lookupd → Checked
check id topic channel l =
    let no_topic =
      denied (lit "E_BAD_TOPIC:Unregister topic name '" ++ (topic ++ lit "' is not valid")) in
    let no_channel =
      denied (lit "E_BAD_CHANNEL:Unregister channel name '" ++ (channel ++ lit "' is not valid")) in
    if id === []
    then denied (lit "E_BAD_BODY:IDENTIFY missing fields")
    else elim (get ◌===◌ id l.peers) [
      | none ↦ denied (lit "E_INVALID:client must IDENTIFY")
      | some info ↦
          if not (is_valid_topic_name topic)
          then no_topic
          else if not (channel === []) && not (is_valid_channel_name channel)
          then no_channel
          else admitted info
    ]

-- `strings.HasSuffix`
unfoldable pub has_suffix : Text → Text → Bool
has_suffix s t = leb (length t) (length s) && (drop (length s - length t) s === t)

-- `AddProducer` of the channel, if there is one, and of the topic
unfoldable pub registered : Text → Text → PeerInfo → Lookupd → Lookupd
registered topic channel info l =
    let both = add_copy (topic_key topic) info (add_copy (channel_key topic channel) info l) in
    if channel === [] then add_copy (topic_key topic) info l else both

unfoldable pub register : Option Text → Text → Text → Text → Lookupd → Reply × Lookupd
register none id topic channel l = (internal, l)
register (some remote) id topic channel l = elim (check id topic channel l) [
  | denied e ↦ (refused e, l)
  | admitted info ↦ (served, registered topic channel info l)
]

-- The producer goes, and with the last one a registration whose name says that it is ephemeral.
unfoldable pub drop_producer : Registration → Text → Text → RegistrationDb → RegistrationDb
drop_producer k name id db =
    let (removed, left, after) = remove_producer k id db in
    if (left == 0) && has_suffix name ephemeral then remove_registration k after else after

unfoldable pub drop_all : List Registration → Text → RegistrationDb → RegistrationDb
drop_all [] id db = db
drop_all (r ∷ rr) id db = drop_all rr id (remove_producer r id db).2

module _ (order : MapOrder) where
  unfoldable pub unregistered : Text → Text → Text → RegistrationDb → RegistrationDb
  unregistered topic channel id db =
      let channels = find_registrations order (lit "channel") topic (lit "*") db in
      if channel === []
      then drop_producer (topic_key topic) topic id (drop_all channels id db)
      else drop_producer (channel_key topic channel) channel id db

  unfoldable pub unregister : Option Text → Text → Text → Text → Lookupd → Reply × Lookupd
  unregister none id topic channel l = (internal, l)
  unregister (some remote) id topic channel l = elim (check id topic channel l) [
    | denied e ↦ (refused e, l)
    | admitted info ↦ (served, record l { db = unregistered topic channel info.id l.db })
  ]
