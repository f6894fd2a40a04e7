-- ===== src/Xmqlookupd/History.antt =====
-- The calls on a lookup daemon one after another, and what each does to the database and to the peers.
pub mod Moves
pub mod Requests
pub mod Daemons
pub mod Served
pub mod Copies
pub mod Silent
pub mod Found
pub mod Pointers
pub mod Places
pub mod Struck
pub mod Tests
use xmq.Base.{
  ℕ, ◌+◌, ◌≡◌, refl, ap, sym, ◌∙◌, subst, Bool, true, false, Option, none, some, List, [], ◌∷◌,
  ◌++◌, All, Bool-cases, Option-cases, inl, inr, if_elim, if◌then◌else◌, arith,
}
use xmq.Js.Text.{Text, lit, ◌===◌, ===_iff}
use xmq.Xmqlookupd.Dict.{MapOrder, get, put, get-put}
use xmq.Xmqlookupd.Registrations.{
  Registration, PeerInfo, Producer, RegistrationDb, new_db, tombstone, set_raft_state,
  update_producer, add_registration, add_producer, remove_producer, remove_registration,
  find_registrations,
}
use xmq.Xmqlookupd.Registrations.Abstract.{
  Op, add_registration_op, add_producer_op, remove_producer_op, remove_registration_op,
  tombstone_op, set_raft_state_op, step, run,
}
use xmq.Xmqlookupd.Daemon.{
  Lookupd, start, Reply, ping, identify, register, unregister, new_producer, add_copy, registered,
  drop_producer, drop_all, unregistered, client_key, topic_key, channel_key,
}
use xmq.Xmqlookupd.Admin.{
  Args, Answer, failed, answered, Options, do_create_topic, do_create_channel, do_delete_topic,
  do_delete_channel, do_tombstone_topic_producer, get_nodes, remove_registrations, tombstone_places,
}

-- The calls that change something, each with its time where it reads the clock.
pub data Call : Type 0 where
  ping_call : Option Text → Option PeerInfo → Call
  identify_call : ℕ → Option Text → Option PeerInfo → Call
  register_call unregister_call : Option Text → Text → Text → Text → Call
  create_topic_call create_channel_call delete_topic_call delete_channel_call : Option Args → Call
  tombstone_call : ℕ → Option Args → Call
  nodes_call : (Text → ℕ) → ℕ → Options → Call

abbrev answered_db : Lookupd → Answer RegistrationDb → Lookupd
answered_db l (failed status e) = l
answered_db l (answered db) = record l { db = db }

module _ (order : MapOrder) where
  unfoldable pub serve : Call → Lookupd → Lookupd
  serve (ping_call remote p) l = (ping remote p l).1
  serve (identify_call now remote p) l = (identify now remote p l).1
  serve (register_call remote id topic channel) l = (register remote id topic channel l).1
  serve (unregister_call remote id topic channel) l = (unregister order remote id topic channel l).1
  serve (create_topic_call args) l = answered_db l (do_create_topic args l.db)
  serve (create_channel_call args) l = answered_db l (do_create_channel args l.db)
  serve (delete_topic_call args) l = answered_db l (do_delete_topic order args l.db)
  serve (delete_channel_call args) l = answered_db l (do_delete_channel order args l.db)
  serve (tombstone_call now args) l =
      answered_db l (do_tombstone_topic_producer order now args l.db)
  serve (nodes_call clock now o) l = (get_nodes order clock now o l).1

  unfoldable pub serve_all : List Call → Lookupd → Lookupd
  serve_all [] l = l
  serve_all (c ∷ cs) l = serve_all cs (serve c l)
