-- ===== src/Xmqlookupd/Registrations/Tests.antt =====
-- The database after concrete calls.
use xmq.Base.{◌↔◌, true, ◌≡◌, refl, false, ◌&&◌, List, [], ◌∷◌, map}
use xmq.Js.Text.{Text, lit, ◌===◌}
use xmq.Xmqlookupd.Dict.{as_stored}
use xmq.Xmqlookupd.Registrations.{
  Registration, PeerInfo, Producer, producers_of, add_registration, add_producer, remove_producer,
  is_match, need_filter, find_registrations, find_producers, new_producers, producer_map_to_slice,
  lookup_registrations, new_db, same_registration, tombstone, is_tombstoned, filter_by_active,
}
use xmq.Xmqlookupd.Registrations.Abstract.{
  Op, add_producer_op, remove_producer_op, step, contents, run, run_specified, run-refines_contents,
}
use xmq.Xmqlookupd.Registrations.Producers.{listed, find_producers_lem}
use xmq.Xmqlookupd.Registrations.Queries.{among, find_registrations_lem}

abbrev orders : Registration
orders = record { category = lit "channel"; key = lit "orders"; sub_key = lit "mail" }

abbrev bills : Registration
bills = record { category = lit "channel"; key = lit "bills"; sub_key = lit "mail" }

abbrev peer : Text → PeerInfo
peer id = record {
  id = id;
  remote_address = lit "10.0.0.9:5";
  hostname = lit "node";
  broadcast_address = lit "10.0.0.9";
  tcp_port = 4150;
  http_port = 4151;
  version = lit "1.2";
  last_update = 100;
  raft_state = [];
}

abbrev first : Producer
first = record { ref = 0; info = peer (lit "10.0.0.1:1"); tombstoned = false; tombstoned_at = 0 }

abbrev second : Producer
second = record { ref = 1; info = peer (lit "10.0.0.2:1"); tombstoned = false; tombstoned_at = 0 }

abbrev calls : List Op
calls =
    add_producer_op orders first
    ∷ add_producer_op orders first
    ∷ add_producer_op bills second
    ∷ add_producer_op bills first
    ∷ remove_producer_op bills (lit "10.0.0.1:1")
    ∷ []

run-refines_contents_example : contents (run calls new_db) ≡ run_specified calls (contents new_db)
run-refines_contents_example = run-refines_contents calls new_db

find_registrations_lem_example :
    among orders
      (find_registrations as_stored (lit "channel") (lit "*") (lit "mail") (run calls new_db))
    ≡ ((contents (run calls new_db)).present orders
        && is_match (lit "channel") (lit "*") (lit "mail") orders)
find_registrations_lem_example =
    find_registrations_lem as_stored (lit "channel") (lit "*") (lit "mail") (run calls new_db)
      orders

test_lookup : lookup_registrations as_stored (lit "10.0.0.1:1") (run calls new_db) ≡ orders ∷ []
unfolding lookup_registrations run step add_registration add_producer remove_producer producers_of
    same_registration ◌===◌
test_lookup = refl

test_producers :
    map
      (λ (p : Producer). p.info.id)
      (find_producers as_stored (lit "channel") (lit "*") (lit "mail") (run calls new_db))
    ≡ lit "10.0.0.1:1" ∷ lit "10.0.0.2:1" ∷ []
unfolding find_producers run step add_registration add_producer remove_producer producers_of
    same_registration ◌===◌ need_filter is_match new_producers producer_map_to_slice
test_producers = refl

test_active :
    filter_by_active (λ id. 150) 150 60 30 (first ∷ tombstone 130 second ∷ []) ≡ first ∷ []
unfolding filter_by_active tombstone is_tombstoned
test_active = refl

find_producers_lem_example :
    (listed
        (lit "10.0.0.2:1")
        (find_producers as_stored (lit "channel") (lit "*") (lit "mail") (run calls new_db))
      ≡ true)
    ↔ ((r : Registration) × (is_match (lit "channel") (lit "*") (lit "mail") r ≡ true)
        × ((contents (run calls new_db)).member r (lit "10.0.0.2:1") ≡ true))
find_producers_lem_example =
    find_producers_lem as_stored calls (lit "channel") (lit "*") (lit "mail") (lit "10.0.0.2:1")
