-- ===== src/Xmqlookupd/Registrations/Abstract.antt =====
-- The database by its specification: which registrations there are, and which ids each has.
use xmq.Base.{ℕ, ◌≡◌, refl, ap, ◌∙◌, Bool, ◌&&◌, ◌||◌, not, List, [], ◌∷◌, arith}
use xmq.Js.Text.{Text, ◌===◌}
use xmq.Xmqlookupd.Dict.{get, is_some}
use xmq.Xmqlookupd.Registrations.{
  Registration, Producer, RegistrationDb, same_registration, producers_of, add_registration,
  add_producer, remove_producer, remove_registration, update_producer, tombstone, set_raft_state,
}
use xmq.Xmqlookupd.Registrations.Calls.{
  get-add_registration, producers_of-add_registration, present-add_producer, member-add_producer,
  present-remove_producer, member-remove_producer, present-delete, member-delete,
  present-update_producer, member-update_producer,
}

-- The calls that change the database.
pub data Op : Type 0 where
  add_registration_op : Registration → Op
  add_producer_op : Registration → Producer → Op
  remove_producer_op : Registration → Text → Op
  remove_registration_op : Registration → Op
  tombstone_op : Registration → Text → ℕ → Op
  set_raft_state_op : Registration → Text → Text → Op

unfoldable pub step : Op → RegistrationDb → RegistrationDb
step (add_registration_op k) db = add_registration k db
step (add_producer_op k p) db = (add_producer k p db).1
step (remove_producer_op k id) db = (remove_producer k id db).2
step (remove_registration_op k) db = remove_registration k db
step (tombstone_op k id now) db = update_producer k id (tombstone now) db
step (set_raft_state_op k id state) db = update_producer k id (set_raft_state state) db

-- A registration is there or not, and has ids.
pub record Contents : Type 0 where
  pub present : Registration → Bool
  pub member : Registration → Text → Bool

abbrev pub contents : RegistrationDb → Contents
contents db = record {
  present = λ j. is_some (get same_registration j db);
  member = λ j i. is_some (get ◌===◌ i (producers_of j db));
}

-- A tombstone and a state of the peer change neither.
abbrev pub specified : Op → Contents → Contents
specified (add_registration_op k) c = record c {
  present = λ j. same_registration k j || c.present j;
}
specified (add_producer_op k p) c = record {
  present = λ j. same_registration k j || c.present j;
  member = λ j i. (same_registration k j && (p.info.id === i)) || c.member j i;
}
specified (remove_producer_op k id) c = record c {
  member = λ j i. not (same_registration k j && (id === i)) && c.member j i;
}
specified (remove_registration_op k) c = record {
  present = λ j. not (same_registration k j) && c.present j;
  member = λ j i. not (same_registration k j) && c.member j i;
}
specified (tombstone_op k id now) c = c
specified (set_raft_state_op k id state) c = c

step-contents : (op : Op) (db : RegistrationDb) → contents (step op db) ≡ specified op (contents db)
unfolding step remove_registration
step-contents (add_registration_op k) db = λ t. record {
  present = λ j. get-add_registration j k db t;
  member = λ j i. is_some (get ◌===◌ i (producers_of-add_registration j k db t));
}
step-contents (add_producer_op k p) db = λ t. record {
  present = λ j. present-add_producer j k p db t;
  member = λ j i. member-add_producer j k i p db t;
}
step-contents (remove_producer_op k id) db = λ t. record {
  present = λ j. present-remove_producer j k id db t;
  member = λ j i. member-remove_producer j k i id db t;
}
step-contents (remove_registration_op k) db =
    λ t. record { present = λ j. present-delete j k db t; member = λ j i. member-delete j k i db t }
step-contents (tombstone_op k id now) db = λ t. record {
  present = λ j. present-update_producer j k id (tombstone now) db t;
  member = λ j i. member-update_producer j k i id (tombstone now) db t;
}
step-contents (set_raft_state_op k id state) db = λ t. record {
  present = λ j. present-update_producer j k id (set_raft_state state) db t;
  member = λ j i. member-update_producer j k i id (set_raft_state state) db t;
}

unfoldable pub run : List Op → RegistrationDb → RegistrationDb
run [] db = db
run (op ∷ ops) db = run ops (step op db)

abbrev pub run_specified : List Op → Contents → Contents
run_specified [] c = c
run_specified (op ∷ ops) c = run_specified ops (specified op c)

-- Whatever calls are made one after another, the database has the registrations, and each the ids,
-- that the specification of the calls gives: a registration and an id are there from the call that
-- adds them to the call that removes them, and no call changes any other.
pub run-refines_contents :
    (ops : List Op) (db : RegistrationDb) → contents (run ops db) ≡ run_specified ops (contents db)
unfolding run
run-refines_contents [] db = refl
run-refines_contents (op ∷ ops) db =
    run-refines_contents ops (step op db) ∙ ap (run_specified ops) (step-contents op db)

-- `AddProducer` says whether the id is new to the registration.
pub add_producer_says :
    (k : Registration) (p : Producer) (db : RegistrationDb)
    → (add_producer k p db).0 ≡ not ((contents db).member k p.info.id)
unfolding add_producer
add_producer_says k p db = ground (arith, producers_of-add_registration k k db)
