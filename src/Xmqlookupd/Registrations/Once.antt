-- ===== src/Xmqlookupd/Registrations/Once.antt =====
-- No registration has an id twice.
use xmq.Base.{◌≡◌, sym, subst, some, [], All, Option-cases, inl, inr}
use xmq.Js.Text.{Text, ◌===◌, ===_iff}
use xmq.Xmqlookupd.Dict.{
  get, put, delete, Distinct, Distinct-put, Distinct-delete, All-put, All-get, All-delete,
}
use xmq.Xmqlookupd.Registrations.{
  Registration, Producer, ProducerMap, RegistrationDb, same_registration, producers_of,
  add_registration, add_producer, update_producer, remove_registration, tombstone, set_raft_state,
}
use xmq.Xmqlookupd.Registrations.Calls.{
  same_registration_iff, left_by-none, left_by-some, update_cases, producers_of-none,
  producers_of-some,
}
use xmq.Xmqlookupd.Registrations.Abstract.{
  Op, add_registration_op, add_producer_op, remove_producer_op, remove_registration_op,
  tombstone_op, set_raft_state_op, step,
}

abbrev Once : Registration × ProducerMap → Type 0
Once e = Distinct ◌===◌ e.1

abbrev pub OnceDb : RegistrationDb → Type 0
OnceDb db = All Once db

put-OnceDb :
    (k : Registration) (pm : ProducerMap) (db : RegistrationDb)
    → Distinct ◌===◌ pm
    → OnceDb db
    → OnceDb (put same_registration k pm db)
put-OnceDb k pm db h i = All-put same_registration same_registration_iff Once k pm db h i

get-Once :
    (k : Registration) (pm : ProducerMap) (db : RegistrationDb)
    → OnceDb db
    → get same_registration k db ≡ some pm
    → Distinct ◌===◌ pm
get-Once k pm db h e = All-get same_registration same_registration_iff Once k pm db h e

pub producers_of-Once :
    (k : Registration) (db : RegistrationDb) → OnceDb db → Distinct ◌===◌ (producers_of k db)
producers_of-Once k db h = elim (Option-cases (get same_registration k db)) [
  | inl e ↦ subst (Distinct ◌===◌) (sym (producers_of-none k db e)) tt
  | inr (pm, e) ↦ subst (Distinct ◌===◌) (sym (producers_of-some k pm db e)) (get-Once k pm db h e)
]

add_registration-OnceDb :
    (k : Registration) (db : RegistrationDb) → OnceDb db → OnceDb (add_registration k db)
unfolding add_registration
add_registration-OnceDb k db h = elim (Option-cases (get same_registration k db)) [
  | inl e ↦ rw (e, add_registration) (put-OnceDb k [] db tt h)
  | inr (pm, e) ↦ rw (e, add_registration) h
]

add_producer-OnceDb :
    (k : Registration) (p : Producer) (db : RegistrationDb)
    → OnceDb db
    → OnceDb (add_producer k p db).1
unfolding add_producer
add_producer-OnceDb k p db h =
    let added = add_registration k db in
    let before = add_registration-OnceDb k db h in
    let producers = producers_of k added in
    elim (Option-cases (get ◌===◌ p.info.id producers)) [
      | inl e ↦
          rw (e, add_producer)
            (put-OnceDb k (put ◌===◌ p.info.id p producers) added
              (Distinct-put ◌===◌ ===_iff p.info.id p producers (producers_of-Once k added before))
              before)
      | inr (q, e) ↦ rw (e, add_producer) before
    ]

update_producer-OnceDb :
    (k : Registration) (id : Text) (f : Producer → Producer) (db : RegistrationDb)
    → OnceDb db
    → OnceDb (update_producer k id f db)
update_producer-OnceDb k id f db h = elim (update_cases k id f db) [
  | inl e ↦ subst OnceDb (sym e) h
  | inr (ps, p, e, g, u) ↦ subst OnceDb (sym u) (
      put-OnceDb k (put ◌===◌ id (f p) ps) db
        (Distinct-put ◌===◌ ===_iff id (f p) ps (get-Once k ps db h e)) h)
]

pub step-OnceDb : (op : Op) (db : RegistrationDb) → OnceDb db → OnceDb (step op db)
unfolding step remove_registration
step-OnceDb (add_registration_op k) db h = add_registration-OnceDb k db h
step-OnceDb (add_producer_op k p) db h = add_producer-OnceDb k p db h
step-OnceDb (remove_producer_op k id) db h = elim (Option-cases (get same_registration k db)) [
  | inl e ↦ subst OnceDb (sym (left_by-none k id db e)) h
  | inr (pm, e) ↦ subst OnceDb (sym (left_by-some k id pm db e)) (
      put-OnceDb k (delete ◌===◌ id pm) db
        (Distinct-delete ◌===◌ ===_iff id pm (get-Once k pm db h e)) h)
]
step-OnceDb (remove_registration_op k) db h = All-delete same_registration Once k db h
step-OnceDb (tombstone_op k id now) db h = update_producer-OnceDb k id (tombstone now) db h
step-OnceDb (set_raft_state_op k id state) db h =
    update_producer-OnceDb k id (set_raft_state state) db h
