-- ===== src/Xmqlookupd/Registrations/Keyed.antt =====
-- What holds of every producer, and where the producers of a registration stand.
use xmq.Base.{
  ◌≡◌, refl, subst, sym, Bool, true, false, none, some, List, [], ◌∷◌, All, Option-cases, inl, inr,
}
use xmq.Js.Text.{Text, ◌===◌, ===_iff}
use xmq.Xmqlookupd.Dict.{get, put, delete, All-put, All-delete, All-get}
use xmq.Xmqlookupd.Registrations.{
  Registration, Producer, ProducerMap, RegistrationDb, same_registration, producers_of,
  add_registration, add_producer, remove_registration, update_producer, tombstone, set_raft_state,
}
use xmq.Xmqlookupd.Registrations.Calls.{
  same_registration_iff, left_by-none, left_by-some, producers_of-none, producers_of-some,
  update_cases,
}
use xmq.Xmqlookupd.Registrations.Abstract.{
  Op, add_registration_op, add_producer_op, remove_producer_op, remove_registration_op,
  tombstone_op, set_raft_state_op, step, run,
}

-- `P` holds of each producer, with its registration and its id.
abbrev pub AllDb : (Registration → Text × Producer → Type 0) → RegistrationDb → Type 0
AllDb P db = All (λ (e : Registration × ProducerMap). All (P e.0) e.1) db

-- What a call must do for `P` to stay.
unfoldable pub Allowed : (Registration → Text × Producer → Type 0) → Op → Type 0
Allowed P (add_registration_op k) = Unit {0}
Allowed P (add_producer_op k p) = P k (p.info.id, p)
Allowed P (remove_producer_op k id) = Unit {0}
Allowed P (remove_registration_op k) = Unit {0}
Allowed P (tombstone_op k id now) =
    (i : Text) (p : Producer) → P k (i, p) → P k (i, tombstone now p)
Allowed P (set_raft_state_op k id state) =
    (i : Text) (p : Producer) → P k (i, p) → P k (i, set_raft_state state p)

module _ (P : Registration → Text × Producer → Type 0) where
  abbrev Entry : Registration × ProducerMap → Type 0
  Entry e = All (P e.0) e.1

  pub All-producers_of :
      (k : Registration) (db : RegistrationDb) → AllDb P db → All (P k) (producers_of k db)
  All-producers_of k db h = elim (Option-cases (get same_registration k db)) [
    | inl e ↦ subst (All (P k)) (sym (producers_of-none k db e)) tt
    | inr (pm, e) ↦
        subst (All (P k)) (sym (producers_of-some k pm db e))
          (All-get same_registration same_registration_iff Entry k pm db h e)
  ]

  AllDb-put :
      (k : Registration) (pm : ProducerMap) (db : RegistrationDb)
      → All (P k) pm
      → AllDb P db
      → AllDb P (put same_registration k pm db)
  AllDb-put k pm db h i = All-put same_registration same_registration_iff Entry k pm db h i

  AllDb-add_registration :
      (k : Registration) (db : RegistrationDb) → AllDb P db → AllDb P (add_registration k db)
  unfolding add_registration
  AllDb-add_registration k db h =
      elim (get same_registration k db)
        as (λ o. AllDb P (elim o as (λ _. RegistrationDb) [
          | none ↦ put same_registration k [] db
          | some _ ↦ db
        ])) [ none ↦ AllDb-put k [] db tt h | some _ ↦ h ]

  AllDb-add_producer :
      (k : Registration) (p : Producer) (db : RegistrationDb)
      → P k (p.info.id, p)
      → AllDb P db
      → AllDb P (add_producer k p db).1
  unfolding add_producer
  AllDb-add_producer k p db new h =
      let added : RegistrationDb = add_registration k db in
      let kept : AllDb P added = AllDb-add_registration k db h in
      let before : ProducerMap = producers_of k added in
      let with_it : RegistrationDb = put same_registration k (put ◌===◌ p.info.id p before) added in
      elim (get ◌===◌ p.info.id before)
        as (λ o.
          AllDb P
            (elim o as (λ _. Bool × RegistrationDb) [
              | none ↦ (true, with_it)
              | some _ ↦ (false, added)
            ]).1) [
              | none ↦
                  AllDb-put k (put ◌===◌ p.info.id p before) added
                    (All-put ◌===◌ ===_iff (P k) p.info.id p before new
                      (All-producers_of k added kept))
                    kept
              | some _ ↦ kept
            ]

  AllDb-update_producer :
      (k : Registration) (id : Text) (f : Producer → Producer) (db : RegistrationDb)
      → ((i : Text) (p : Producer) → P k (i, p) → P k (i, f p))
      → AllDb P db
      → AllDb P (update_producer k id f db)
  AllDb-update_producer k id f db keeps h = elim (update_cases k id f db) [
    | inl e ↦ subst (AllDb P) (sym e) h
    | inr (ps, p, e, g, u) ↦
        let before : All (P k) ps =
          All-get same_registration same_registration_iff Entry k ps db h e in
        subst (AllDb P) (sym u) (
          AllDb-put k (put ◌===◌ id (f p) ps) db
            (All-put ◌===◌ ===_iff (P k) id (f p) ps
              (keeps id p (All-get ◌===◌ ===_iff (P k) id p ps before g)) before)
            h)
  ]

  pub step-AllDb :
      (op : Op) (db : RegistrationDb) → Allowed P op → AllDb P db → AllDb P (step op db)
  unfolding step remove_registration Allowed
  step-AllDb (add_registration_op k) db a h = AllDb-add_registration k db h
  step-AllDb (add_producer_op k p) db a h = AllDb-add_producer k p db a h
  step-AllDb (remove_producer_op k id) db a h = elim (Option-cases (get same_registration k db)) [
    | inl e ↦ subst (AllDb P) (sym (left_by-none k id db e)) h
    | inr (pm, e) ↦ subst (AllDb P) (sym (left_by-some k id pm db e)) (
        AllDb-put k (delete ◌===◌ id pm) db
          (All-delete ◌===◌ (P k) id pm
            (All-get same_registration same_registration_iff Entry k pm db h e))
          h)
  ]
  step-AllDb (remove_registration_op k) db a h = All-delete same_registration Entry k db h
  step-AllDb (tombstone_op k id now) db a h = AllDb-update_producer k id (tombstone now) db a h
  step-AllDb (set_raft_state_op k id state) db a h =
      AllDb-update_producer k id (set_raft_state state) db a h

  pub run-AllDb :
      (ops : List Op) (db : RegistrationDb)
      → All (Allowed P) ops
      → AllDb P db
      → AllDb P (run ops db)
  unfolding run
  run-AllDb [] db a h = h
  run-AllDb (op ∷ ops) db (a, b) h = run-AllDb ops (step op db) b (step-AllDb op db a h)

-- Each producer stands under its own id.
abbrev pub Keyed : ProducerMap → Type 0
Keyed pm = All (λ (e : Text × Producer). e.1.info.id ≡ e.0) pm

abbrev OwnId : Registration → Text × Producer → Type 0
OwnId k e = e.1.info.id ≡ e.0

abbrev pub KeyedDb : RegistrationDb → Type 0
KeyedDb db = AllDb OwnId db

pub producers_of-Keyed :
    (k : Registration) (db : RegistrationDb) → KeyedDb db → Keyed (producers_of k db)
producers_of-Keyed k db h = All-producers_of OwnId k db h

keeps_ids : (ops : List Op) → All (Allowed OwnId) ops
unfolding Allowed tombstone set_raft_state
keeps_ids [] = tt
keeps_ids (add_registration_op k ∷ ops) = (tt, keeps_ids ops)
keeps_ids (add_producer_op k p ∷ ops) = (refl, keeps_ids ops)
keeps_ids (remove_producer_op k id ∷ ops) = (tt, keeps_ids ops)
keeps_ids (remove_registration_op k ∷ ops) = (tt, keeps_ids ops)
keeps_ids (tombstone_op k id now ∷ ops) = (λ i p h. h, keeps_ids ops)
keeps_ids (set_raft_state_op k id state ∷ ops) = (λ i p h. h, keeps_ids ops)

pub run-Keyed : (ops : List Op) (db : RegistrationDb) → KeyedDb db → KeyedDb (run ops db)
run-Keyed ops db h = run-AllDb OwnId ops db (keeps_ids ops) h
