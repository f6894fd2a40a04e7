-- ===== src/Xmqlookupd/History/Found.antt =====
-- What a consumer is told of a daemon that registered in time.
use xmq.Base.{
  ℕ, ◌+◌, ◌-◌, ◌≤◌, ◌≡◌, ap, sym, ◌∙◌, Bool, true, false, ◌&&◌, Option, some, List, [], ◌∷◌, any,
  Bool-cases, Option-cases, inl, inr, ltb, arith,
}
use xmq.Js.Text.{Text, lit, ◌===◌, ===_iff, ===_refl}
use xmq.Xmqlookupd.Dict.{any-found, All-get, MapOrder, get}
use xmq.Xmqlookupd.Registrations.{
  Registration, PeerInfo, Producer, RegistrationDb, producers_of, find_producers,
  find_registrations, is_tombstoned, need_filter, is_match,
}
use xmq.Xmqlookupd.Registrations.Abstract.{contents}
use xmq.Xmqlookupd.Registrations.Queries.{among, find_registrations_lem}
use xmq.Xmqlookupd.Registrations.Keyed.{All-producers_of}
use xmq.Xmqlookupd.Registrations.Absent.{any-slice}
use xmq.Xmqlookupd.Daemon.{Lookupd, start, topic_key}
use xmq.Xmqlookupd.Admin.{Answer, answered, failed, Found, Options, do_lookup, with_topic}
use xmq.Xmqlookupd.History.{Call, serve_all}
use xmq.Xmqlookupd.History.Copies.{IsCopy, Copies, served-Copies}
use xmq.Xmqlookupd.History.Silent.{names, active_one, named_active}
use xmq.Xmqlookupd.Members.{member}
use xmq.Xmqlookupd.Members.Unregister.{member_present}

pub found_by_key :
    (order : MapOrder) (q : Producer → Bool) (topic : Text) (db : RegistrationDb)
    → (topic === lit "*") ≡ false
    → any q (find_producers order (lit "topic") topic [] db)
      ≡ any (λ (e : Text × Producer). q e.1) (producers_of (topic_key topic) db)
unfolding find_producers need_filter
found_by_key order q topic db tame =
    rw tame (any-slice order q (lit "topic") (producers_of (topic_key topic) db))

names_some :
    (id : Text) (r : Registration) (rr : List Registration) (found : Found)
    → among r rr ≡ true
    → any (λ (p : PeerInfo). p.id === id) found.producers ≡ true
    → names id (elim rr as (λ _. Answer Found) [
      | [] ↦ failed 404 (lit "TOPIC_NOT_FOUND")
      | _ ∷ _ ↦ answered found
    ])
      ≡ true
unfolding names
names_some id r [] found there h = absurd (ground (arith, there))
names_some id r (x ∷ rr) found there h = h

module _ (order : MapOrder) (l : Lookupd) (c : Copies l) (id topic : Text)
    (registered : member l (topic_key topic) id ≡ true) where
  registered_present : (contents l.db).present (topic_key topic) ≡ true
  registered_present = elim (Bool-cases ((contents l.db).present (topic_key topic))) [
    | inl e ↦ e
    | inr e ↦ absurd (ground (arith, registered, member_present l.db (topic_key topic) id e))
  ]

  topic_found :
      among (topic_key topic) (find_registrations order (lit "topic") topic [] l.db) ≡ true
  unfolding is_match
  topic_found =
      find_registrations_lem order (lit "topic") topic [] l.db (topic_key topic)
      ∙ ground (arith, registered_present, ===_refl topic)

  module _ (info : PeerInfo) (clock : Text → ℕ) (now : ℕ) (o : Options)
      (known : get ◌===◌ id l.peers ≡ some info)
      (fresh : now ≤ info.last_update + o.inactive_producer_timeout)
      (clear : any
          (λ (e : Text × Producer).
            (e.1.info.id === id) && is_tombstoned (clock e.1.info.id) o.tombstone_lifetime e.1)
          (producers_of (topic_key topic) l.db)
        ≡ false) where
    active_there :
        (p : Producer)
        → get ◌===◌ id (producers_of (topic_key topic) l.db) ≡ some p
        → active_one clock now o id p ≡ true
    unfolding active_one
    active_there p e =
        let copied : IsCopy l.peers l.refs c.owner (topic_key topic) (id, p) =
          All-get ◌===◌ ===_iff (IsCopy l.peers l.refs c.owner (topic_key topic)) id p
            (producers_of (topic_key topic) l.db)
            (All-producers_of (IsCopy l.peers l.refs c.owner) (topic_key topic) l.db c.copies) e in
        let found : copied.peer ≡ info =
          cc (sym copied.known ∙ (ap (λ j. get ◌===◌ j l.peers) copied.own_id ∙ known)) in
        let time : info.last_update ≡ p.info.last_update =
          sym (ap (λ (x : PeerInfo). x.last_update) found) ∙ copied.same_time in
        let in_time : ltb o.inactive_producer_timeout (now - p.info.last_update) ≡ false =
          ground (arith, time, fresh) in
        let same : (p.info.id === id) ≡ true = (===_iff p.info.id id).1 copied.own_id in
        elim (Bool-cases (is_tombstoned (clock p.info.id) o.tombstone_lifetime p)) [
          | inr alive ↦ ground (arith, in_time, same, alive)
          | inl dead ↦ absurd (
              ground (
                arith,
                clear,
                any-found ◌===◌ ===_iff
                    (λ (x : Text × Producer).
                      (x.1.info.id === id)
                      && is_tombstoned (clock x.1.info.id) o.tombstone_lifetime x.1)
                    id p (producers_of (topic_key topic) l.db) e (ground (arith, same, dead)),
              ))
        ]

    named_there :
        (topic === lit "*") ≡ false
        → any (active_one clock now o id) (find_producers order (lit "topic") topic [] l.db) ≡ true
    named_there tame =
        found_by_key order (active_one clock now o id) topic l.db tame
        ∙ elim (Option-cases (get ◌===◌ id (producers_of (topic_key topic) l.db))) [
          | inl e ↦ absurd (ground (arith, registered, e))
          | inr (p, e) ↦
              any-found ◌===◌ ===_iff (λ (e : Text × Producer). active_one clock now o id e.1) id p
                (producers_of (topic_key topic) l.db) e (active_there p e)
        ]

-- In every state that calls lead to, a daemon that is registered for a topic other than "*" is named to
-- a consumer that asks for this topic no later than the timeout after its `Identify`, if no tombstone
-- that still counts stands on its producer of the topic.
pub lookup_finds :
    (order : MapOrder) (cs : List Call) (id topic : Text) (info : PeerInfo) (clock : Text → ℕ)
    (now : ℕ) (o : Options) (channel which : Option Text)
    → member (serve_all order cs start) (topic_key topic) id ≡ true
    → (topic === lit "*") ≡ false
    → get ◌===◌ id (serve_all order cs start).peers ≡ some info
    → now ≤ info.last_update + o.inactive_producer_timeout
    → any
        (λ (e : Text × Producer).
          (e.1.info.id === id) && is_tombstoned (clock e.1.info.id) o.tombstone_lifetime e.1)
        (producers_of (topic_key topic) (serve_all order cs start).db)
      ≡ false
    → names id (
        do_lookup order clock now o
          (some (record { topic = some topic; channel = channel; node = which }))
          (serve_all order cs start).db)
      ≡ true
unfolding do_lookup names with_topic
lookup_finds order cs id topic info clock now o channel which registered tame known fresh clear =
    let l = serve_all order cs start in
    let c = served-Copies order cs in
    names_some id (topic_key topic) _ _ (topic_found order l c id topic registered) (
      named_active clock now o id (find_producers order (lit "topic") topic [] l.db)
      ∙ named_there order l c id topic registered info clock now o known fresh clear tame)
