-- ===== src/Xmqlookupd/Members/Unregister.antt =====
-- The removal of ids from the registrations, and of the registrations that lose their last id.
use xmq.Base.{
  ◌≡◌, refl, ap, sym, ◌∙◌, Bool, true, false, ◌&&◌, ◌||◌, not, some, List, [], ◌∷◌, Bool-cases,
  Option-cases, inl, inr, ◌==◌, if◌then◌else◌, arith, length,
}
use xmq.Js.Text.{Text, lit, ◌===◌, ===_iff}
use xmq.Protocol.{
  is_valid_topic_name, is_valid_name, matches_name, is_name_rest, is_name_char, ephemeral,
}
use xmq.Xmqlookupd.Dict.{MapOrder, get, is_some, delete}
use xmq.Xmqlookupd.Registrations.{
  PeerInfo, Registration, ProducerMap, RegistrationDb, same_registration, remove_producer,
  remove_registration, find_registrations, is_match,
}
use xmq.Xmqlookupd.Registrations.Calls.{
  member-remove_producer, member-delete, same_registration_iff, producers_of-none, producers_of-put,
  left_by-none, left_by-some,
}
use xmq.Xmqlookupd.Registrations.Abstract.{contents}
use xmq.Xmqlookupd.Registrations.Queries.{among, find_registrations_lem}
use xmq.Xmqlookupd.Daemon.{
  Lookupd, start, unregister, unregistered, drop_producer, drop_all, has_suffix, topic_key,
  channel_key, check, admitted,
}
use xmq.Xmqlookupd.History.{Call, serve_all}
use xmq.Xmqlookupd.History.Daemons.{Checked-cases, admitted_known}
use xmq.Xmqlookupd.History.Copies.{served-Copies}
use xmq.Xmqlookupd.Members.{member, may_register, is_served, is_admitted, check_lem}

length_none :
    (i : Text) (ps : ProducerMap) → (length ps == 0) ≡ true → is_some (get ◌===◌ i ps) ≡ false
length_none i [] h = refl
length_none i (p ∷ ps) h = absurd (ground (arith, h))

count_left :
    (k : Registration) (id : Text) (ps : ProducerMap) (db : RegistrationDb)
    → get same_registration k db ≡ some ps
    → (remove_producer k id db).1 ≡ length (delete ◌===◌ id ps)
unfolding remove_producer
count_left k id ps db e = ground (arith, e)

-- When no producer is left, there is none.
left_none :
    (j k : Registration) (i id : Text) (db : RegistrationDb)
    → ((remove_producer k id db).1 == 0) ≡ true
    → same_registration k j ≡ true
    → (contents (remove_producer k id db).2).member j i ≡ false
left_none j k i id db h same = elim (Option-cases (get same_registration k db)) [
  | inl e ↦
      ap (λ d. (contents d).member j i) (left_by-none k id db e)
      ∙ ground (
        arith,
        producers_of-none j db
            (ap (λ r. get same_registration r db) (sym ((same_registration_iff k j).0 same)) ∙ e),
      )
  | inr (ps, e) ↦
      let none_left : (length (delete ◌===◌ id ps) == 0) ≡ true =
        ap (λ n. n == 0) (sym (count_left k id ps db e)) ∙ h in
      ap (λ d. (contents d).member j i) (left_by-some k id ps db e)
      ∙ ground (
        arith,
        same,
        producers_of-put j k (delete ◌===◌ id ps) db,
        length_none i (delete ◌===◌ id ps) none_left,
      )
]

member-drop_producer :
    (j k : Registration) (name i id : Text) (db : RegistrationDb)
    → (contents (drop_producer k name id db)).member j i
      ≡ (not (same_registration k j && (id === i)) && (contents db).member j i)
unfolding drop_producer remove_registration
member-drop_producer j k name i id db = elim (Bool-cases ((remove_producer k id db).1 == 0)) [
  | inr e ↦ rw e (member-remove_producer j k i id db)
  | inl e ↦ elim (Bool-cases (has_suffix name ephemeral)) [
    | inr f ↦ rw (e, f) (member-remove_producer j k i id db)
    | inl f ↦
        rw (e, f)
          (ground (
            arith,
            member-delete j k i (remove_producer k id db).2,
            member-remove_producer j k i id db,
            left_none j k i id db e,
          ))
  ]
]

member-drop_all :
    (j : Registration) (rr : List Registration) (i id : Text) (db : RegistrationDb)
    → (contents (drop_all rr id db)).member j i
      ≡ (not (among j rr && (id === i)) && (contents db).member j i)
unfolding drop_all
member-drop_all j [] i id db = ground arith
member-drop_all j (r ∷ rr) i id db = ground (
  arith,
  member-remove_producer j r i id db,
  member-drop_all j rr i id (remove_producer r id db).2,
)

-- The registrations that `Unregister` takes a producer from: the channel, or without one the topic and
-- all of its channels.
abbrev pub cleared : Text → Text → Registration → Bool
cleared topic channel k =
    if channel === []
    then same_registration (topic_key topic) k
      || ((lit "channel" === k.category) && (k.key === topic))
    else same_registration (channel_key topic channel) k

not_star : (topic : Text) → is_valid_topic_name topic ≡ true → (topic === lit "*") ≡ false
unfolding is_valid_topic_name is_valid_name matches_name is_name_rest is_name_char
not_star topic valid = elim (Bool-cases (topic === lit "*")) [
  | inr e ↦ e
  | inl e ↦
      let no : is_valid_topic_name topic ≡ false =
        ap is_valid_topic_name ((===_iff topic (lit "*")).0 e) in
      absurd (ground (arith, valid, no))
]

channel_match :
    (topic : Text) (k : Registration)
    → is_valid_topic_name topic ≡ true
    → is_match (lit "channel") topic (lit "*") k
      ≡ ((lit "channel" === k.category) && (k.key === topic))
unfolding is_match
channel_match topic k valid = ground (arith, not_star topic valid)

pub member_present :
    (db : RegistrationDb) (k : Registration) (i : Text)
    → (contents db).present k ≡ false
    → (contents db).member k i ≡ false
member_present db k i h = elim (Option-cases (get same_registration k db)) [
  | inl e ↦ ground (arith, producers_of-none k db e)
  | inr (ps, e) ↦ absurd (ground (arith, h, e))
]

module _ (order : MapOrder) where
  member-unregistered :
      (topic channel i id : Text) (db : RegistrationDb) (k : Registration)
      → is_valid_topic_name topic ≡ true
      → (contents (unregistered order topic channel id db)).member k i
        ≡ (not (cleared topic channel k && (id === i)) && (contents db).member k i)
  unfolding unregistered
  member-unregistered topic channel i id db k valid =
      let channels = find_registrations order (lit "channel") topic (lit "*") db in
      elim (Bool-cases (channel === [])) [
        | inl e ↦ rw e (
            ground (
              arith,
              member-drop_producer k (topic_key topic) topic i id (drop_all channels id db),
              member-drop_all k channels i id db,
              find_registrations_lem order (lit "channel") topic (lit "*") db k,
              channel_match topic k valid,
              member_present db k i,
            ))
        | inr e ↦ rw e (member-drop_producer k (channel_key topic channel) channel i id db)
      ]

valid_topic :
    (id topic channel : Text) (l : Lookupd)
    → may_register id topic channel l ≡ true
    → is_valid_topic_name topic ≡ true
valid_topic id topic channel l h = ground (arith, h)

unregister-admitted :
    (order : MapOrder) (remote id topic channel : Text) (l : Lookupd) (info : PeerInfo)
    (k : Registration) (i : Text)
    → info.id ≡ id
    → check id topic channel l ≡ admitted info
    → (is_served (unregister order (some remote) id topic channel l).0
        ≡ may_register id topic channel l)
      × (member (unregister order (some remote) id topic channel l).1 k i ≡ (
          not (may_register id topic channel l && (cleared topic channel k && (id === i)))
          && member l k i))
unfolding unregister
unregister-admitted order remote id topic channel l info k i own g =
    let may : may_register id topic channel l ≡ true =
      sym (check_lem id topic channel l) ∙ ap is_admitted g in
    rw (g, unregister, may, sym own)
      (
        refl,
        member-unregistered order topic channel i info.id l.db k
            (valid_topic id topic channel l may),
      )

-- In every state that calls lead to, `Unregister` from a caller whose address is known is served just
-- when `Register` is. A call with a
-- channel then takes the id from that channel alone, and a call without one from the topic and from
-- all of its channels; no other id and no other registration loses a producer, also where an ephemeral
-- registration is removed, and a call that is refused takes nothing.
pub unregister_lem :
    (order : MapOrder) (cs : List Call) (remote id topic channel : Text) (k : Registration)
    (i : Text)
    → (is_served (unregister order (some remote) id topic channel (serve_all order cs start)).0
        ≡ may_register id topic channel (serve_all order cs start))
      × (member (unregister order (some remote) id topic channel (serve_all order cs start)).1 k i
          ≡ (not (
                may_register id topic channel (serve_all order cs start)
                && (cleared topic channel k && (id === i)))
              && member (serve_all order cs start) k i))
unfolding unregister
unregister_lem order cs remote id topic channel k i =
    let l = serve_all order cs start in
    elim (Checked-cases (check id topic channel l)) [
      | inl (e, g) ↦
          let may : may_register id topic channel l ≡ false =
            sym (check_lem id topic channel l) ∙ ap is_admitted g in
          rw (g, unregister, may) (refl, refl)
      | inr (info, g) ↦
          let own =
            (served-Copies order cs).own_peers id info (admitted_known id topic channel l info g) in
          unregister-admitted order remote id topic channel l info k i own g
    ]
