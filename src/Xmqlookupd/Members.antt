-- ===== src/Xmqlookupd/Members.antt =====
-- Which ids are registered where, after the calls of the message daemons.
pub mod Unregister
use xmq.Base.{
  ◌+◌, ◌≡◌, refl, ap, sym, ◌∙◌, Bool, true, false, ◌&&◌, ◌||◌, not, Option, none, some, List, [],
  ◌∷◌, any, Bool-cases, Option-cases, inl, inr, ◌==◌, if◌then◌else◌, arith,
}
use xmq.Js.Text.{Text, lit, ◌===◌, ===_iff}
use xmq.Protocol.{is_valid_topic_name, is_valid_channel_name}
use xmq.Xmqlookupd.Dict.{MapOrder, get, is_some}
use xmq.Xmqlookupd.Registrations.{
  Registration, PeerInfo, RegistrationDb, same_registration, add_producer,
}
use xmq.Xmqlookupd.Registrations.Calls.{member-add_producer}
use xmq.Xmqlookupd.Registrations.Abstract.{contents}
use xmq.Xmqlookupd.Daemon.{
  Lookupd, start, Reply, served, refused, register, registered, add_copy, new_producer, topic_key,
  channel_key, check, Checked, denied, admitted,
}
use xmq.Xmqlookupd.History.{Call, serve_all}
use xmq.Xmqlookupd.History.Moves.{OwnPeers}
use xmq.Xmqlookupd.History.Daemons.{Checked-cases, admitted_known}
use xmq.Xmqlookupd.History.Copies.{Copies, served-Copies}

-- The id is registered under `k`.
abbrev pub member : Lookupd → Registration → Text → Bool
member l k i = (contents l.db).member k i

-- `Register` and `Unregister` are served.
abbrev pub may_register : Text → Text → Text → Lookupd → Bool
may_register id topic channel l =
    not (id === [])
    && (is_some (get ◌===◌ id l.peers)
        && (is_valid_topic_name topic && ((channel === []) || is_valid_channel_name channel)))

abbrev pub is_served : Reply → Bool
is_served served = true
is_served _ = false

abbrev pub is_admitted : Checked → Bool
is_admitted (admitted info) = true
is_admitted (denied e) = false

pub check_lem :
    (id topic channel : Text) (l : Lookupd)
    → is_admitted (check id topic channel l) ≡ may_register id topic channel l
unfolding check
check_lem id topic channel l = elim (Option-cases (get ◌===◌ id l.peers)) [
  | inl e ↦ ground (arith, e)
  | inr (info, e) ↦ ground (arith, e)
]

-- The registrations that `Register` adds a producer to.
abbrev pub target : Text → Text → Registration → Bool
target topic channel k =
    same_registration (topic_key topic) k
    || (not (channel === []) && same_registration (channel_key topic channel) k)

member-registered :
    (topic channel : Text) (info : PeerInfo) (l : Lookupd) (k : Registration) (i : Text)
    → member (registered topic channel info l) k i
      ≡ ((target topic channel k && (info.id === i)) || member l k i)
unfolding registered add_copy
member-registered topic channel info l k i = ground (
  arith,
  member-add_producer k (topic_key topic) i (new_producer l.refs info) l.db,
  member-add_producer k (channel_key topic channel) i (new_producer l.refs info) l.db,
  member-add_producer k (topic_key topic) i (new_producer (l.refs + 1) info)
      (add_producer (channel_key topic channel) (new_producer l.refs info) l.db).1,
)

register-admitted :
    (remote id topic channel : Text) (l : Lookupd) (info : PeerInfo) (k : Registration) (i : Text)
    → info.id ≡ id
    → check id topic channel l ≡ admitted info
    → (is_served (register (some remote) id topic channel l).0 ≡ may_register id topic channel l)
      × (member (register (some remote) id topic channel l).1 k i ≡ (
          (may_register id topic channel l && (target topic channel k && (id === i)))
          || member l k i))
unfolding register
register-admitted remote id topic channel l info k i own g =
    let may : may_register id topic channel l ≡ true =
      sym (check_lem id topic channel l) ∙ ap is_admitted g in
    rw (g, register, may, sym own) (refl, member-registered topic channel info l k i)

-- In every state that calls lead to, `Register` from a caller whose address is known is served just if
-- the id is not empty and is that of a peer that identified itself and the names are valid, the
-- channel's if there is one. The id is
-- then registered under the topic, and under the channel if there is one, beside what was registered
-- before; a call that is refused registers nothing.
pub register_lem :
    (order : MapOrder) (cs : List Call) (remote id topic channel : Text) (k : Registration)
    (i : Text)
    → (is_served (register (some remote) id topic channel (serve_all order cs start)).0
        ≡ may_register id topic channel (serve_all order cs start))
      × (member (register (some remote) id topic channel (serve_all order cs start)).1 k i ≡ (
          (may_register id topic channel (serve_all order cs start)
            && (target topic channel k && (id === i)))
          || member (serve_all order cs start) k i))
unfolding register
register_lem order cs remote id topic channel k i =
    let l = serve_all order cs start in
    elim (Checked-cases (check id topic channel l)) [
      | inl (e, g) ↦
          let may : may_register id topic channel l ≡ false =
            sym (check_lem id topic channel l) ∙ ap is_admitted g in
          rw (g, register, may) (refl, refl)
      | inr (info, g) ↦
          let own =
            (served-Copies order cs).own_peers id info (admitted_known id topic channel l info g) in
          register-admitted remote id topic channel l info k i own g
    ]
