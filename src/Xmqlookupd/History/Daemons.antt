-- ===== src/Xmqlookupd/History/Daemons.antt =====
-- The calls of xmqlookupd/grpc.go as moves.
use xmq.Base.{
  ℕ, ◌≡◌, refl, ap, sym, ◌∙◌, Option, none, some, List, [], Bool-cases, Option-cases, ◌⊎◌, inl, inr,
  if_elim, arith,
}
use xmq.Js.Text.{Text, ◌===◌, ===_iff}
use xmq.Xmqlookupd.Dict.{MapOrder, get, put, get-put}
use xmq.Xmqlookupd.Registrations.{PeerInfo}
use xmq.Xmqlookupd.Daemon.{
  Lookupd, ping, identify, register, unregister, add_copy, registered, unregistered, lacks_fields,
  known_peer, client_key, topic_key, channel_key, check, Checked, denied, admitted,
}
use xmq.Xmqlookupd.History.Moves.{
  OwnPeers, Kept, copy, meet, Moves, stay, onward, Moves-trans, one, with_db, drop_all-Moves,
  drop_producer-Moves,
}

pub set_state-Kept :
    (i : Text) (info : PeerInfo) (state : Text) (ps : List (Text × PeerInfo))
    → get ◌===◌ i ps ≡ some info
    → Kept ps (put ◌===◌ i (record info { raft_state = state }) ps)
set_state-Kept i info state ps e j old g = elim (Bool-cases (i === j)) [
  | inl same ↦ (
    record info { raft_state = state },
    ground (arith, same, get-put ◌===◌ ===_iff j i (record info { raft_state = state }) ps),
    let found : info ≡ old = cc (sym e ∙ ap (λ k. get ◌===◌ k ps) ((===_iff i j).0 same) ∙ g) in
        ap (λ (x : PeerInfo). x.last_update) found,
  )
  | inr other ↦ (
    old,
    ground (arith, other, g, get-put ◌===◌ ===_iff j i (record info { raft_state = state }) ps),
    refl,
  )
]

pub OwnPeers-put :
    (i : Text) (info : PeerInfo) (ps : List (Text × PeerInfo))
    → info.id ≡ i
    → OwnPeers ps
    → OwnPeers (put ◌===◌ i info ps)
OwnPeers-put i info ps named own j x f = elim (Bool-cases (i === j)) [
  | inl same ↦
      let here : get ◌===◌ j (put ◌===◌ i info ps) ≡ some info =
        ground (arith, same, get-put ◌===◌ ===_iff j i info ps) in
      let found : info ≡ x = cc (sym here ∙ f) in
      ap (λ (y : PeerInfo). y.id) (sym found) ∙ (named ∙ (===_iff i j).0 same)
  | inr other ↦ own j x (ground (arith, other, f, get-put ◌===◌ ===_iff j i info ps))
]

pub put_new-Kept :
    (i : Text) (info : PeerInfo) (ps : List (Text × PeerInfo))
    → get ◌===◌ i ps ≡ none
    → Kept ps (put ◌===◌ i info ps)
put_new-Kept i info ps new j old g = elim (Bool-cases (i === j)) [
  | inl same ↦ absurd (cc (sym new ∙ (ap (λ k. get ◌===◌ k ps) ((===_iff i j).0 same) ∙ g)))
  | inr other ↦ (old, ground (arith, other, g, get-put ◌===◌ ===_iff j i info ps), refl)
]

pub get-put_same :
    (i : Text) (info : PeerInfo) (ps : List (Text × PeerInfo))
    → get ◌===◌ i (put ◌===◌ i info ps) ≡ some info
get-put_same i info ps = ground (arith, get-put ◌===◌ ===_iff i i info ps, ===_iff i i)

pub known_there :
    (id : Text) (info : PeerInfo) (ps : List (Text × PeerInfo))
    → known_peer id ps ≡ some info
    → get ◌===◌ id ps ≡ some info
unfolding known_peer
known_there id info ps e = ground (arith, e)

pub Checked-cases :
    (x : Checked) → ((e : Text) × (x ≡ denied e)) ⊎ ((info : PeerInfo) × (x ≡ admitted info))
Checked-cases (denied e) = inl (e, refl)
Checked-cases (admitted info) = inr (info, refl)

-- A peer that the checks admit is known.
pub admitted_known :
    (id topic channel : Text) (l : Lookupd) (info : PeerInfo)
    → check id topic channel l ≡ admitted info
    → get ◌===◌ id l.peers ≡ some info
unfolding check
admitted_known id topic channel l info g = elim (Option-cases (get ◌===◌ id l.peers)) [
  | inl e ↦ absurd (ground (arith, g, e))
  | inr (other, e) ↦ ground (arith, g, e)
]

pub ping-Moves :
    (remote : Option Text) (p : Option PeerInfo) (l : Lookupd) → Moves l (ping remote p l).1
unfolding ping
ping-Moves none p l = stay
ping-Moves (some remote) none l = stay
ping-Moves (some remote) (some p) l = elim (Option-cases (known_peer p.id l.peers)) [
  | inl e ↦ rw (e, ping) stay
  | inr (info, e) ↦
      let g : get ◌===◌ p.id l.peers ≡ some info = known_there p.id info l.peers e in
      rw (e, ping)
        (one (
          meet l _
            (λ own.
              OwnPeers-put p.id (record info { raft_state = p.raft_state }) l.peers
                (own p.id info g) own)
            (set_state-Kept p.id info p.raft_state l.peers g)))
]

pub identify-Moves :
    (now : ℕ) (remote : Option Text) (p : Option PeerInfo) (l : Lookupd)
    → Moves l (identify now remote p l).1
unfolding identify
identify-Moves now none p l = stay
identify-Moves now (some remote) none l = stay
identify-Moves now (some remote) (some p) l = elim (Bool-cases (lacks_fields p)) [
  | inl e ↦ rw e stay
  | inr e ↦ elim (Option-cases (get ◌===◌ p.id l.peers)) [
    | inl new ↦
        let info : PeerInfo = record p {
          remote_address = remote;
          last_update = now;
          raft_state = [];
        } in
        rw (e, new)
          (onward
            (one (
              meet l _ (λ own. OwnPeers-put p.id info l.peers refl own)
                (put_new-Kept p.id info l.peers new)))
            (copy _ client_key p.id info (get-put_same p.id info l.peers)))
    | inr (old, known) ↦ rw (e, known) stay
  ]
]

pub register-Moves :
    (remote : Option Text) (id topic channel : Text) (l : Lookupd)
    → Moves l (register remote id topic channel l).1
unfolding register registered add_copy
register-Moves none id topic channel l = stay
register-Moves (some remote) id topic channel l = elim (Checked-cases (check id topic channel l)) [
  | inl (e, g) ↦ rw (g, register) stay
  | inr (info, g) ↦
      let there = admitted_known id topic channel l info g in
      rw (g, register)
        (if_elim (Moves l) (channel === []) _ _ (λ _. one (copy l (topic_key topic) id info there))
          (λ _.
            onward (one (copy l (channel_key topic channel) id info there))
              (copy _ (topic_key topic) id info there)))
]

pub unregister-Moves :
    (order : MapOrder) (remote : Option Text) (id topic channel : Text) (l : Lookupd)
    → Moves l (unregister order remote id topic channel l).1
unfolding unregister unregistered
unregister-Moves order none id topic channel l = stay
unregister-Moves order (some remote) id topic channel l =
    elim (Checked-cases (check id topic channel l)) [
      | inl (e, g) ↦ rw (g, unregister) stay
      | inr (info, g) ↦
          rw (g, unregister)
            (if_elim (λ d. Moves l (with_db l d)) (channel === []) _ _
              (λ _.
                Moves-trans (drop_all-Moves l _ info.id l.db)
                  (drop_producer-Moves l (topic_key topic) topic info.id _))
              (λ _. drop_producer-Moves l (channel_key topic channel) channel info.id l.db))
    ]
