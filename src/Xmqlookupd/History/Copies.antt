-- ===== src/Xmqlookupd/History/Copies.antt =====
-- The producers of the database as copies of the peers.
use xmq.Base.{
  ℕ, ◌+◌, ◌<◌, ◌≤◌, ◌≡◌, refl, ap, ◌∙◌, some, List, [], All-weaken, ◌==◌, if◌then◌else◌, arith,
}
use xmq.Js.Text.{Text, ◌===◌}
use xmq.Xmqlookupd.Dict.{MapOrder, get}
use xmq.Xmqlookupd.Registrations.{
  Registration, PeerInfo, Producer, RegistrationDb, tombstone, set_raft_state,
}
use xmq.Xmqlookupd.Registrations.Abstract.{
  Op, add_registration_op, add_producer_op, remove_producer_op, remove_registration_op,
  tombstone_op, set_raft_state_op, step,
}
use xmq.Xmqlookupd.Registrations.Keyed.{AllDb, Allowed, step-AllDb}
use xmq.Xmqlookupd.Daemon.{Lookupd, start, new_producer, add_copy}
use xmq.Xmqlookupd.History.{Call, serve_all}
use xmq.Xmqlookupd.History.Moves.{
  AddsNone, OwnPeers, Kept, Move, change, copy, meet, Moves, stay, onward,
}
use xmq.Xmqlookupd.History.Served.{serve_all-Moves}

-- A producer is a copy of a peer that is known, with the time of the peer's last update, and its pointer
-- has been given out for this registration.
pub record IsCopy (ps : List (Text × PeerInfo)) (refs : ℕ) (owner : ℕ → Registration)
    (k : Registration) (e : Text × Producer) : Type 0 where
  pub own_id : e.1.info.id ≡ e.0
  pub peer : PeerInfo
  pub known : get ◌===◌ e.1.info.id ps ≡ some peer
  pub same_time : peer.last_update ≡ e.1.info.last_update
  pub given : e.1.ref < refs
  pub owned : owner e.1.ref ≡ k

pub record Copies (l : Lookupd) : Type 0 where
  pub own_peers : OwnPeers l.peers
  pub owner : ℕ → Registration
  pub copies : AllDb (IsCopy l.peers l.refs owner) l.db

pub AllDb-weaken :
    (P Q : Registration → Text × Producer → Type 0)
    → ((k : Registration) (e : Text × Producer) → P k e → Q k e)
    → (db : RegistrationDb) → AllDb P db
    → AllDb Q db
AllDb-weaken P Q f db h = All-weaken db (λ e i. All-weaken e.1 (f e.0) i) h

IsCopy-later :
    (ps qs : List (Text × PeerInfo)) (n m : ℕ) (f g : ℕ → Registration)
    → Kept ps qs
    → n ≤ m
    → ((r : ℕ) → r < n → g r ≡ f r)
    → (k : Registration) (e : Text × Producer) → IsCopy ps n f k e
    → IsCopy qs m g k e
IsCopy-later ps qs n m f g kept le same k e c =
    let (now, known, time) = kept e.1.info.id c.peer c.known in
    record {
      own_id = c.own_id;
      peer = now;
      known = known;
      same_time = time ∙ c.same_time;
      given = omega (arith, c.given);
      owned = same e.1.ref c.given ∙ c.owned;
    }

pub change-Allowed :
    (ps : List (Text × PeerInfo)) (n : ℕ) (owner : ℕ → Registration) (op : Op)
    → AddsNone op
    → Allowed (IsCopy ps n owner) op
unfolding Allowed tombstone set_raft_state
change-Allowed ps n owner (add_registration_op k) h = tt
change-Allowed ps n owner (add_producer_op k p) h = absurd h
change-Allowed ps n owner (remove_producer_op k id) h = tt
change-Allowed ps n owner (remove_registration_op k) h = tt
change-Allowed ps n owner (tombstone_op k id now) h = λ i p c. record {
  own_id = c.own_id;
  peer = c.peer;
  known = c.known;
  same_time = c.same_time;
  given = c.given;
  owned = c.owned;
}
change-Allowed ps n owner (set_raft_state_op k id state) h = λ i p c. record {
  own_id = c.own_id;
  peer = c.peer;
  known = c.known;
  same_time = c.same_time;
  given = c.given;
  owned = c.owned;
}

-- The pointers with one more.
give : (ℕ → Registration) → ℕ → Registration → ℕ → Registration
give owner n k r = if r == n then k else owner r

new-IsCopy :
    (l : Lookupd) (k : Registration) (i : Text) (info : PeerInfo)
    → get ◌===◌ i l.peers ≡ some info
    → (c : Copies l)
    → IsCopy l.peers (l.refs + 1) (give c.owner l.refs k) k (info.id, new_producer l.refs info)
unfolding give
new-IsCopy l k i info there c = record {
  own_id = refl;
  peer = info;
  known = ap (λ j. get ◌===◌ j l.peers) (c.own_peers i info there) ∙ there;
  same_time = refl;
  given = omega arith;
  owned = ground arith;
}

Move-Copies : {l m : Lookupd} → Move l m → Copies l → Copies m
unfolding add_copy step give Allowed
Move-Copies (change l op h) c = record {
  own_peers = c.own_peers;
  owner = c.owner;
  copies =
      step-AllDb (IsCopy l.peers l.refs c.owner) op l.db
        (change-Allowed l.peers l.refs c.owner op h) c.copies;
}
Move-Copies (copy l k i info there) c = record {
  own_peers = c.own_peers;
  owner = give c.owner l.refs k;
  copies =
      step-AllDb (IsCopy l.peers (l.refs + 1) (give c.owner l.refs k))
        (add_producer_op k (new_producer l.refs info)) l.db (new-IsCopy l k i info there c)
        (AllDb-weaken _ _
          (IsCopy-later l.peers l.peers l.refs (l.refs + 1) c.owner (give c.owner l.refs k)
            (λ j x e. (x, e, refl)) (omega arith) (λ r h. ground arith))
          l.db c.copies);
}
Move-Copies (meet l ps own kept) c = record {
  own_peers = own c.own_peers;
  owner = c.owner;
  copies =
      AllDb-weaken _ _
        (IsCopy-later l.peers ps l.refs l.refs c.owner c.owner kept (omega arith) (λ r h. refl))
        l.db c.copies;
}

pub Moves-Copies : {l m : Lookupd} → Moves l m → Copies l → Copies m
Moves-Copies stay c = c
Moves-Copies (onward h v) c = Move-Copies v (Moves-Copies h c)

-- Whatever calls are made on a daemon that has just started.
pub served-Copies : (order : MapOrder) (cs : List Call) → Copies (serve_all order cs start)
served-Copies order cs = Moves-Copies (serve_all-Moves order cs start) (record {
  own_peers = λ i info e. absurd (cc);
  owner = λ r. record { category = []; key = []; sub_key = [] };
  copies = tt;
})
