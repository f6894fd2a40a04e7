-- ===== src/Xmqlookupd/History/Moves.antt =====
-- Moves of three kinds: a change of the database that adds no producer, a new copy of a peer as a
-- producer, and a change of the peers. The loops over the database are made of the first.
use xmq.Base.{ℕ, ◌≡◌, some, List, [], ◌∷◌, if_elim}
use xmq.Js.Text.{Text, ◌===◌}
use xmq.Xmqlookupd.Dict.{get}
use xmq.Xmqlookupd.Registrations.{
  Registration, PeerInfo, RegistrationDb, tombstone, update_producer, remove_producer,
  remove_registration,
}
use xmq.Xmqlookupd.Registrations.Abstract.{
  Op, add_producer_op, remove_producer_op, remove_registration_op, tombstone_op, step,
}
use xmq.Xmqlookupd.Daemon.{Lookupd, add_copy, drop_producer, drop_all}
use xmq.Xmqlookupd.Admin.{remove_registrations, tombstone_places, Place}

abbrev pub AddsNone : Op → Type 0
AddsNone (add_producer_op k p) = ⊥
AddsNone _ = Unit

-- Every peer stands under its id.
abbrev pub OwnPeers : List (Text × PeerInfo) → Type 0
OwnPeers ps = (i : Text) (info : PeerInfo) → get ◌===◌ i ps ≡ some info → info.id ≡ i

-- No peer goes or changes the time of its last update.
abbrev pub Kept : List (Text × PeerInfo) → List (Text × PeerInfo) → Type 0
Kept ps qs =
    (i : Text) (info : PeerInfo)
    → get ◌===◌ i ps ≡ some info
    → (now : PeerInfo) × (get ◌===◌ i qs ≡ some now) × (now.last_update ≡ info.last_update)

pub data Move : Lookupd → Lookupd → Type 0 where
  change : (l : Lookupd) (op : Op) → AddsNone op → Move l (record l { db = step op l.db })
  copy :
      (l : Lookupd) (k : Registration) (i : Text) (info : PeerInfo)
      → get ◌===◌ i l.peers ≡ some info
      → Move l (add_copy k info l)
  meet :
      (l : Lookupd) (ps : List (Text × PeerInfo))
      → (OwnPeers l.peers → OwnPeers ps)
      → Kept l.peers ps
      → Move l (record l { peers = ps })

pub data Moves (l : Lookupd) : Lookupd → Type 0 where
  stay : Moves l l
  onward : {m n : Lookupd} → Moves l m → Move m n → Moves l n

pub Moves-trans : {l m n : Lookupd} → Moves l m → Moves m n → Moves l n
Moves-trans h stay = h
Moves-trans h (onward k v) = onward (Moves-trans h k) v

pub one : {l m : Lookupd} → Move l m → Moves l m
one v = onward stay v

abbrev pub with_db : Lookupd → RegistrationDb → Lookupd
with_db l db = record l { db = db }

-- A change of the database by one call of it.
pub changed :
    (l : Lookupd) (op : Op)
    → AddsNone op
    → (db : RegistrationDb) → Moves (with_db l db) (with_db l (step op db))
changed l op h db = one (change (with_db l db) op h)

pub drop_all-Moves :
    (l : Lookupd) (rr : List Registration) (id : Text) (db : RegistrationDb)
    → Moves (with_db l db) (with_db l (drop_all rr id db))
unfolding drop_all step
drop_all-Moves l [] id db = stay
drop_all-Moves l (r ∷ rr) id db =
    Moves-trans (changed l (remove_producer_op r id) tt db)
      (drop_all-Moves l rr id (remove_producer r id db).2)

pub drop_producer-Moves :
    (l : Lookupd) (k : Registration) (name id : Text) (db : RegistrationDb)
    → Moves (with_db l db) (with_db l (drop_producer k name id db))
unfolding drop_producer step
drop_producer-Moves l k name id db =
    let gone = changed l (remove_producer_op k id) tt db in
    if_elim (λ d. Moves (with_db l db) (with_db l d)) _ _ _
      (λ e. Moves-trans gone (changed l (remove_registration_op k) tt (remove_producer k id db).2))
      (λ e. gone)

pub remove_registrations-Moves :
    (l : Lookupd) (rr : List Registration) (db : RegistrationDb)
    → Moves (with_db l db) (with_db l (remove_registrations rr db))
unfolding remove_registrations step
remove_registrations-Moves l [] db = stay
remove_registrations-Moves l (r ∷ rr) db =
    Moves-trans (changed l (remove_registration_op r) tt db)
      (remove_registrations-Moves l rr (remove_registration r db))

pub tombstone_places-Moves :
    (l : Lookupd) (now : ℕ) (node : Text) (ps : List Place) (db : RegistrationDb)
    → Moves (with_db l db) (with_db l (tombstone_places now node ps db))
unfolding tombstone_places step
tombstone_places-Moves l now node [] db = stay
tombstone_places-Moves l now node ((k, p) ∷ ps) db =
    if_elim (λ d. Moves (with_db l db) (with_db l (tombstone_places now node ps d))) _ _ _
      (λ e.
        Moves-trans (changed l (tombstone_op k p.info.id now) tt db)
          (tombstone_places-Moves l now node ps (update_producer k p.info.id (tombstone now) db)))
      (λ e. tombstone_places-Moves l now node ps db)
