-- ===== src/Xmqlookupd/Registrations.antt =====
-- xmqlookupd/registration_db.go: the producers of each registration. The lock makes each operation one
-- step. A producer is stored by its peer's id and has its own copy of the peer's fields; `ref` is the
-- pointer to that copy. Times are nanoseconds, and the time now is an argument.
mod Tests
pub mod Calls
pub mod Abstract
pub mod Queries
pub mod Keyed
pub mod Producers
pub mod Absent
pub mod Once
use xmq.Base.{
  ℕ, ◌-◌, Bool, true, false, ◌&&◌, ◌||◌, not, Option, none, some, List, [], ◌∷◌, map, ltb,
  if◌then◌else◌, any, keep, concat, length,
}
use xmq.Js.Text.{Text, lit, ◌===◌}
use xmq.Xmqlookupd.Dict.{MapOrder, get, has, put, delete}

pub record Registration : Type 0 where
  pub category : Text
  pub key : Text
  pub sub_key : Text

pub record PeerInfo : Type 0 where
  pub id : Text
  pub remote_address : Text
  pub hostname : Text
  pub broadcast_address : Text
  pub tcp_port : ℕ
  pub http_port : ℕ
  pub version : Text
  pub last_update : ℕ
  pub raft_state : Text

pub record Producer : Type 0 where
  pub ref : ℕ
  pub info : PeerInfo
  pub tombstoned : Bool
  pub tombstoned_at : ℕ

abbrev pub ProducerMap : Type 0
ProducerMap = List (Text × Producer)

abbrev pub RegistrationDb : Type 0
RegistrationDb = List (Registration × ProducerMap)

-- `==` on registrations
unfoldable pub same_registration : Registration → Registration → Bool
unfolding ◌===◌
same_registration r s =
    (r.category === s.category) && ((r.key === s.key) && (r.sub_key === s.sub_key))

abbrev pub new_db : RegistrationDb
new_db = []

-- `r.registrationMap[k]`: a registration that is missing has no producers
unfoldable pub producers_of : Registration → RegistrationDb → ProducerMap
unfolding same_registration
producers_of k db = elim (get same_registration k db) [ none ↦ [] | some ps ↦ ps ]

unfoldable pub tombstone : ℕ → Producer → Producer
tombstone now p = record p { tombstoned = true; tombstoned_at = now }

unfoldable pub is_tombstoned : ℕ → ℕ → Producer → Bool
is_tombstoned now lifetime p = p.tombstoned && ltb (now - p.tombstoned_at) lifetime

unfoldable pub add_registration : Registration → RegistrationDb → RegistrationDb
unfolding same_registration
add_registration k db = elim (get same_registration k db) [
  | none ↦ put same_registration k [] db
  | some _ ↦ db
]

-- Whether the producer is new, and the database.
unfoldable pub add_producer : Registration → Producer → RegistrationDb → Bool × RegistrationDb
unfolding add_registration producers_of ◌===◌
add_producer k p db =
    let added = add_registration k db in
    let producers = producers_of k added in
    elim (get ◌===◌ p.info.id producers) [
      | none ↦ (true, put same_registration k (put ◌===◌ p.info.id p producers) added)
      | some _ ↦ (false, added)
    ]

-- Whether there was such a producer, how many are left, and the database.
unfoldable pub remove_producer : Registration → Text → RegistrationDb → Bool × ℕ × RegistrationDb
unfolding same_registration ◌===◌
remove_producer k id db = elim (get same_registration k db) [
  | none ↦ (false, 0, db)
  | some producers ↦
      let left = delete ◌===◌ id producers in
      (has ◌===◌ id producers, length left, put same_registration k left db)
]

-- A change of a producer through a pointer to it.
unfoldable pub update_producer :
    Registration → Text → (Producer → Producer) → RegistrationDb → RegistrationDb
unfolding same_registration ◌===◌
update_producer k id f db = elim (get same_registration k db) [
  | none ↦ db
  | some producers ↦ elim (get ◌===◌ id producers) [
    | none ↦ db
    | some p ↦ put same_registration k (put ◌===◌ id (f p) producers) db
  ]
]

unfoldable pub set_raft_state : Text → Producer → Producer
set_raft_state state p = record p { info = record p.info { raft_state = state } }

unfoldable pub remove_registration : Registration → RegistrationDb → RegistrationDb
unfolding same_registration
remove_registration k db = delete same_registration k db

unfoldable pub need_filter : Text → Text → Bool
unfolding ◌===◌
need_filter key sub_key = (key === lit "*") || (sub_key === lit "*")

unfoldable pub is_match : Text → Text → Text → Registration → Bool
unfolding ◌===◌
is_match category key sub_key k =
    if not (category === k.category)
    then false
    else if not (key === lit "*") && not (k.key === key)
    then false
    else if not (sub_key === lit "*") && not (k.sub_key === sub_key)
    then false
    else true

unfoldable pub filter : Text → Text → Text → List Registration → List Registration
unfolding is_match
filter category key sub_key rr = keep (is_match category key sub_key) rr

unfoldable pub keys : List Registration → List Text
keys rr = map (λ (k : Registration). k.key) rr

unfoldable pub sub_keys : List Registration → List Text
sub_keys rr = map (λ (k : Registration). k.sub_key) rr

-- The producers whose ids have not been found yet.
unfoldable pub new_producers : List Producer → List Text → List Producer
new_producers [] found = []
new_producers (p ∷ ps) found =
    let seen = any (λ i. i === p.info.id) found in
    let rest = new_producers ps (if seen then found else p.info.id ∷ found) in
    if seen then rest else p ∷ rest

-- `clock` is the time at which `IsTombstoned` reads the clock for a producer.
unfoldable pub filter_by_active : (Text → ℕ) → ℕ → ℕ → ℕ → List Producer → List Producer
unfolding is_tombstoned
filter_by_active clock now inactivity_timeout tombstone_lifetime pp =
    keep
      (λ (p : Producer). not (
        ltb inactivity_timeout (now - p.info.last_update)
        || is_tombstoned (clock p.info.id) tombstone_lifetime p))
      pp

module _ (order : MapOrder) where
  unfoldable pub producer_map_to_slice : ProducerMap → List Producer
  producer_map_to_slice pm = map (λ (e : Text × Producer). e.1) (order.visit pm)

  unfoldable pub find_registrations : Text → Text → Text → RegistrationDb → List Registration
  unfolding need_filter is_match same_registration
  find_registrations category key sub_key db =
      let k : Registration = record { category = category; key = key; sub_key = sub_key } in
      if not (need_filter key sub_key)
      then (if has same_registration k db then k ∷ [] else [])
      else keep (is_match category key sub_key)
          (map (λ (e : Registration × ProducerMap). e.0) (order.visit db))

  unfoldable pub find_producers : Text → Text → Text → RegistrationDb → List Producer
  unfolding need_filter is_match producers_of producer_map_to_slice new_producers
  find_producers category key sub_key db =
      let k : Registration = record { category = category; key = key; sub_key = sub_key } in
      let matching =
        keep (λ (e : Registration × ProducerMap). is_match category key sub_key e.0)
          (order.visit db) in
      if not (need_filter key sub_key)
      then producer_map_to_slice (producers_of k db)
      else new_producers
          (concat (map (λ (e : Registration × ProducerMap). producer_map_to_slice e.1) matching)) []

  unfoldable pub lookup_registrations : Text → RegistrationDb → List Registration
  unfolding ◌===◌
  lookup_registrations id db =
      map (λ (e : Registration × ProducerMap). e.0)
        (keep (λ (e : Registration × ProducerMap). has ◌===◌ id e.1) (order.visit db))
