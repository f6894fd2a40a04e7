-- ===== src/Xmqlookupd/Registrations/Calls.antt =====
-- What a lookup finds behind each call that changes the database.
use xmq.Base.{
  ◌≡◌, ◌⊎◌, ap, ◌∙◌, ◌↔◌, true, ◌&&◌, ◌||◌, not, none, some, [], if◌then◌else◌, Option-cases, inl,
  inr, arith,
}
use xmq.Js.Text.{Text, ◌===◌, ===_iff}
use xmq.Xmqlookupd.Dict.{get, put, delete, is_some, get-put, get-delete}
use xmq.Xmqlookupd.Registrations.{
  Registration, Producer, ProducerMap, RegistrationDb, same_registration, producers_of,
  add_registration, add_producer, remove_producer, update_producer,
}

pub same_registration_iff : (r s : Registration) → (same_registration r s ≡ true) ↔ (r ≡ s)
unfolding same_registration
same_registration_iff r s =
    ground (arith, ===_iff r.category s.category, ===_iff r.key s.key, ===_iff r.sub_key s.sub_key)

pub get_reg-put :
    (j k : Registration) (v : ProducerMap) (db : RegistrationDb)
    → get same_registration j (put same_registration k v db)
      ≡ (if same_registration k j then some v else get same_registration j db)
get_reg-put j k v db = get-put same_registration same_registration_iff j k v db

pub get_id-put :
    (i j : Text) (p : Producer) (ps : ProducerMap)
    → get ◌===◌ i (put ◌===◌ j p ps) ≡ (if j === i then some p else get ◌===◌ i ps)
get_id-put i j p ps = get-put ◌===◌ ===_iff i j p ps

pub producers_of-put :
    (j k : Registration) (v : ProducerMap) (db : RegistrationDb)
    → producers_of j (put same_registration k v db)
      ≡ (if same_registration k j then v else producers_of j db)
unfolding producers_of
producers_of-put j k v db = ground (arith, get_reg-put j k v db)

pub get-add_registration :
    (j k : Registration) (db : RegistrationDb)
    → is_some (get same_registration j (add_registration k db))
      ≡ (same_registration k j || is_some (get same_registration j db))
unfolding add_registration
get-add_registration j k db = ground (arith, get_reg-put j k [] db, same_registration_iff k j)

pub producers_of-add_registration :
    (j k : Registration) (db : RegistrationDb)
    → producers_of j (add_registration k db) ≡ producers_of j db
unfolding add_registration producers_of
producers_of-add_registration j k db =
    ground (arith, get_reg-put j k [] db, same_registration_iff k j)

pub present-add_producer :
    (j k : Registration) (p : Producer) (db : RegistrationDb)
    → is_some (get same_registration j (add_producer k p db).1)
      ≡ (same_registration k j || is_some (get same_registration j db))
unfolding add_producer
present-add_producer j k p db = ground (
  arith,
  get-add_registration j k db,
  get_reg-put j k (put ◌===◌ p.info.id p (producers_of k (add_registration k db)))
      (add_registration k db),
)

pub member-add_producer :
    (j k : Registration) (i : Text) (p : Producer) (db : RegistrationDb)
    → is_some (get ◌===◌ i (producers_of j (add_producer k p db).1))
      ≡ ((same_registration k j && (p.info.id === i)) || is_some (get ◌===◌ i (producers_of j db)))
unfolding add_producer
member-add_producer j k i p db = ground (
  arith,
  producers_of-add_registration j k db,
  producers_of-add_registration k k db,
  producers_of-put j k (put ◌===◌ p.info.id p (producers_of k (add_registration k db)))
      (add_registration k db),
  get_id-put i p.info.id p (producers_of k (add_registration k db)),
  same_registration_iff k j,
  ===_iff p.info.id i,
)

pub left_by-none :
    (k : Registration) (id : Text) (db : RegistrationDb)
    → get same_registration k db ≡ none
    → (remove_producer k id db).2 ≡ db
unfolding remove_producer
left_by-none k id db e = ground (arith, e)

pub left_by-some :
    (k : Registration) (id : Text) (ps : ProducerMap) (db : RegistrationDb)
    → get same_registration k db ≡ some ps
    → (remove_producer k id db).2 ≡ put same_registration k (delete ◌===◌ id ps) db
unfolding remove_producer
left_by-some k id ps db e = ground (arith, e)

pub producers_of-none :
    (k : Registration) (db : RegistrationDb)
    → get same_registration k db ≡ none
    → producers_of k db ≡ []
unfolding producers_of
producers_of-none k db e = ground (arith, e)

pub producers_of-some :
    (k : Registration) (ps : ProducerMap) (db : RegistrationDb)
    → get same_registration k db ≡ some ps
    → producers_of k db ≡ ps
unfolding producers_of
producers_of-some k ps db e = ground (arith, e)

pub present-remove_producer :
    (j k : Registration) (id : Text) (db : RegistrationDb)
    → is_some (get same_registration j (remove_producer k id db).2)
      ≡ is_some (get same_registration j db)
present-remove_producer j k id db = elim (Option-cases (get same_registration k db)) [
  | inl e ↦ ap (λ d. is_some (get same_registration j d)) (left_by-none k id db e)
  | inr (ps, e) ↦
      ap (λ d. is_some (get same_registration j d)) (left_by-some k id ps db e)
      ∙ ground (arith, e, get_reg-put j k (delete ◌===◌ id ps) db, same_registration_iff k j)
]

pub member-remove_producer :
    (j k : Registration) (i id : Text) (db : RegistrationDb)
    → is_some (get ◌===◌ i (producers_of j (remove_producer k id db).2))
      ≡ (not (same_registration k j && (id === i)) && is_some (get ◌===◌ i (producers_of j db)))
member-remove_producer j k i id db = elim (Option-cases (get same_registration k db)) [
  | inl e ↦
      ap (λ d. is_some (get ◌===◌ i (producers_of j d))) (left_by-none k id db e)
      ∙ ground (arith, producers_of-none k db e, same_registration_iff k j)
  | inr (ps, e) ↦
      ap (λ d. is_some (get ◌===◌ i (producers_of j d))) (left_by-some k id ps db e)
      ∙ ground (
        arith,
        producers_of-put j k (delete ◌===◌ id ps) db,
        producers_of-some k ps db e,
        get-delete ◌===◌ ===_iff i id ps,
        same_registration_iff k j,
        ===_iff id i,
      )
]

pub producers_of-delete :
    (j k : Registration) (db : RegistrationDb)
    → producers_of j (delete same_registration k db)
      ≡ (if same_registration k j then [] else producers_of j db)
unfolding producers_of
producers_of-delete j k db =
    ground (arith, get-delete same_registration same_registration_iff j k db)

pub present-delete :
    (j k : Registration) (db : RegistrationDb)
    → is_some (get same_registration j (delete same_registration k db))
      ≡ (not (same_registration k j) && is_some (get same_registration j db))
present-delete j k db = ground (arith, get-delete same_registration same_registration_iff j k db)

pub member-delete :
    (j k : Registration) (i : Text) (db : RegistrationDb)
    → is_some (get ◌===◌ i (producers_of j (delete same_registration k db)))
      ≡ (not (same_registration k j) && is_some (get ◌===◌ i (producers_of j db)))
member-delete j k i db = ground (arith, producers_of-delete j k db)

-- A change of a producer keeps the registrations and the ids.
module _ (k : Registration) (id : Text) (f : Producer → Producer) (db : RegistrationDb) where
  -- The database is left as it is, or has the changed producer under the same keys.
  pub update_cases :
      (update_producer k id f db ≡ db)
      ⊎ ((ps : ProducerMap) × (p : Producer) × (get same_registration k db ≡ some ps)
          × (get ◌===◌ id ps ≡ some p)
          × (update_producer k id f db ≡ put same_registration k (put ◌===◌ id (f p) ps) db))
  unfolding update_producer
  update_cases = elim (Option-cases (get same_registration k db)) [
    | inl e ↦ inl (ground (arith, e))
    | inr (ps, e) ↦ elim (Option-cases (get ◌===◌ id ps)) [
      | inl g ↦ inl (ground (arith, e, g))
      | inr (p, g) ↦ inr (ps, p, e, g, ground (arith, e, g))
    ]
  ]

pub present-update_producer :
    (j k : Registration) (id : Text) (f : Producer → Producer) (db : RegistrationDb)
    → is_some (get same_registration j (update_producer k id f db))
      ≡ is_some (get same_registration j db)
present-update_producer j k id f db = elim (update_cases k id f db) [
  | inl e ↦ ap (λ d. is_some (get same_registration j d)) e
  | inr (ps, p, e, g, u) ↦
      ap (λ d. is_some (get same_registration j d)) u
      ∙ ground (arith, e, get_reg-put j k (put ◌===◌ id (f p) ps) db, same_registration_iff k j)
]

pub member-update_producer :
    (j k : Registration) (i id : Text) (f : Producer → Producer) (db : RegistrationDb)
    → is_some (get ◌===◌ i (producers_of j (update_producer k id f db)))
      ≡ is_some (get ◌===◌ i (producers_of j db))
member-update_producer j k i id f db = elim (update_cases k id f db) [
  | inl e ↦ ap (λ d. is_some (get ◌===◌ i (producers_of j d))) e
  | inr (ps, p, e, g, u) ↦
      ap (λ d. is_some (get ◌===◌ i (producers_of j d))) u
      ∙ ground (
        arith,
        g,
        producers_of-put j k (put ◌===◌ id (f p) ps) db,
        producers_of-some k ps db e,
        get_id-put i id (f p) ps,
        same_registration_iff k j,
        ===_iff id i,
      )
]
