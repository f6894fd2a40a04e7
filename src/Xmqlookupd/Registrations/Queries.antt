-- ===== src/Xmqlookupd/Registrations/Queries.antt =====
-- What the queries find.
use xmq.Base.{
  ◌≡◌, refl, subst, ap, ◌∙◌, sym, Bool, true, false, ◌&&◌, none, some, List, [], ◌∷◌, map, any,
  keep, if◌then◌else◌, Option-cases, inl, inr, Bool-cases, arith,
}
use xmq.Js.Text.{Text, ◌===◌, ===_iff}
use xmq.Xmqlookupd.Dict.{
  MapOrder, get, put, has, is_some, any-visit, any-map, any-keep, has-is_some, Distinct,
  Distinct-put, Distinct-delete, any-get,
}
use xmq.Xmqlookupd.Registrations.{
  Registration, Producer, ProducerMap, RegistrationDb, same_registration, producers_of,
  add_registration, add_producer, remove_registration, need_filter, is_match, find_registrations,
  lookup_registrations, new_db, update_producer, tombstone, set_raft_state,
}
use xmq.Xmqlookupd.Registrations.Calls.{
  same_registration_iff, left_by-none, left_by-some, update_cases,
}
use xmq.Xmqlookupd.Registrations.Abstract.{
  Op, add_registration_op, add_producer_op, remove_producer_op, remove_registration_op,
  tombstone_op, set_raft_state_op, step, run, contents,
}

-- A registration is in the answer.
abbrev pub among : Registration → List Registration → Bool
among r rr = any (λ x. same_registration x r) rr

-- Equal registrations match alike.
match_same :
    (category key sub_key : Text) (x r : Registration)
    → (is_match category key sub_key x && same_registration x r)
      ≡ (same_registration x r && is_match category key sub_key r)
match_same category key sub_key x r = elim (Bool-cases (same_registration x r)) [
  | inl e ↦
      rw (e, ap (is_match category key sub_key) ((same_registration_iff x r).0 e)) (ground arith)
  | inr e ↦ rw e (ground arith)
]

any-and :
    {A : Type 0} (p : A → Bool) (b : Bool) (xs : List A) → any (λ x. p x && b) xs ≡ (any p xs && b)
any-and p b [] = refl
any-and p b (x ∷ xs) = ground (arith, any-and p b xs)

any-same {ℓ} :
    {A : Type ℓ} (p q : A → Bool) (xs : List A) → ((x : A) → p x ≡ q x) → any p xs ≡ any q xs
any-same p q [] h = refl
any-same p q (x ∷ xs) h = ground (arith, h x, any-same p q xs h)

-- Without a wildcard, only the registration itself matches.
pub match_exact :
    (category key sub_key : Text) (r : Registration)
    → need_filter key sub_key ≡ false
    → is_match category key sub_key r
      ≡ same_registration (record { category = category; key = key; sub_key = sub_key }) r
unfolding is_match same_registration need_filter
match_exact category key sub_key r h = ground (
  arith,
  ===_iff key r.key,
  ===_iff r.key key,
  ===_iff sub_key r.sub_key,
  ===_iff r.sub_key sub_key,
)

found_exact :
    (k r : Registration) (db : RegistrationDb)
    → among r (if has same_registration k db then k ∷ [] else [])
      ≡ (is_some (get same_registration r db) && same_registration k r)
found_exact k r db = elim (Bool-cases (same_registration k r)) [
  | inl e ↦ ground (
    arith,
    e,
    has-is_some same_registration k db,
    ap (λ x. is_some (get same_registration x db)) ((same_registration_iff k r).0 e),
  )
  | inr e ↦ ground (arith, e)
]

module _ (order : MapOrder) where
  visited :
      (r : Registration) (db : RegistrationDb)
      → among r (map (λ (e : Registration × ProducerMap). e.0) (order.visit db))
        ≡ is_some (get same_registration r db)
  visited r db =
      any-map (λ x. same_registration x r) (λ (e : Registration × ProducerMap). e.0)
        (order.visit db)
      ∙ (any-visit order (λ (e : Registration × ProducerMap). same_registration e.0 r) db
          ∙ has-is_some same_registration r db)

  found_by_filter :
      (category key sub_key : Text) (db : RegistrationDb) (r : Registration)
      → among r (
          keep
            (is_match category key sub_key)
            (map (λ (e : Registration × ProducerMap). e.0) (order.visit db)))
        ≡ (is_some (get same_registration r db) && is_match category key sub_key r)
  found_by_filter category key sub_key db r =
      let xs : List Registration = map (λ (e : Registration × ProducerMap). e.0) (order.visit db) in
      let fits : Bool = is_match category key sub_key r in
      any-keep (λ x. same_registration x r) (is_match category key sub_key) xs
      ∙ (any-same (λ x. is_match category key sub_key x && same_registration x r)
            (λ x. same_registration x r && fits) xs (λ x. match_same category key sub_key x r)
          ∙ (any-and (λ x. same_registration x r) fits xs ∙ ap (λ b. b && fits) (visited r db)))

  -- With or without a wildcard, a query finds the registrations of the database that match it, and no
  -- others, in whatever order the entries are visited.
  pub find_registrations_lem :
      (category key sub_key : Text) (db : RegistrationDb) (r : Registration)
      → among r (find_registrations order category key sub_key db)
        ≡ ((contents db).present r && is_match category key sub_key r)
  unfolding find_registrations
  find_registrations_lem category key sub_key db r = elim (Bool-cases (need_filter key sub_key)) [
    | inl e ↦ rw e (found_by_filter category key sub_key db r)
    | inr e ↦ rw (e, match_exact category key sub_key r e) (found_exact _ r db)
  ]

Distinct-add_registration :
    (k : Registration) (db : RegistrationDb)
    → Distinct same_registration db
    → Distinct same_registration (add_registration k db)
unfolding add_registration
Distinct-add_registration k db h =
    elim (get same_registration k db)
      as (λ o.
        Distinct same_registration (elim o as (λ _. RegistrationDb) [
          | none ↦ put same_registration k [] db
          | some _ ↦ db
        ])) [ none ↦ Distinct-put same_registration same_registration_iff k [] db h | some _ ↦ h ]

Distinct-add_producer :
    (k : Registration) (p : Producer) (db : RegistrationDb)
    → Distinct same_registration db
    → Distinct same_registration (add_producer k p db).1
unfolding add_producer
Distinct-add_producer k p db h =
    let added : RegistrationDb = add_registration k db in
    let kept : Distinct same_registration added = Distinct-add_registration k db h in
    let with_it : RegistrationDb =
      put same_registration k (put ◌===◌ p.info.id p (producers_of k added)) added in
    elim (get ◌===◌ p.info.id (producers_of k added))
      as (λ o.
        Distinct same_registration
          (elim o as (λ _. Bool × RegistrationDb) [
            | none ↦ (true, with_it)
            | some _ ↦ (false, added)
          ]).1) [
            | none ↦ Distinct-put same_registration same_registration_iff k _ added kept
            | some _ ↦ kept
          ]

Distinct-update_producer :
    (k : Registration) (id : Text) (f : Producer → Producer) (db : RegistrationDb)
    → Distinct same_registration db
    → Distinct same_registration (update_producer k id f db)
Distinct-update_producer k id f db h = elim (update_cases k id f db) [
  | inl e ↦ subst (Distinct same_registration) (sym e) h
  | inr (ps, p, e, g, u) ↦
      subst (Distinct same_registration) (sym u)
        (Distinct-put same_registration same_registration_iff k _ db h)
]

step-Distinct :
    (op : Op) (db : RegistrationDb)
    → Distinct same_registration db
    → Distinct same_registration (step op db)
unfolding step remove_registration
step-Distinct (add_registration_op k) db h = Distinct-add_registration k db h
step-Distinct (add_producer_op k p) db h = Distinct-add_producer k p db h
step-Distinct (remove_producer_op k id) db h = elim (Option-cases (get same_registration k db)) [
  | inl e ↦ subst (Distinct same_registration) (sym (left_by-none k id db e)) h
  | inr (ps, e) ↦
      subst (Distinct same_registration) (sym (left_by-some k id ps db e))
        (Distinct-put same_registration same_registration_iff k _ db h)
]
step-Distinct (remove_registration_op k) db h =
    Distinct-delete same_registration same_registration_iff k db h
step-Distinct (tombstone_op k id now) db h = Distinct-update_producer k id (tombstone now) db h
step-Distinct (set_raft_state_op k id state) db h =
    Distinct-update_producer k id (set_raft_state state) db h

pub run-Distinct :
    (ops : List Op) (db : RegistrationDb)
    → Distinct same_registration db
    → Distinct same_registration (run ops db)
unfolding run
run-Distinct [] db h = h
run-Distinct (op ∷ ops) db h = run-Distinct ops (step op db) (step-Distinct op db h)

found_under :
    (id : Text) (r : Registration) (db : RegistrationDb)
    → (elim (get same_registration r db) as (λ _. Bool) [
      | none ↦ false
      | some ps ↦ has ◌===◌ id ps
    ])
      ≡ (contents db).member r id
unfolding producers_of
found_under id r db = elim (Option-cases (get same_registration r db)) [
  | inl e ↦ ground (arith, e)
  | inr (ps, e) ↦ ground (arith, e, has-is_some ◌===◌ id ps)
]

-- The registrations of an id, in a database that any calls have made from an empty one, are those that
-- have it.
lookup_registrations_lem :
    (order : MapOrder) (ops : List Op) (id : Text) (r : Registration)
    → among r (lookup_registrations order id (run ops new_db))
      ≡ (contents (run ops new_db)).member r id
unfolding lookup_registrations
lookup_registrations_lem order ops id r =
    let db = run ops new_db in
    let under : Registration × ProducerMap → Bool = λ e. has ◌===◌ id e.1 in
    let named : Registration × ProducerMap → Bool = λ e. same_registration e.0 r in
    any-map (λ x. same_registration x r) (λ (e : Registration × ProducerMap). e.0)
      (keep under (order.visit db))
    ∙ (any-keep named under (order.visit db)
        ∙ (any-visit order (λ e. under e && named e) db
            ∙ (any-same (λ e. under e && named e) (λ e. named e && under e) db (λ e. ground arith)
                ∙ (any-get same_registration same_registration_iff r (λ ps. has ◌===◌ id ps) db
                      (run-Distinct ops new_db tt)
                    ∙ found_under id r db))))
