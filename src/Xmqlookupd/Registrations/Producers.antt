-- ===== src/Xmqlookupd/Registrations/Producers.antt =====
-- The producers that a query finds.
use xmq.Base.{
  false≢true, ◌≡◌, refl, subst, ap, ◌∙◌, sym, ◌↔◌, Bool, true, false, ◌&&◌, ◌||◌, not, some, List,
  [], ◌∷◌, ◌++◌, map, any, keep, concat, All, Option-cases, inl, inr, Bool-cases, arith,
}
use xmq.Js.Text.{Text, ◌===◌, ===_iff}
use xmq.Xmqlookupd.Dict.{
  MapOrder, get, has, is_some, any-visit, any-map, any-keep, has-is_some, Distinct, any-found,
  found-any,
}
use xmq.Xmqlookupd.Registrations.{
  Registration, Producer, ProducerMap, RegistrationDb, same_registration, producers_of, need_filter,
  is_match, find_producers, new_producers, producer_map_to_slice, new_db,
}
use xmq.Xmqlookupd.Registrations.Calls.{same_registration_iff, producers_of-none, producers_of-some}
use xmq.Xmqlookupd.Registrations.Abstract.{Op, run, contents}
use xmq.Xmqlookupd.Registrations.Queries.{match_exact, run-Distinct}
use xmq.Xmqlookupd.Registrations.Keyed.{Keyed, KeyedDb, producers_of-Keyed, run-Keyed}

-- An id is that of a producer in the answer.
abbrev pub listed : Text → List Producer → Bool
listed i ps = any (λ (p : Producer). p.info.id === i) ps

pub any-append {ℓ} :
    {A : Type ℓ} (p : A → Bool) (xs ys : List A) → any p (xs ++ ys) ≡ (any p xs || any p ys)
any-append p [] ys = refl
any-append p (x ∷ xs) ys = ground (arith, any-append p xs ys)

listed-concat :
    {A : Type 0} (i : Text) (f : A → List Producer) (xs : List A)
    → listed i (concat (map f xs)) ≡ any (λ x. listed i (f x)) xs
listed-concat i f [] = refl
listed-concat i f (x ∷ xs) =
    any-append (λ (p : Producer). p.info.id === i) (f x) (concat (map f xs))
    ∙ ap (λ b. listed i (f x) || b) (listed-concat i f xs)

listed-new_producers :
    (i : Text) (ps : List Producer) (found : List Text)
    → listed i (new_producers ps found) ≡ (listed i ps && not (any (λ j. j === i) found))
unfolding new_producers
listed-new_producers i [] found = refl
listed-new_producers i (p ∷ ps) found =
    let same : p.info.id === i ≡ true
        → any (λ j. j === i) found ≡ any (λ j. j === p.info.id) found =
      λ e. ap (λ x. any (λ j. j === x) found) (sym ((===_iff p.info.id i).0 e)) in
    elim (Bool-cases (any (λ j. j === p.info.id) found)) [
      | inl seen ↦ elim (Bool-cases (p.info.id === i)) [
        | inl e ↦ ground (arith, seen, e, same e, listed-new_producers i ps found)
        | inr e ↦ ground (arith, seen, e, listed-new_producers i ps found)
      ]
      | inr fresh ↦ elim (Bool-cases (p.info.id === i)) [
        | inl e ↦ ground (arith, fresh, e, same e, listed-new_producers i ps (p.info.id ∷ found))
        | inr e ↦ ground (arith, fresh, e, listed-new_producers i ps (p.info.id ∷ found))
      ]
    ]

any-same_All {ℓ} :
    {A : Type ℓ} (p q : A → Bool) (xs : List A) → All (λ x. p x ≡ q x) xs → any p xs ≡ any q xs
any-same_All p q [] h = refl
any-same_All p q (x ∷ xs) (h, k) = ground (arith, h, any-same_All p q xs k)

Keyed-id :
    (i : Text) (pm : ProducerMap)
    → Keyed pm
    → any (λ (e : Text × Producer). e.1.info.id === i) pm ≡ has ◌===◌ i pm
Keyed-id i pm h =
    any-same_All (λ (e : Text × Producer). e.1.info.id === i) (λ (e : Text × Producer). e.0 === i)
      pm (All-eq pm h)
  where
    All-eq :
        (xs : ProducerMap)
        → Keyed xs
        → All (λ (e : Text × Producer). (e.1.info.id === i) ≡ (e.0 === i)) xs
    All-eq [] k = tt
    All-eq (x ∷ xs) (k, l) = (ap (λ t. t === i) k, All-eq xs l)

module _ (order : MapOrder) where
  listed-slice :
      (i : Text) (pm : ProducerMap)
      → Keyed pm
      → listed i (producer_map_to_slice order pm) ≡ has ◌===◌ i pm
  unfolding producer_map_to_slice
  listed-slice i pm h =
      any-map (λ (p : Producer). p.info.id === i) (λ (e : Text × Producer). e.1) (order.visit pm)
      ∙ (any-visit order (λ (e : Text × Producer). e.1.info.id === i) pm ∙ Keyed-id i pm h)

  fits : Text → Text → Text → Text → Registration × ProducerMap → Bool
  fits category key sub_key i e = is_match category key sub_key e.0 && has ◌===◌ i e.1

  listed-matching :
      (category key sub_key i : Text) (db : RegistrationDb)
      → KeyedDb db
      → All
          (λ (e : Registration × ProducerMap).
            (is_match category key sub_key e.0 && listed i (producer_map_to_slice order e.1))
            ≡ fits category key sub_key i e)
          db
  unfolding fits
  listed-matching category key sub_key i [] h = tt
  listed-matching category key sub_key i (e ∷ db) (h, k) = (
    ap (λ b. is_match category key sub_key e.0 && b) (listed-slice i e.1 h),
    listed-matching category key sub_key i db k,
  )

  found_by_scan :
      (category key sub_key i : Text) (db : RegistrationDb)
      → KeyedDb db
      → need_filter key sub_key ≡ true
      → listed i (find_producers order category key sub_key db)
        ≡ any (fits category key sub_key i) db
  unfolding find_producers
  found_by_scan category key sub_key i db h wild =
      let matches : Registration × ProducerMap → Bool = λ e. is_match category key sub_key e.0 in
      let slice : Registration × ProducerMap → List Producer =
        λ e. producer_map_to_slice order e.1 in
      let entries = keep matches (order.visit db) in
      rw wild (
        listed-new_producers i (concat (map slice entries)) []
        ∙ (ground arith
            ∙ (listed-concat i slice entries
                ∙ (any-keep (λ e. listed i (slice e)) matches (order.visit db)
                    ∙ (any-visit order (λ e. matches e && listed i (slice e)) db
                        ∙ any-same_All _ _ db (listed-matching category key sub_key i db h))))))

  found_by_key :
      (category key sub_key i : Text) (db : RegistrationDb)
      → KeyedDb db
      → need_filter key sub_key ≡ false
      → listed i (find_producers order category key sub_key db)
        ≡ (contents db).member (record { category = category; key = key; sub_key = sub_key }) i
  unfolding find_producers
  found_by_key category key sub_key i db h tame =
      let k : Registration = record { category = category; key = key; sub_key = sub_key } in
      rw tame (
        listed-slice i (producers_of k db) (producers_of-Keyed k db h)
        ∙ has-is_some ◌===◌ i (producers_of k db))

  member-found :
      (i : Text) (r : Registration) (pm : ProducerMap) (db : RegistrationDb)
      → get same_registration r db ≡ some pm
      → has ◌===◌ i pm ≡ (contents db).member r i
  member-found i r pm db e =
      has-is_some ◌===◌ i pm ∙ sym (ap (λ m. is_some (get ◌===◌ i m)) (producers_of-some r pm db e))

  scan_iff :
      (category key sub_key i : Text) (db : RegistrationDb)
      → Distinct same_registration db
      → (any (fits category key sub_key i) db ≡ true) ↔ (
          (r : Registration) × (is_match category key sub_key r ≡ true)
          × ((contents db).member r i ≡ true))
  unfolding fits
  scan_iff category key sub_key i db d = (
    λ e.
        let (r, pm, found, fit) =
          found-any same_registration same_registration_iff (fits category key sub_key i) db d e in
        let both : (is_match category key sub_key r ≡ true) × (has ◌===◌ i pm ≡ true) =
          ground arith in
        (r, both.0, sym (member-found i r pm db found) ∙ both.1),
    λ (r, matching, there). elim (Option-cases (get same_registration r db)) [
      | inl gone ↦ absurd (
          false≢true
            (sym (ap (λ m. is_some (get ◌===◌ i m)) (producers_of-none r db gone)) ∙ there))
      | inr (pm, found) ↦
          any-found same_registration same_registration_iff (fits category key sub_key i) r pm db
            found (ground (arith, matching, member-found i r pm db found, there))
    ],
  )

  exact_iff :
      (category key sub_key i : Text) (db : RegistrationDb)
      → need_filter key sub_key ≡ false
      → ((contents db).member (record { category = category; key = key; sub_key = sub_key }) i
          ≡ true)
        ↔ ((r : Registration) × (is_match category key sub_key r ≡ true)
            × ((contents db).member r i ≡ true))
  exact_iff category key sub_key i db tame =
      let k : Registration = record { category = category; key = key; sub_key = sub_key } in
      (
        λ there. (
          k,
          match_exact category key sub_key k tame ∙ (same_registration_iff k k).1 refl,
          there,
        ),
        λ (r, matching, there).
            let same : k ≡ r =
              (same_registration_iff k r).0
                (sym (match_exact category key sub_key r tame) ∙ matching) in
            subst (λ x. (contents db).member x i ≡ true) (sym same) there,
      )

  -- In a database that any calls have made from an empty one, with or without a wildcard, a query
  -- finds a producer of an id exactly when some registration matches it and has the id, in whatever
  -- order the entries are visited.
  pub find_producers_lem :
      (ops : List Op) (category key sub_key i : Text)
      → (listed i (find_producers order category key sub_key (run ops new_db)) ≡ true) ↔ (
          (r : Registration) × (is_match category key sub_key r ≡ true)
          × ((contents (run ops new_db)).member r i ≡ true))
  find_producers_lem ops category key sub_key i =
      let db : RegistrationDb = run ops new_db in
      let keyed : KeyedDb db = run-Keyed ops new_db tt in
      elim (Bool-cases (need_filter key sub_key)) [
        | inl wild ↦
            rw (found_by_scan category key sub_key i db keyed wild)
              (scan_iff category key sub_key i db (run-Distinct ops new_db tt))
        | inr tame ↦
            rw (found_by_key category key sub_key i db keyed tame)
              (exact_iff category key sub_key i db tame)
      ]
