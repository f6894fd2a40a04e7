-- ===== src/Xmqlookupd/Registrations/Absent.antt =====
-- What no producer of the database has, no producer that a query finds has.
use xmq.Base.{
  ◌≡◌, refl, ap, ◌∙◌, Bool, false, ◌&&◌, ◌||◌, List, [], ◌∷◌, map, any, keep, concat, All,
  All-weaken, Bool-cases, inl, inr, arith,
}
use xmq.Js.Text.{Text, ◌===◌, ===_refl}
use xmq.Xmqlookupd.Dict.{MapOrder, any-visit, any-map, any-keep}
use xmq.Xmqlookupd.Registrations.{
  Registration, Producer, ProducerMap, RegistrationDb, producers_of, need_filter, is_match,
  find_producers, new_producers, producer_map_to_slice,
}
use xmq.Xmqlookupd.Registrations.Keyed.{AllDb, All-producers_of}
use xmq.Xmqlookupd.Registrations.Producers.{any-append}

pub any_none {ℓ} :
    {A : Type ℓ} (q : A → Bool) (xs : List A) → All (λ x. q x ≡ false) xs → any q xs ≡ false
any_none q [] h = refl
any_none q (x ∷ xs) (h, i) = ground (arith, h, any_none q xs i)

any-new_producers :
    (q : Producer → Bool) (ps : List Producer) (found : List Text)
    → any q ps ≡ false
    → any q (new_producers ps found) ≡ false
unfolding new_producers
any-new_producers q [] found h = refl
any-new_producers q (p ∷ ps) found h = elim (Bool-cases (any (λ i. i === p.info.id) found)) [
  | inl seen ↦ rw seen (any-new_producers q ps found (ground (arith, h)))
  | inr fresh ↦
      rw fresh (ground (arith, h, any-new_producers q ps (p.info.id ∷ found) (ground (arith, h))))
]

any-concat :
    {A : Type 0} (q : Producer → Bool) (f : A → List Producer) (xs : List A)
    → any q (concat (map f xs)) ≡ any (λ x. any q (f x)) xs
any-concat q f [] = refl
any-concat q f (x ∷ xs) =
    any-append q (f x) (concat (map f xs)) ∙ ap (λ b. any q (f x) || b) (any-concat q f xs)

module _ (order : MapOrder) (q : Producer → Bool) (category : Text) where
  -- No producer under the category has `q`.
  abbrev pub NoneHas : RegistrationDb → Type 0
  NoneHas db = AllDb (λ k e. ((category === k.category) && q e.1) ≡ false) db

  pub any-slice :
      (pm : ProducerMap)
      → any q (producer_map_to_slice order pm) ≡ any (λ (e : Text × Producer). q e.1) pm
  unfolding producer_map_to_slice
  any-slice pm =
      any-map q (λ (e : Text × Producer). e.1) (order.visit pm)
      ∙ any-visit order (λ (e : Text × Producer). q e.1) pm

  scan_none :
      (key sub_key : Text) (db : RegistrationDb)
      → NoneHas db
      → any
          (λ (e : Registration × ProducerMap).
            is_match category key sub_key e.0 && any q (producer_map_to_slice order e.1))
          db
        ≡ false
  unfolding is_match
  scan_none key sub_key [] h = refl
  scan_none key sub_key ((k, pm) ∷ db) (h, i) = elim (Bool-cases (category === k.category)) [
    | inl e ↦ ground (
      arith,
      e,
      any-slice pm,
      any_none (λ (x : Text × Producer). q x.1) pm (All-weaken pm (λ x g. ground (arith, e, g)) h),
      scan_none key sub_key db i,
    )
    | inr e ↦ ground (arith, e, scan_none key sub_key db i)
  ]

  pub any-find_producers :
      (key sub_key : Text) (db : RegistrationDb)
      → NoneHas db
      → any q (find_producers order category key sub_key db) ≡ false
  unfolding find_producers
  any-find_producers key sub_key db h =
      let k : Registration = record { category = category; key = key; sub_key = sub_key } in
      let slice : Registration × ProducerMap → List Producer =
        λ e. producer_map_to_slice order e.1 in
      let matches : Registration × ProducerMap → Bool = λ e. is_match category key sub_key e.0 in
      elim (Bool-cases (need_filter key sub_key)) [
        | inl wild ↦ rw wild (
            any-new_producers q (concat (map slice (keep matches (order.visit db)))) [] (
              any-concat q slice (keep matches (order.visit db))
              ∙ (any-keep (λ e. any q (slice e)) matches (order.visit db)
                  ∙ (any-visit order (λ e. matches e && any q (slice e)) db
                      ∙ scan_none key sub_key db h))))
        | inr tame ↦ rw tame (
            any-slice (producers_of k db)
            ∙ any_none (λ (x : Text × Producer). q x.1) (producers_of k db)
                (All-weaken (producers_of k db) (λ x g. ground (arith, ===_refl category, g))
                  (All-producers_of (λ j e. ((category === j.category) && q e.1) ≡ false) k db h)))
      ]
