-- ===== src/Xmqlookupd/History/Places.antt =====
-- What a request to tombstone does to the producer under each id.
use xmq.Base.{
  ℕ, ◌≡◌, refl, ap, sym, subst, ◌∙◌, Bool, true, false, ◌&&◌, ◌||◌, Option, none, some, List, [],
  ◌∷◌, any, All, Bool-cases, Option-cases, inl, inr, if◌then◌else◌, arith,
}
use xmq.Js.Text.{Text, ◌===◌, ===_iff}
use xmq.Xmqlookupd.Dict.{get, put}
use xmq.Xmqlookupd.Registrations.{
  Registration, Producer, ProducerMap, RegistrationDb, same_registration, producers_of,
  update_producer, tombstone,
}
use xmq.Xmqlookupd.Registrations.Calls.{
  producers_of-some, producers_of-none, producers_of-put, get_id-put, same_registration_iff,
}
use xmq.Xmqlookupd.Admin.{address, Place, tombstone_places}

-- The producer under an id, struck or not.
abbrev pub struck_if : ℕ → Bool → Option Producer → Option Producer
struck_if now b none = none
struck_if now b (some p) = if b then some (tombstone now p) else some p

unstruck : (now : ℕ) (b : Bool) (x : Option Producer) → x ≡ none → x ≡ struck_if now b x
unstruck now b x e = subst (λ y. y ≡ struck_if now b y) (sym e) refl

struck_none : (now : ℕ) (x : Option Producer) → x ≡ struck_if now false x
struck_none now none = refl
struck_none now (some p) = refl

producers_of-put_same :
    (k : Registration) (v : ProducerMap) (db : RegistrationDb)
    → producers_of k (put same_registration k v db) ≡ v
producers_of-put_same k v db = producers_of-put k k v db ∙ ground (arith, same_registration_iff k k)

struck_absent :
    (now : ℕ) (i j : Text) (pm : ProducerMap)
    → get ◌===◌ j pm ≡ none
    → get ◌===◌ i pm ≡ struck_if now (j === i) (get ◌===◌ i pm)
struck_absent now i j pm g = elim (Bool-cases (j === i)) [
  | inl same ↦
      unstruck now (j === i) (get ◌===◌ i pm)
        (ap (λ t. get ◌===◌ t pm) (sym ((===_iff j i).0 same)) ∙ g)
  | inr other ↦
      struck_none now (get ◌===◌ i pm) ∙ ap (λ b. struck_if now b (get ◌===◌ i pm)) (sym other)
]

struck_there :
    (now : ℕ) (i j : Text) (p : Producer) (pm : ProducerMap)
    → get ◌===◌ j pm ≡ some p
    → (if j === i then some (tombstone now p) else get ◌===◌ i pm)
      ≡ struck_if now (j === i) (get ◌===◌ i pm)
struck_there now i j p pm g = elim (Bool-cases (j === i)) [
  | inl same ↦
      let found : get ◌===◌ i pm ≡ some p =
        ap (λ t. get ◌===◌ t pm) (sym ((===_iff j i).0 same)) ∙ g in
      rw (same, found) refl
  | inr other ↦ rw other (struck_none now (get ◌===◌ i pm))
]

get-struck :
    (k : Registration) (i j : Text) (now : ℕ) (db : RegistrationDb)
    → get ◌===◌ i (producers_of k (update_producer k j (tombstone now) db))
      ≡ struck_if now (j === i) (get ◌===◌ i (producers_of k db))
unfolding update_producer
get-struck k i j now db = elim (Option-cases (get same_registration k db)) [
  | inl e ↦
      let same : update_producer k j (tombstone now) db ≡ db = ground (arith, e) in
      ap (λ d. get ◌===◌ i (producers_of k d)) same
      ∙ unstruck now (j === i) (get ◌===◌ i (producers_of k db))
          (ap (get ◌===◌ i) (producers_of-none k db e))
  | inr (pm, e) ↦ elim (Option-cases (get ◌===◌ j pm)) [
    | inl g ↦
        let same : update_producer k j (tombstone now) db ≡ db = ground (arith, e, g) in
        ap (λ d. get ◌===◌ i (producers_of k d)) same
        ∙ subst (λ q. get ◌===◌ i q ≡ struck_if now (j === i) (get ◌===◌ i q))
            (sym (producers_of-some k pm db e)) (struck_absent now i j pm g)
    | inr (p, g) ↦
        let changed : update_producer k j (tombstone now) db
            ≡ put same_registration k (put ◌===◌ j (tombstone now p) pm) db =
          ground (arith, e, g) in
        ap (λ d. get ◌===◌ i (producers_of k d)) changed
        ∙ (ap (get ◌===◌ i) (producers_of-put_same k (put ◌===◌ j (tombstone now p) pm) db)
            ∙ (get_id-put i j (tombstone now p) pm
                ∙ (struck_there now i j p pm g
                    ∙ ap (λ q. struck_if now (j === i) (get ◌===◌ i q))
                        (sym (producers_of-some k pm db e)))))
  ]
]

-- A place of the id at the address
abbrev pub hit : Text → Text → List Place → Bool
hit node i ps = any (λ (e : Place). (e.1.info.id === i) && (address e.1.info === node)) ps

struck_twice :
    (now : ℕ) (a b : Bool) (x : Option Producer)
    → struck_if now a (struck_if now b x) ≡ struck_if now (b || a) x
unfolding tombstone
struck_twice now a b none = refl
struck_twice now true true (some p) = refl
struck_twice now true false (some p) = refl
struck_twice now false true (some p) = refl
struck_twice now false false (some p) = refl

pub get-tombstone_places :
    (k : Registration) (i node : Text) (now : ℕ) (ps : List Place) (db : RegistrationDb)
    → All (λ (e : Place). e.0 ≡ k) ps
    → get ◌===◌ i (producers_of k (tombstone_places now node ps db))
      ≡ struck_if now (hit node i ps) (get ◌===◌ i (producers_of k db))
unfolding tombstone_places
get-tombstone_places k i node now [] db h = struck_none now (get ◌===◌ i (producers_of k db))
get-tombstone_places k i node now ((j, p) ∷ ps) db (here, h) =
    elim (Bool-cases (address p.info === node)) [
      | inr other ↦ rw other (
          get-tombstone_places k i node now ps db h
          ∙ ap (λ b. struck_if now b (get ◌===◌ i (producers_of k db))) (ground (arith, other)))
      | inl same ↦ rw same (
          get-tombstone_places k i node now ps (update_producer j p.info.id (tombstone now) db) h
          ∙ (ap
                (λ r.
                  struck_if now (hit node i ps)
                    (get ◌===◌ i (producers_of k (update_producer r p.info.id (tombstone now) db))))
                here
              ∙ (ap (struck_if now (hit node i ps)) (get-struck k i p.info.id now db)
                  ∙ (struck_twice now (hit node i ps) (p.info.id === i)
                        (get ◌===◌ i (producers_of k db))
                      ∙ ap (λ b. struck_if now b (get ◌===◌ i (producers_of k db)))
                          (ground (arith, same))))))
    ]
