-- ===== src/Xmqlookupd/Dict.antt =====
-- Go's maps as association lists, with `order` for the order in which `range` visits the entries.
use xmq.Base.{
  All, subst, Bool-cases, inl, inr, false≢true, ℕ, suc, ◌≡◌, ◌≢◌, refl, ap, ◌∙◌, sym, ◌↔◌, Bool,
  true, false, ◌&&◌, ◌||◌, not, Option, none, some, List, [], ◌∷◌, map, ltb, if◌then◌else◌, any,
  keep, if_elim, arith,
}

abbrev pub count {ℓ} : {A : Type ℓ} → (A → Bool) → List A → ℕ
count p [] = 0
count p (x ∷ xs) = let rest = count p xs in if p x then suc rest else rest

-- `range` visits each entry once, in an order that is not specified.
pub record MapOrder : Type 1 where
  pub visit : {A : Type 0} → List A → List A
  pub visit_lem : {A : Type 0} (p : A → Bool) (xs : List A) → count p (visit xs) ≡ count p xs

any-count {ℓ} : {A : Type ℓ} (p : A → Bool) (xs : List A) → any p xs ≡ ltb 0 (count p xs)
any-count p [] = refl
any-count p (x ∷ xs) = ground (arith, any-count p xs)

pub any-visit :
    (o : MapOrder) {A : Type 0} (p : A → Bool) (xs : List A) → any p (o.visit xs) ≡ any p xs
any-visit o p xs =
    any-count p (o.visit xs) ∙ (ap (λ n. ltb 0 n) (o.visit_lem p xs) ∙ sym (any-count p xs))

pub any-map {ℓ κ} :
    {A : Type ℓ} {B : Type κ} (p : B → Bool) (f : A → B) (xs : List A)
    → any p (map f xs) ≡ any (λ x. p (f x)) xs
any-map p f [] = refl
any-map p f (x ∷ xs) = ap (λ b. p (f x) || b) (any-map p f xs)

abbrev pub is_some {ℓ} : {A : Type ℓ} → Option A → Bool
is_some none = false
is_some (some a) = true

pub any-keep {ℓ} :
    {A : Type ℓ} (p q : A → Bool) (xs : List A) → any p (keep q xs) ≡ any (λ x. q x && p x) xs
any-keep p q [] = refl
any-keep p q (x ∷ xs) = ground (arith, any-keep p q xs)

-- The first order there is: the entries as they stand.
abbrev pub as_stored : MapOrder
as_stored = record { visit = λ xs. xs; visit_lem = λ p xs. refl }

module _ {K V : Type 0} (eq : K → K → Bool) where
  abbrev pub get : K → List (K × V) → Option V
  get k [] = none
  get k ((j, v) ∷ d) = if eq j k then some v else get k d

  abbrev pub has : K → List (K × V) → Bool
  has k d = any (λ (e : K × V). eq e.0 k) d

  abbrev pub put : K → V → List (K × V) → List (K × V)
  put k v [] = (k, v) ∷ []
  put k v ((j, w) ∷ d) = let rest = put k v d in if eq j k then (j, v) ∷ d else (j, w) ∷ rest

  abbrev pub delete : K → List (K × V) → List (K × V)
  delete k d = keep (λ (e : K × V). not (eq e.0 k)) d

  module _ (eq_iff : (j k : K) → (eq j k ≡ true) ↔ (j ≡ k)) where
    pub get-put :
        (j k : K) (v : V) (d : List (K × V))
        → get j (put k v d) ≡ (if eq k j then some v else get j d)
    get-put j k v [] = refl
    get-put j k v ((i, w) ∷ d) = ground (arith, get-put j k v d, eq_iff i k, eq_iff i j, eq_iff k j)

    pub get-delete :
        (j k : K) (d : List (K × V)) → get j (delete k d) ≡ (if eq k j then none else get j d)
    get-delete j k [] = ground arith
    get-delete j k ((i, w) ∷ d) =
        ground (arith, get-delete j k d, eq_iff i k, eq_iff i j, eq_iff k j)

  pub has-get : (k : K) (d : List (K × V)) → (has k d ≡ true) ↔ (get k d ≢ none)
  has-get k [] = ground arith
  has-get k ((j, v) ∷ d) = ground (arith, has-get k d)

  pub All-delete {ℓ} :
      (P : K × V → Type ℓ) (k : K) (d : List (K × V)) → All P d → All P (delete k d)
  All-delete P k [] h = tt
  All-delete P k ((j, w) ∷ d) (h, i) =
      elim (eq j k)
        as (λ b. All P (elim (not b) as (λ _. List (K × V)) [
          | true ↦ (j, w) ∷ delete k d
          | false ↦ delete k d
        ])) [ true ↦ All-delete P k d i | false ↦ (h, All-delete P k d i) ]

  pub has-is_some : (k : K) (d : List (K × V)) → has k d ≡ is_some (get k d)
  has-is_some k [] = refl
  has-is_some k ((j, v) ∷ d) = ground (arith, has-is_some k d)

  -- No key stands twice.
  abbrev pub Distinct : List (K × V) → Type 0
  Distinct [] = Unit
  Distinct ((k, v) ∷ d) = (has k d ≡ false) × Distinct d

  module _ (eq_iff : (j k : K) → (eq j k ≡ true) ↔ (j ≡ k)) where
    has-put : (j k : K) (v : V) (d : List (K × V)) → has j (put k v d) ≡ (eq k j || has j d)
    has-put j k v [] = refl
    has-put j k v ((i, w) ∷ d) = ground (arith, has-put j k v d, eq_iff i k)

    has-delete : (j k : K) (d : List (K × V)) → has j d ≡ false → has j (delete k d) ≡ false
    has-delete j k [] h = refl
    has-delete j k ((i, w) ∷ d) h = ground (arith, has-delete j k d)

    pub Distinct-put : (k : K) (v : V) (d : List (K × V)) → Distinct d → Distinct (put k v d)
    Distinct-put k v [] h = (refl, tt)
    Distinct-put k v ((j, w) ∷ d) (h, i) =
        if_elim Distinct (eq j k) _ _ (λ _. (h, i))
          (λ other. (ground (arith, has-put j k v d, eq_iff j k, eq_iff k j), Distinct-put k v d i))

    pub Distinct-delete : (k : K) (d : List (K × V)) → Distinct d → Distinct (delete k d)
    Distinct-delete k [] h = tt
    Distinct-delete k ((j, w) ∷ d) (h, i) =
        let rest = delete k d in
        let left : Distinct rest = Distinct-delete k d i in
        let new : has j rest ≡ false = has-delete j k d h in
        elim (eq j k)
          as (λ b.
            Distinct
              (elim (not b) as (λ _. List (K × V)) [ true ↦ (j, w) ∷ rest | false ↦ rest ])) [
                | true ↦ left
                | false ↦ (new, left)
              ]

    none_left :
        (k : K) (p : V → Bool) (d : List (K × V))
        → has k d ≡ false
        → any (λ (e : K × V). eq e.0 k && p e.1) d ≡ false
    none_left k p [] h = refl
    none_left k p ((j, v) ∷ d) h = ground (arith, none_left k p d)

    -- Where no key stands twice, the entries under a key are the one that a lookup finds.
    pub any-get :
        (k : K) (p : V → Bool) (d : List (K × V))
        → Distinct d
        → any (λ (e : K × V). eq e.0 k && p e.1) d
          ≡ elim (get k d) as (λ _. Bool) [ none ↦ false | some v ↦ p v ]
    any-get k p [] h = refl
    any-get k p ((j, v) ∷ d) (h, i) = ground (arith, any-get k p d i, none_left k p d, eq_iff j k)

    later :
        (j k : K) (v w : V) (d : List (K × V))
        → has j d ≡ false
        → get k d ≡ some v
        → get k ((j, w) ∷ d) ≡ some v
    later j k v w d h e = elim (Bool-cases (eq j k)) [
      | inl same ↦
          let there : has j d ≡ true =
            subst (λ x. has x d ≡ true) (sym ((eq_iff j k).0 same))
              ((has-get k d).1 (λ gone. (ground (arith, gone)))) in
          absurd (false≢true (sym h ∙ there))
      | inr other ↦ ground (arith, other)
    ]

    pub All-put {ℓ} :
        (P : K × V → Type ℓ) (k : K) (v : V) (d : List (K × V))
        → P (k, v)
        → All P d
        → All P (put k v d)
    All-put P k v [] p h = (p, tt)
    All-put P k v ((j, w) ∷ d) p (h, i) =
        if_elim (All P) (eq j k) _ _
          (λ same. (subst (λ x. P (x, v)) (sym ((eq_iff j k).0 same)) p, i))
          (λ _. (h, All-put P k v d p i))

    pub All-get {ℓ} :
        (P : K × V → Type ℓ) (k : K) (v : V) (d : List (K × V))
        → All P d
        → get k d ≡ some v
        → P (k, v)
    All-get P k v [] h e = absurd (cc)
    All-get P k v ((j, w) ∷ d) (h, i) e = elim (Bool-cases (eq j k)) [
      | inl same ↦
          let found : w ≡ v = ground (arith, same) in
          subst P (λ t. ((eq_iff j k).0 same t, found t)) h
      | inr other ↦ All-get P k v d i (ground (arith, other))
    ]

    -- An entry that a lookup finds is among the entries.
    pub any-found :
        (q : K × V → Bool) (k : K) (v : V) (d : List (K × V))
        → get k d ≡ some v
        → q (k, v) ≡ true
        → any q d ≡ true
    any-found q k v [] e h = cc
    any-found q k v ((j, w) ∷ d) e h = elim (Bool-cases (eq j k)) [
      | inl same ↦
          let found : w ≡ v = ground (arith, same) in
          let here : q (j, w) ≡ true =
            subst (λ x. q x ≡ true) (λ t. (sym ((eq_iff j k).0 same) t, sym found t)) h in
          ground (arith, here)
      | inr other ↦
          let later : any q d ≡ true = any-found q k v d (ground (arith, other)) h in
          ground (arith, later)
    ]

    -- Where no key stands twice, an entry is what a lookup of its key finds.
    pub found-any :
        (q : K × V → Bool) (d : List (K × V))
        → Distinct d
        → any q d ≡ true
        → (k : K) × (v : V) × (get k d ≡ some v) × (q (k, v) ≡ true)
    found-any q [] h e = absurd (cc)
    found-any q ((j, w) ∷ d) (h, i) e = elim (Bool-cases (q (j, w))) [
      | inl here ↦ (j, w, rw ((eq_iff j j).1 refl) refl, here)
      | inr not_here ↦
          let (k, v, found, fits) = found-any q d i (ground (arith, not_here)) in
          (k, v, later j k v w d h found, fits)
    ]
