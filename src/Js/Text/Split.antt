-- ===== src/Js/Text/Split.antt =====
-- Laws of splitting at a code unit, joining, and the last part.
use xmq.Base.{
  ℕ, ◌≡◌, refl, ◌≢◌, ◌∙◌, ap, List, [], ◌∷◌, ◌++◌, ◌==◌, inl, inr, Bool-cases, All, ==_refl,
  append_assoc, arith,
}
use xmq.Js.Text.{Text, split, join, push_head, last_of, but_last}

-- No code unit of the text is `c`.
abbrev pub Lacks : ℕ → Text → Type 0
Lacks c s = All (λ x. x ≢ c) s

-- The split of a text has a first part.
pub split-ne-nil : (c : ℕ) (s : Text) → (p : Text) × (ps : List Text) × (split c s ≡ p ∷ ps)
unfolding split
split-ne-nil c [] = ([], [], refl)
split-ne-nil c (x ∷ s) =
    let (p, ps, e) = split-ne-nil c s in
    elim (Bool-cases (x == c)) [
      | inl same ↦ ([], split c s, rw same)
      | inr other ↦ (x ∷ p, ps, rw (other, e))
    ]

join-push_head :
    (c x : ℕ) (p : Text) (ps : List Text)
    → join (c ∷ []) (push_head x (p ∷ ps)) ≡ x ∷ join (c ∷ []) (p ∷ ps)
unfolding join
join-push_head c x p [] = refl
join-push_head c x p (q ∷ ps) = refl

join-nil_cons :
    (c : ℕ) (p : Text) (ps : List Text) → join (c ∷ []) ([] ∷ (p ∷ ps)) ≡ c ∷ join (c ∷ []) (p ∷ ps)
unfolding join
join-nil_cons c p ps = refl

-- Joining the parts with the separator gives the text back.
pub join-split : (c : ℕ) (s : Text) → join (c ∷ []) (split c s) ≡ s
unfolding split
join-split c [] = unfold join in refl
join-split c (x ∷ s) =
    let (p, ps, e) = split-ne-nil c s in
    let ih : join (c ∷ []) (p ∷ ps) ≡ s = rw (← e) (join-split c s) in
    elim (Bool-cases (x == c)) [
      | inl same ↦ rw (same, e, join-nil_cons, ih) (ground arith)
      | inr other ↦ rw (other, e, join-push_head, ih)
    ]

-- No part holds the separator.
pub split-Lacks : (c : ℕ) (s : Text) → All (Lacks c) (split c s)
unfolding split
split-Lacks c [] = (tt, tt)
split-Lacks c (x ∷ s) =
    let (p, ps, e) = split-ne-nil c s in
    let ih : All (Lacks c) (p ∷ ps) = rw e at (split-Lacks c s) in
    elim (Bool-cases (x == c)) [
      | inl same ↦ rw (same, e) (tt, ih)
      | inr other ↦ rw (other, e) ((ground arith, ih.0), ih.1)
    ]

-- A text without the separator is its only part.
pub split_of_Lacks : (c : ℕ) (s : Text) → Lacks c s → split c s ≡ s ∷ []
unfolding split
split_of_Lacks c [] h = refl
split_of_Lacks c (x ∷ s) (h, k) = ground (arith, split_of_Lacks c s k)

-- A first part without the separator is split off.
pub split-cons : (c : ℕ) (p s : Text) → Lacks c p → split c (p ++ c ∷ s) ≡ p ∷ split c s
unfolding split
split-cons c [] s h = rw ==_refl
split-cons c (x ∷ p) s (h, k) = ground (arith, split-cons c p s k)

All-last_of {ℓ κ} :
    {A : Type ℓ} (P : A → Type κ) (d : A) (xs : List A) → P d → All P xs → P (last_of d xs)
All-last_of P d [] h k = h
All-last_of P d (x ∷ xs) h (p, k) = All-last_of P x xs p k

-- The last part holds no separator.
pub last_of-Lacks : (c : ℕ) (s : Text) → Lacks c (last_of [] (split c s))
last_of-Lacks c s = All-last_of (Lacks c) [] (split c s) tt (split-Lacks c s)

-- The parts but the last, joined, then the separator and the last part, are all the parts joined.
pub join-but_last :
    (sep p q : Text) (ps : List Text)
    → join sep (but_last (p ∷ (q ∷ ps))) ++ (sep ++ last_of [] (q ∷ ps)) ≡ join sep (p ∷ (q ∷ ps))
unfolding join
join-but_last sep p q [] = refl
join-but_last sep p q (r ∷ ps) =
    append_assoc p _ _
    ∙ ap (λ t. p ++ t) (append_assoc sep _ _ ∙ ap (λ t. sep ++ t) (join-but_last sep q r ps))

push_head-append :
    (x : ℕ) (p : Text) (ps qs : List Text)
    → push_head x ((p ∷ ps) ++ qs) ≡ push_head x (p ∷ ps) ++ qs
push_head-append x p ps qs = refl

-- A separator between two texts splits there.
pub split-append : (c : ℕ) (s t : Text) → split c (s ++ c ∷ t) ≡ split c s ++ split c t
unfolding split
split-append c [] t = rw ==_refl
split-append c (x ∷ s) t =
    let (p, ps, e) = split-ne-nil c s in
    elim (Bool-cases (x == c)) [
      | inl same ↦ rw (same, split-append c s t)
      | inr other ↦ rw (other, split-append c s t, e)
    ]

last_of-append {ℓ} : {A : Type ℓ} (d : A) (xs : List A) (x : A) → last_of d (xs ++ x ∷ []) ≡ x
last_of-append d [] x = refl
last_of-append d (y ∷ xs) x = last_of-append y xs x

pub but_last-append {ℓ} : {A : Type ℓ} (xs : List A) (x : A) → but_last (xs ++ x ∷ []) ≡ xs
but_last-append [] x = refl
but_last-append (y ∷ []) x = refl
but_last-append (y ∷ (z ∷ xs)) x = ap (λ l. y ∷ l) (but_last-append (z ∷ xs) x)

-- The last part of a text, and the other parts joined again, where the last part is known.
pub split_last :
    (c : ℕ) (s t : Text)
    → Lacks c t
    → (last_of [] (split c (s ++ c ∷ t)) ≡ t)
      × (join (c ∷ []) (but_last (split c (s ++ c ∷ t))) ≡ s)
split_last c s t h =
    let parts : split c (s ++ c ∷ t) ≡ split c s ++ t ∷ [] =
      split-append c s t ∙ ap (λ l. split c s ++ l) (split_of_Lacks c t h) in
    (rw (parts, last_of-append), rw (parts, but_last-append) (join-split c s))
