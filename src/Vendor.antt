-- ===== src/Vendor.antt =====
-- Code that the program calls and that is not part of it: underscore, and the change events of
-- Backbone's models. Each is a record of its functions with their documented behaviour.
use mathlib.Core.List.{foldl}
use xmq.Base.{
  all, any, not, arith, ◌≡◌, ◌≢◌, ◌↔◌, refl, Bool, true, Option, none, some, List, [], ◌∷◌, map,
  if◌then◌else◌,
}
use xmq.Js.Text.{Text, ◌===◌, ===_iff, but_last}

-- The values behind the entries that are there.
abbrev pub somes {ℓ} : {A : Type ℓ} → List (Option A) → List A
somes [] = []
somes (none ∷ xs) = somes xs
somes (some x ∷ xs) = x ∷ somes xs

-- The value that the last pair with this key gives; a pair with no second item gives undefined.
abbrev pub last_pair : List (List Text) → Text → Option Text
last_pair [] k = none
last_pair ((j ∷ (v ∷ _)) ∷ ps) k =
    let later = last_pair ps k in
    elim later [ some w ↦ some w | none ↦ if j === k then some v else none ]
last_pair (_ ∷ ps) k = last_pair ps k

-- The first of two values that is there.
abbrev pub or_from {ℓ} : {A : Type ℓ} → Option A → Option A → Option A
or_from none b = b
or_from (some x) b = some x

pub record Underscore : Type 1 where
  pub each : {A B : Type 0} → List A → (A → B) → List B
  pub each_lem : {A B : Type 0} (xs : List A) (f : A → B) → each xs f ≡ map f xs
  -- `_.compact`, where `false` is `none`
  pub compact : {A : Type 0} → List (Option A) → List A
  pub compact_lem : {A : Type 0} (xs : List (Option A)) → compact xs ≡ somes xs
  -- `_.object`, read at a key; on a repeated key the last pair wins
  pub object : List (List Text) → Text → Option Text
  -- `_.all` and `_.any`, where the test says which values count as true, and `_.initial`
  pub every : {A : Type 0} → (A → Bool) → List A → Bool
  pub every_lem : {A : Type 0} (p : A → Bool) (xs : List A) → every p xs ≡ all p xs
  pub some_of : {A : Type 0} → (A → Bool) → List A → Bool
  pub some_of_lem : {A : Type 0} (p : A → Bool) (xs : List A) → some_of p xs ≡ any p xs
  pub initial : {A : Type 0} → List A → List A
  pub initial_lem : {A : Type 0} (xs : List A) → initial xs ≡ but_last xs
  -- `_.extend`, on objects read at a key: the source's properties win
  pub extend : {A : Type 0} → (Text → Option A) → (Text → Option A) → Text → Option A
  pub extend_lem :
      {A : Type 0} (a b : Text → Option A) (k : Text) → extend a b k ≡ or_from (b k) (a k)
  -- `_.defaults`: the first object's properties win
  pub defaults : {A : Type 0} → (Text → Option A) → (Text → Option A) → Text → Option A
  pub defaults_lem :
      {A : Type 0} (a b : Text → Option A) (k : Text) → defaults a b k ≡ or_from (a k) (b k)
  -- `_.reduce`
  pub reduce : {A B : Type 0} → List A → (B → A → B) → B → B
  pub reduce_lem :
      {A B : Type 0} (xs : List A) (f : B → A → B) (z : B) → reduce xs f z ≡ foldl f z xs
  pub object_lem : (ps : List (List Text)) (k : Text) → object ps k ≡ last_pair ps k

-- Whether `model.set(attribute, value)` triggers `change:attribute`.
pub record ModelEvents : Type 0 where
  pub changes : Text → Text → Bool
  pub changes_iff : (old new : Text) → (changes old new ≡ true) ↔ (old ≢ new)

pub not-===_iff : (old new : Text) → (not (old === new) ≡ true) ↔ (old ≢ new)
not-===_iff old new = ground (arith, ===_iff old new)

abbrev pub plain_underscore : Underscore
plain_underscore = record {
  each = λ xs f. map f xs;
  each_lem = λ xs f. refl;
  compact = somes;
  compact_lem = λ xs. refl;
  every = all;
  every_lem = λ p xs. refl;
  some_of = any;
  some_of_lem = λ p xs. refl;
  initial = but_last;
  initial_lem = λ xs. refl;
  extend = λ a b k. or_from (b k) (a k);
  extend_lem = λ a b k. refl;
  defaults = λ a b k. or_from (a k) (b k);
  defaults_lem = λ a b k. refl;
  reduce = λ xs f z. foldl f z xs;
  reduce_lem = λ xs f z. refl;
  object = last_pair;
  object_lem = λ ps k. refl;
}

abbrev pub plain_events : ModelEvents
plain_events = record { changes = λ old new. not (old === new); changes_iff = not-===_iff }
