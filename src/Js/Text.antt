-- ===== src/Js/Text.antt =====
-- Strings of the language, as sequences of UTF-16 code units, and the methods that the program calls.
pub mod Split
pub mod Replace
use Prim.Native.Char.{code}
use xmq.Base.{
  ℕ, ◌-◌, ◌≡◌, refl, ◌↔◌, Bool, true, false, ◌&&◌, String, List, [], ◌∷◌, ◌++◌, min, ltb, ◌==◌,
  if◌then◌else◌, length, take, drop, any, arith,
}

abbrev pub Text : Type 0
Text = List ℕ

-- A literal of the source.
abbrev pub lit : String → Text
lit String.[] = []
lit (String.◌∷◌ c s) = code c ∷ lit s

infix 50 ◌===◌
unfoldable pub ◌===◌ : Text → Text → Bool
[] === [] = true
[] === (y ∷ ys) = false
(x ∷ xs) === [] = false
(x ∷ xs) === (y ∷ ys) = (x == y) && (xs === ys)

pub ===_iff : (s t : Text) → ((s === t) ≡ true) ↔ (s ≡ t)
unfolding ◌===◌
===_iff [] [] = ground arith
===_iff [] (y ∷ t) = ground arith
===_iff (x ∷ s) [] = ground arith
===_iff (x ∷ s) (y ∷ t) = ground (arith, ===_iff s t)

pub ===_refl : (s : Text) → (s === s) ≡ true
===_refl s = (===_iff s s).1 refl

-- `s.includes(c)` for one code unit
abbrev pub includes : ℕ → Text → Bool
includes c = any (λ x. x == c)

-- `s.split(c)` for one code unit
abbrev pub push_head : ℕ → List Text → List Text
push_head x [] = (x ∷ []) ∷ []
push_head x (p ∷ ps) = (x ∷ p) ∷ ps

unfoldable pub split : ℕ → Text → List Text
split c [] = [] ∷ []
split c (x ∷ s) = let rest = split c s in if x == c then [] ∷ rest else push_head x rest

-- `parts.join(sep)`
unfoldable pub join : Text → List Text → Text
join sep [] = []
join sep (p ∷ []) = p
join sep (p ∷ (q ∷ ps)) = p ++ (sep ++ join sep (q ∷ ps))

-- `parts.pop()` of a sequence that is not empty: the result, and what stays
abbrev pub last_of {ℓ} : {A : Type ℓ} → A → List A → A
last_of d [] = d
last_of d (x ∷ xs) = last_of x xs

abbrev pub but_last {ℓ} : {A : Type ℓ} → List A → List A
but_last [] = []
but_last (x ∷ []) = []
but_last (x ∷ (y ∷ xs)) = x ∷ but_last (y ∷ xs)

-- `s.substring(i, j)`: both are clamped to the length, and the smaller is the start
unfoldable pub substring : Text → ℕ → ℕ → Text
substring s i j =
    let a = min i (length s) in
    let b = min j (length s) in if ltb b a then take (a - b) (drop b s) else take (b - a) (drop a s)

test_split : split 58 (lit "a:bc::") ≡ lit "a" ∷ lit "bc" ∷ [] ∷ [] ∷ []
unfolding split
test_split = refl

test_join : join (lit ":") (split 58 (lit "a:bc::")) ≡ lit "a:bc::"
unfolding split join
test_join = refl

test_substring : substring (lit "xmq.h.") 6 1 ≡ lit "mq.h."
unfolding substring
test_substring = refl
