-- ===== src/Js/Decimal.antt =====
-- The decimal text of a whole number, `n.toString()` below 10 ^ 21.
use xmq.Base.{
  ℕ, zero, suc, ◌+◌, ◌*◌, ◌/◌, ◌%◌, ◌<◌, ◌≤◌, ◌≡◌, refl, ◌∙◌, ap, [], ◌∷◌, ◌++◌, ltb, leb, ◌&&◌,
  true, Bool, if◌then◌else◌, All, All-append, append_assoc, Bool-cases, inl, inr, arith, ◌-◌, sym,
}
use xmq.Js.Text.{Text, lit}

digits : ℕ → ℕ → Text
digits zero n = []
digits (suc f) n =
    let rest = digits f (n / 10) in if ltb n 10 then (48 + n) ∷ [] else rest ++ (48 + n % 10) ∷ []

unfoldable pub show : ℕ → Text
unfolding digits
show n = digits (suc n) n

digits_fuel : (f g n : ℕ) → n < f → n < g → digits f n ≡ digits g n
unfolding digits
digits_fuel zero g n h k = absurd (omega arith)
digits_fuel (suc f) zero n h k = absurd (omega arith)
digits_fuel (suc f) (suc g) n h k = ground (arith, digits_fuel f g (n / 10))

pub show_small : (n : ℕ) → n < 10 → show n ≡ (48 + n) ∷ []
unfolding show
show_small n h = ground arith

pub show_step : (n : ℕ) → 10 ≤ n → show n ≡ show (n / 10) ++ (48 + n % 10) ∷ []
unfolding show
show_step n h = ground (arith, digits_fuel n (suc (n / 10)) (n / 10))

abbrev pub three_digits : ℕ → Text
three_digits r = (48 + r / 100) ∷ (48 + r / 10 % 10) ∷ (48 + r % 10) ∷ []

-- Three digits at the end are those of the remainder by a thousand.
pub show_thousand : (n : ℕ) → 1000 ≤ n → show n ≡ show (n / 1000) ++ three_digits (n % 1000)
show_thousand n h =
    let tens : show n ≡ show (n / 10) ++ (48 + n % 10) ∷ [] = show_step n (omega arith) in
    let hundreds : show (n / 10) ≡ show (n / 10 / 10) ++ (48 + n / 10 % 10) ∷ [] =
      show_step (n / 10) (omega arith) in
    let thousands : show (n / 10 / 10) ≡ show (n / 10 / 10 / 10) ++ (48 + n / 10 / 10 % 10) ∷ [] =
      show_step (n / 10 / 10) (omega arith) in
    let whole : n / 10 / 10 / 10 ≡ n / 1000 = omega arith in
    let third : n / 10 / 10 % 10 ≡ n % 1000 / 100 = omega arith in
    let second : n / 10 % 10 ≡ n % 1000 / 10 % 10 = omega arith in
    let first : n % 10 ≡ n % 1000 % 10 = omega arith in
    rw (tens, hundreds, thousands, whole, third, second, first) (simp append_assoc)

abbrev pub is_digit : ℕ → Bool
is_digit c = leb b'0' c && leb c b'9'

digits-All : (f n : ℕ) → All (λ c. is_digit c ≡ true) (digits f n)
unfolding digits
digits-All zero n = tt
digits-All (suc f) n = elim (Bool-cases (ltb n 10)) [
  | inl small ↦ rw small (ground arith, tt)
  | inr big ↦ rw big (
      All-append (λ c. is_digit c ≡ true) (digits f (n / 10)) _ (digits-All f (n / 10))
        (ground arith, tt))
]

pub show-All : (n : ℕ) → All (λ c. is_digit c ≡ true) (show n)
unfolding show
show-All n = digits-All (suc n) n

test_show : show 1203450 ≡ lit "1203450"
unfolding show
test_show = refl

-- The number that a text of digits stands for.
abbrev pub read : ℕ → Text → ℕ
read acc [] = acc
read acc (c ∷ s) = read (acc * 10 + (c - 48)) s

read-append : (acc : ℕ) (s : Text) (c : ℕ) → read acc (s ++ c ∷ []) ≡ read acc s * 10 + (c - 48)
read-append acc [] c = refl
read-append acc (d ∷ s) c = read-append (acc * 10 + (d - 48)) s c

read-digits : (f n : ℕ) → n < f → read 0 (digits f n) ≡ n
unfolding digits
read-digits zero n h = absurd (omega arith)
read-digits (suc f) n h = elim (Bool-cases (ltb n 10)) [
  | inl small ↦ rw small (omega arith)
  | inr big ↦
      let few : 10 ≤ n = ground arith in
      let ih : read 0 (digits f (n / 10)) ≡ n / 10 = read-digits f (n / 10) (omega arith) in
      rw (big, read-append 0 (digits f (n / 10)) (48 + n % 10), ih) (omega arith)
]

pub read-show : (n : ℕ) → read 0 (show n) ≡ n
unfolding show
read-show n = read-digits (suc n) n (omega arith)

-- Two numbers with one text are equal.
pub show-injective : (m n : ℕ) → show m ≡ show n → m ≡ n
show-injective m n e = sym (read-show m) ∙ (ap (read 0) e ∙ read-show n)
