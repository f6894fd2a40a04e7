-- ===== src/Helpers/Numbers/Commas.antt =====
-- The text of `commafy`.
use xmq.Base.{
  ℕ, suc, ◌+◌, ◌/◌, ◌%◌, ◌<◌, ◌≤◌, ◌≡◌, refl, ◌∙◌, ap, Bool, true, false, [], ◌∷◌, ◌++◌, leb, ◌==◌,
  ◌&&◌, not, if◌then◌else◌, All, Bool-cases, inl, inr, length, keep, arith, All-append,
  length-append, sym, subst, ltb, ltb→lt,
}
use xmq.Js.Text.{Text}
use xmq.Js.Decimal.{show, is_digit, show-All, show_thousand, three_digits, show_small, show_step}
use xmq.Helpers.Numbers.{is_word, digit_run, is_break, insert_commas, commafy}

abbrev Digits : Text → Type 0
Digits s = All (λ c. is_digit c ≡ true) s

digit_run_lem : (s : Text) → Digits s → digit_run s ≡ length s
unfolding digit_run
digit_run_lem [] h = refl
digit_run_lem (c ∷ s) (h, k) = rw h (ap suc (digit_run_lem s k))

digit-word : (c : ℕ) → is_digit c ≡ true → is_word c ≡ true
unfolding is_word
digit-word c h = ground arith

commafy_lem : (n : ℕ) → commafy n ≡ insert_commas false (show n)
unfolding commafy
commafy_lem n = refl

-- Groups of three digits.
abbrev three : ℕ → Bool
three n = leb 3 n && (n % 3 == 0)

-- A digit with only digits behind it: a comma stands before it inside a number, where the digits
-- from there on are groups of three.
is_break_lem :
    (word : Bool) (c : ℕ) (s : Text)
    → Digits (c ∷ s)
    → is_break word c s ≡ (if word then three (suc (length s)) else false)
unfolding is_break
is_break_lem true c s (h, k) = rw (digit-word c h, digit_run_lem (c ∷ s) (h, k))
is_break_lem false c s (h, k) = rw (digit-word c h)

insert_head :
    (c : ℕ) (s : Text) → Digits (c ∷ s) → insert_commas false (c ∷ s) ≡ c ∷ insert_commas true s
unfolding insert_commas
insert_head c s h = rw (is_break_lem false c s h, digit-word c h.0)

insert_inside :
    (c : ℕ) (s : Text)
    → Digits (c ∷ s)
    → insert_commas true (c ∷ s) ≡ (
        if three (suc (length s))
        then b',' ∷ c ∷ insert_commas true s
        else c ∷ insert_commas true s)
unfolding insert_commas
insert_inside c s h = rw (is_break_lem true c s h, digit-word c h.0)

module _ (a b c : ℕ) (last : Digits (a ∷ b ∷ c ∷ [])) where
  insert_last : insert_commas true (a ∷ b ∷ c ∷ []) ≡ b',' ∷ a ∷ b ∷ c ∷ []
  insert_last =
      rw
        (
          insert_inside a (b ∷ c ∷ []) last,
          insert_inside b (c ∷ []) last.1,
          insert_inside c [] last.1.1,
        )
        (unfold insert_commas in refl)

  insert_three :
      (s : Text)
      → Digits s
      → insert_commas true (s ++ a ∷ b ∷ c ∷ []) ≡ insert_commas true s ++ b',' ∷ a ∷ b ∷ c ∷ []
  insert_three [] h = insert_last ∙ (unfold insert_commas in refl)
  insert_three (d ∷ s) h = ground (
    arith,
    insert_inside d (s ++ a ∷ b ∷ c ∷ []) (h.0, All-append (λ x. is_digit x ≡ true) s _ h.1 last),
    insert_inside d s h,
    length-append s (a ∷ b ∷ c ∷ []),
    insert_three s h.1,
  )

  insert_number :
      (d : ℕ) (s : Text)
      → Digits (d ∷ s)
      → insert_commas false ((d ∷ s) ++ a ∷ b ∷ c ∷ [])
        ≡ insert_commas false (d ∷ s) ++ b',' ∷ a ∷ b ∷ c ∷ []
  insert_number d s h =
      insert_head d _ (h.0, All-append (λ x. is_digit x ≡ true) s _ h.1 last)
      ∙ (ap (λ t. d ∷ t) (insert_three s h.1)
          ∙ ap (λ t. t ++ b',' ∷ a ∷ b ∷ c ∷ []) (sym (insert_head d s h)))

digit_of : (n : ℕ) → n < 10 → is_digit (48 + n) ≡ true
digit_of n h = ground arith

three_digits-Digits : (r : ℕ) → r < 1000 → Digits (three_digits r)
three_digits-Digits r h = (
  digit_of (r / 100) (omega arith),
  (digit_of (r / 10 % 10) (omega arith), (digit_of (r % 10) (omega arith), tt)),
)

append-cons : (s : Text) (c : ℕ) → (d : ℕ) × (t : Text) × (s ++ c ∷ [] ≡ d ∷ t)
append-cons [] c = (c, [], refl)
append-cons (d ∷ s) c = (d, s ++ c ∷ [], refl)

show-cons : (n : ℕ) → (d : ℕ) × (s : Text) × (show n ≡ d ∷ s)
show-cons n = elim (Bool-cases (ltb n 10)) [
  | inl small ↦ (48 + n, [], show_small n (ground arith))
  | inr big ↦
      let (d, s, e) = append-cons (show (n / 10)) (48 + n % 10) in
      (d, s, show_step n (ground arith) ∙ e)
]

length-show_step : (n : ℕ) → 10 ≤ n → length (show n) ≡ length (show (n / 10)) + 1
length-show_step n h = ap length (show_step n h) ∙ length-append (show (n / 10)) _

length-show_small : (n : ℕ) → n < 10 → length (show n) ≤ 1
length-show_small n h = omega (arith, ap length (show_small n h))

length-show_hundred : (n : ℕ) → n < 100 → length (show n) ≤ 2
length-show_hundred n h = elim (Bool-cases (ltb n 10)) [
  | inl small ↦ omega (arith, length-show_small n (ground arith))
  | inr big ↦
      let step : length (show n) ≡ length (show (n / 10)) + 1 = length-show_step n (ground arith) in
      omega (arith, length-show_small (n / 10) (omega arith))
]

length-show_thousand : (n : ℕ) → n < 1000 → length (show n) ≤ 3
length-show_thousand n h = elim (Bool-cases (ltb n 10)) [
  | inl small ↦ omega (arith, length-show_small n (ground arith))
  | inr big ↦
      let step : length (show n) ≡ length (show (n / 10)) + 1 = length-show_step n (ground arith) in
      omega (arith, length-show_hundred (n / 10) (omega arith))
]

insert_few : (s : Text) → Digits s → length s ≤ 3 → insert_commas false s ≡ s
insert_few [] h k = unfold insert_commas in refl
insert_few (c ∷ []) h k = insert_head c [] h ∙ (unfold insert_commas in refl)
insert_few (c ∷ (d ∷ [])) h k =
    rw (insert_head c _ h, insert_inside d [] h.1) (unfold insert_commas in refl)
insert_few (c ∷ (d ∷ (e ∷ []))) h k =
    rw (insert_head c _ h, insert_inside d _ h.1, insert_inside e [] h.1.1)
      (unfold insert_commas in refl)
insert_few (c ∷ (d ∷ (e ∷ (f ∷ s)))) h k = absurd (omega arith)

commafy_below : (n : ℕ) → n < 1000 → commafy n ≡ show n
commafy_below n h = commafy_lem n ∙ insert_few (show n) (show-All n) (length-show_thousand n h)

commafy_above :
    (n : ℕ) → 1000 ≤ n → commafy n ≡ commafy (n / 1000) ++ b',' ∷ three_digits (n % 1000)
commafy_above n h =
    let (d, s, e) = show-cons (n / 1000) in
    let digits : Digits (d ∷ s) = subst Digits e (show-All (n / 1000)) in
    let whole : show n ≡ (d ∷ s) ++ three_digits (n % 1000) =
      show_thousand n h ∙ ap (λ t. t ++ three_digits (n % 1000)) e in
    let r : ℕ = n % 1000 in
    rw (commafy_lem n, commafy_lem (n / 1000), whole, e)
      (insert_number (48 + r / 100) (48 + r / 10 % 10) (48 + r % 10)
        (three_digits-Digits r (omega arith)) d s digits)

-- Below a thousand the text is the number's; from there on it is the text of the thousands, a comma,
-- and three digits.
pub commafy_thousands :
    (n : ℕ)
    → commafy n
      ≡ (if ltb n 1000 then show n else commafy (n / 1000) ++ b',' ∷ three_digits (n % 1000))
commafy_thousands n = elim (Bool-cases (ltb n 1000)) [
  | inl small ↦ rw small (commafy_below n (ltb→lt n 1000 small))
  | inr big ↦ rw big (commafy_above n (ground arith))
]

insert-erase :
    (word : Bool) (s : Text) → Digits s → keep (λ c. not (c == b',')) (insert_commas word s) ≡ s
insert-erase word [] h = unfold insert_commas in refl
insert-erase true (c ∷ s) h =
    rw (insert_inside c s h) (ground (arith, h.0, insert-erase true s h.1))
insert-erase false (c ∷ s) h = rw (insert_head c s h) (ground (arith, h.0, insert-erase true s h.1))

-- Without its commas, the text is that of the number.
pub commafy-erase : (n : ℕ) → keep (λ c. not (c == b',')) (commafy n) ≡ show n
commafy-erase n = ap (keep _) (commafy_lem n) ∙ insert-erase false (show n) (show-All n)
