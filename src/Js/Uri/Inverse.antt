-- ===== src/Js/Uri/Inverse.antt =====
-- Reading an encoded text back: its bytes, their code points, and the code units of those.
use xmq.Base.{
  ℕ, ◌+◌, ◌-◌, ◌*◌, ◌/◌, ◌%◌, ◌<◌, ◌≡◌, ◌≢◌, refl, ap, ◌∙◌, true, Option, none, some, List, [], ◌∷◌,
  ◌++◌, map, append_assoc, ltb, ◌==◌, if◌then◌else◌, All, concat, arith, Bool-cases, inl, inr,
}
use xmq.Js.Text.{Text}
use xmq.Js.Uri.{is_unreserved, hex, percent, utf8, encode_code, utf8-bytes}

unhex : ℕ → ℕ
unhex c = if ltb c 58 then c - 48 else c - 55

unhex-hex : (n : ℕ) → n < 16 → unhex (hex n) ≡ n
unfolding unhex hex
unhex-hex n h = ground arith

-- The bytes that an encoded text stands for.
unfoldable pub bytes : Text → List ℕ
unfolding unhex
bytes [] = []
bytes (c ∷ []) = c ∷ []
bytes (c ∷ (d ∷ [])) = c ∷ d ∷ []
bytes (c ∷ (d ∷ (e ∷ s))) =
    let escaped = (unhex d * 16 + unhex e) ∷ bytes s in
    let plain = c ∷ bytes (d ∷ (e ∷ s)) in if c == b'%' then escaped else plain

bytes-plain : (c : ℕ) (s : Text) → c ≢ b'%' → bytes (c ∷ s) ≡ c ∷ bytes s
unfolding bytes
bytes-plain c [] h = refl
bytes-plain c (d ∷ []) h = refl
bytes-plain c (d ∷ (e ∷ s)) h = ground arith

bytes-percent : (b : ℕ) (s : Text) → b < 256 → bytes (percent b ++ s) ≡ b ∷ bytes s
unfolding bytes percent
bytes-percent b s h =
    rw (unhex-hex (b / 16) (omega arith), unhex-hex (b % 16) (omega arith))
      (ap (λ (x : ℕ). x ∷ bytes s) (omega arith))

bytes-percents :
    (bs : List ℕ) (s : Text)
    → All (λ b. b < 256) bs
    → bytes (concat (map percent bs) ++ s) ≡ bs ++ bytes s
bytes-percents [] s h = refl
bytes-percents (b ∷ bs) s (h, k) =
    ap bytes (append_assoc (percent b) (concat (map percent bs)) s)
    ∙ (bytes-percent b (concat (map percent bs) ++ s) h ∙ ap (λ t. b ∷ t) (bytes-percents bs s k))

unreserved_plain : (p : ℕ) → is_unreserved p ≡ true → (p ≢ b'%') × (utf8 p ≡ p ∷ [])
unfolding is_unreserved utf8
unreserved_plain p h = ground arith

pub bytes-encode_code :
    (p : ℕ) (s : Text) → p < 0x110000 → bytes (encode_code p ++ s) ≡ utf8 p ++ bytes s
unfolding encode_code
bytes-encode_code p s h = elim (Bool-cases (is_unreserved p)) [
  | inl plain ↦
      rw (plain, (unreserved_plain p plain).1) (bytes-plain p s (unreserved_plain p plain).0)
  | inr other ↦ rw other (bytes-percents (utf8 p) s (utf8-bytes p h))
]

-- The code point that bytes begin with, and the bytes behind it.
read_two : ℕ → List ℕ → Option (ℕ × List ℕ)
read_two a (b ∷ s) = some ((a - 192) * 64 + (b - 128), s)
read_two a _ = none

read_three : ℕ → List ℕ → Option (ℕ × List ℕ)
read_three a (b ∷ (c ∷ s)) = some ((a - 224) * 4096 + ((b - 128) * 64 + (c - 128)), s)
read_three a _ = none

read_four : ℕ → List ℕ → Option (ℕ × List ℕ)
read_four a (b ∷ (c ∷ (d ∷ s))) =
    some ((a - 240) * 262144 + ((b - 128) * 4096 + ((c - 128) * 64 + (d - 128))), s)
read_four a _ = none

unfoldable pub read_code : List ℕ → Option (ℕ × List ℕ)
unfolding read_two read_three read_four
read_code [] = none
read_code (a ∷ s) =
    if ltb a 128
    then some (a, s)
    else if ltb a 224
    then read_two a s
    else if ltb a 240
    then read_three a s
    else read_four a s

pub read_code-utf8 : (p : ℕ) (s : List ℕ) → p < 0x110000 → read_code (utf8 p ++ s) ≡ some (p, s)
unfolding read_code utf8 read_two read_three read_four
read_code-utf8 p s h = ground arith
