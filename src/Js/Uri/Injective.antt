-- ===== src/Js/Uri/Injective.antt =====
-- Different texts have different encodings: an encoded text gives its code points, and these the text.
use mathlib.Core.Path.{ap₂}
use xmq.Base.{
  ℕ, ◌+◌, ◌-◌, ◌*◌, ◌/◌, ◌%◌, ◌<◌, ◌≡◌, refl, sym, ap, ◌∙◌, true, Option, none, some, List, [], ◌∷◌,
  ◌++◌, map, append-nil, ltb, if◌then◌else◌, All, concat, arith, if_elim,
}
use xmq.Js.Text.{Text}
use xmq.Js.Uri.{
  utf8, encode_code, is_low, is_high, prepend, encode_uri_component, some-eq, pair-bound,
}
use xmq.Js.Uri.Inverse.{bytes, bytes-encode_code, read_code, read_code-utf8}

abbrev IsPoint : ℕ → Type 0
IsPoint p = p < 0x110000

-- The code units of a code point.
units : ℕ → Text
units p =
    if ltb p 65536
    then p ∷ []
    else (0xd800 + (p - 65536) / 1024) ∷ (0xdc00 + (p - 65536) % 1024) ∷ []

units-single : (p : ℕ) → p < 65536 → units p ≡ p ∷ []
unfolding units
units-single p h = ground arith

units-pair :
    (c d : ℕ)
    → is_high c ≡ true
    → is_low d ≡ true
    → units ((c - 0xd800) * 1024 + (d - 0xdc00) + 65536) ≡ c ∷ d ∷ []
unfolding units is_high is_low
units-pair c d h k = ground arith

bytes-codes :
    (ps : List ℕ) → All IsPoint ps → bytes (concat (map encode_code ps)) ≡ concat (map utf8 ps)
unfolding bytes
bytes-codes [] h = refl
bytes-codes (p ∷ ps) (h, k) =
    bytes-encode_code p (concat (map encode_code ps)) h ∙ ap (λ t. utf8 p ++ t) (bytes-codes ps k)

some-pair :
    {a b : ℕ} {x y : List ℕ}
    → ◌≡◌ {A = Option (ℕ × List ℕ)} (some (a, x)) (some (b, y))
    → (a ≡ b) × (x ≡ y)
some-pair e = (cc, cc)

points-injective :
    (ps qs : List ℕ)
    → All IsPoint ps
    → All IsPoint qs
    → concat (map utf8 ps) ≡ concat (map utf8 qs)
    → ps ≡ qs
unfolding read_code
points-injective [] [] h k e = refl
points-injective [] (q ∷ qs) h (k, l) e =
    let r = ap read_code e ∙ read_code-utf8 q (concat (map utf8 qs)) k in cc
points-injective (p ∷ ps) [] (h, i) k e =
    let r = ap read_code (sym e) ∙ read_code-utf8 p (concat (map utf8 ps)) h in cc
points-injective (p ∷ ps) (q ∷ qs) (h, i) (k, l) e =
    let r : (p ≡ q) × (concat (map utf8 ps) ≡ concat (map utf8 qs)) = some-pair (
      sym (read_code-utf8 p (concat (map utf8 ps)) h)
      ∙ (ap read_code e ∙ read_code-utf8 q (concat (map utf8 qs)) k)) in
    let rest = points-injective ps qs i l r.1 in ap₂ (λ x xs. x ∷ xs) r.0 rest

-- An encoded text comes from code points whose units are the text.
abbrev Coded : Text → Option Text → Type 0
Coded s o =
    (t : Text)
    → o ≡ some t
    → (ps : List ℕ) × (t ≡ concat (map encode_code ps))
      × All IsPoint ps
      × (s ≡ concat (map units ps))

none-Coded : (s : Text) → Coded s none
none-Coded s t e = absurd (cc)

prepend-Coded :
    (p : ℕ) (v s : Text) (o : Option Text)
    → IsPoint p
    → v ≡ units p ++ s
    → Coded s o
    → Coded v (prepend (encode_code p) o)
unfolding prepend
prepend-Coded p v s none h e k t f = absurd (cc)
prepend-Coded p v s (some r) h e k t f =
    let (ps, coded, points, spelt) = k r refl in
    (
      p ∷ ps,
      sym (some-eq f) ∙ ap (λ x. encode_code p ++ x) coded,
      (h, points),
      e ∙ ap (λ x. units p ++ x) spelt,
    )

single-Coded : (c : ℕ) → c < 65536 → Coded (c ∷ []) (some (encode_code c))
single-Coded c h t e = (
  c ∷ [],
  sym (some-eq e) ∙ sym (append-nil (encode_code c)),
  (omega arith, tt),
  sym (ap (λ x. x ++ []) (units-single c h)),
)

encode-Coded : (s : Text) → All (λ c. c < 65536) s → Coded s (encode_uri_component s)
unfolding encode_uri_component
encode-Coded [] h = λ t e. ([], sym (some-eq e), tt, refl)
encode-Coded (c ∷ []) (h, k) =
    if_elim (Coded (c ∷ [])) _ none _ (λ _. none-Coded (c ∷ [])) (λ _. single-Coded c h)
encode-Coded (c ∷ (d ∷ s)) (h, (k, l)) =
    if_elim (Coded (c ∷ (d ∷ s))) (is_low c) none _ (λ _. none-Coded (c ∷ (d ∷ s)))
      (λ _.
        if_elim (Coded (c ∷ (d ∷ s))) (is_high c) _ _
          (λ hi.
            if_elim (Coded (c ∷ (d ∷ s))) (is_low d) _ none
              (λ lo.
                prepend-Coded _ (c ∷ (d ∷ s)) s (encode_uri_component s) (pair-bound c d hi lo)
                  (sym (ap (λ x. x ++ s) (units-pair c d hi lo))) (encode-Coded s l))
              (λ _. none-Coded (c ∷ (d ∷ s))))
          (λ _.
            prepend-Coded c (c ∷ (d ∷ s)) (d ∷ s) (encode_uri_component (d ∷ s)) (omega arith)
              (sym (ap (λ x. x ++ (d ∷ s)) (units-single c h))) (encode-Coded (d ∷ s) (k, l))))

-- Two texts of UTF-16 code units with the same encoding are the same.
pub encode-injective :
    (s r t : Text)
    → All (λ c. c < 65536) s
    → All (λ c. c < 65536) r
    → encode_uri_component s ≡ some t
    → encode_uri_component r ≡ some t
    → s ≡ r
encode-injective s r t h k e f =
    let (ps, coded, points, spelt) = encode-Coded s h t e in
    let (qs, coded', points', spelt') = encode-Coded r k t f in
    let same : ps ≡ qs =
      points-injective ps qs points points'
        (sym (bytes-codes ps points) ∙ (ap bytes (sym coded ∙ coded') ∙ bytes-codes qs points')) in
    spelt ∙ (ap (λ l. concat (map units l)) same ∙ sym spelt')
