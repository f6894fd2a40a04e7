-- ===== src/Js/Uri.antt =====
-- `encodeURIComponent` over UTF-16 code units; `none` is the URIError of a lone surrogate.
pub mod Inverse
pub mod Injective
pub mod Plain
use xmq.Base.{
  ℕ, ◌+◌, ◌-◌, ◌*◌, ◌/◌, ◌%◌, ◌<◌, ◌≡◌, refl, ◌≢◌, ◌⊎◌, Bool, true, ◌&&◌, ◌||◌, Option, none, some,
  List, [], ◌∷◌, ◌++◌, map, ltb, leb, ◌==◌, if◌then◌else◌, any, All, All-append, concat, arith,
  Bool-cases, inl, inr, subst, ◌∙◌, if_elim,
}
use xmq.Js.Text.{Text, lit}
use xmq.Js.Text.Split.{Lacks}

-- The characters that stay: letters, digits and - _ . ! ~ * ' ( )
unfoldable pub is_unreserved : ℕ → Bool
is_unreserved c =
    (leb b'a' c && leb c b'z')
    || ((leb b'A' c && leb c b'Z')
        || ((leb b'0' c && leb c b'9') || any (λ x. x == c) (lit "-_.!~*'()")))

hex : ℕ → ℕ
hex n = if ltb n 10 then 48 + n else 55 + n

percent : ℕ → Text
unfolding hex
percent b = b'%' ∷ hex (b / 16) ∷ hex (b % 16) ∷ []

unfoldable pub utf8 : ℕ → List ℕ
utf8 p =
    if ltb p 128
    then p ∷ []
    else if ltb p 2048
    then (192 + p / 64) ∷ (128 + p % 64) ∷ []
    else if ltb p 65536
    then (224 + p / 4096) ∷ (128 + p / 64 % 64) ∷ (128 + p % 64) ∷ []
    else (240 + p / 262144) ∷ (128 + p / 4096 % 64) ∷ (128 + p / 64 % 64) ∷ (128 + p % 64) ∷ []

unfoldable pub encode_code : ℕ → Text
unfolding percent utf8 is_unreserved
encode_code p = if is_unreserved p then p ∷ [] else concat (map percent (utf8 p))

is_low : ℕ → Bool
is_low c = leb 0xdc00 c && leb c 0xdfff

is_high : ℕ → Bool
is_high c = leb 0xd800 c && leb c 0xdbff

prepend : Text → Option Text → Option Text
prepend s none = none
prepend s (some t) = some (s ++ t)

unfoldable pub encode_uri_component : Text → Option Text
unfolding encode_code is_low is_high prepend
encode_uri_component [] = some []
encode_uri_component (c ∷ []) = if is_low c || is_high c then none else some (encode_code c)
encode_uri_component (c ∷ (d ∷ s)) =
    let pair =
      prepend (encode_code ((c - 0xd800) * 1024 + (d - 0xdc00) + 65536)) (encode_uri_component s) in
    let single = prepend (encode_code c) (encode_uri_component (d ∷ s)) in
    if is_low c then none else if is_high c then (if is_low d then pair else none) else single

-- A character of an encoded text.
abbrev pub IsUriChar : ℕ → Type 0
IsUriChar c = (is_unreserved c ≡ true) ⊎ (c ≡ b'%')

hex-IsUriChar : (n : ℕ) → n < 16 → IsUriChar (hex n)
unfolding hex is_unreserved
hex-IsUriChar n h = ground arith

percent-IsUriChar : (b : ℕ) → b < 256 → All IsUriChar (percent b)
unfolding percent
percent-IsUriChar b h =
    (inr refl, (hex-IsUriChar (b / 16) (omega arith), (hex-IsUriChar (b % 16) (omega arith), tt)))

utf8-bytes : (p : ℕ) → p < 0x110000 → All (λ b. b < 256) (utf8 p)
unfolding utf8
utf8-bytes p h = ground arith

percents-IsUriChar : (bs : List ℕ) → All (λ b. b < 256) bs → All IsUriChar (concat (map percent bs))
percents-IsUriChar [] h = tt
percents-IsUriChar (b ∷ bs) (h, k) =
    All-append IsUriChar (percent b) _ (percent-IsUriChar b h) (percents-IsUriChar bs k)

encode_code-IsUriChar : (p : ℕ) → p < 0x110000 → All IsUriChar (encode_code p)
unfolding encode_code
encode_code-IsUriChar p h = elim (Bool-cases (is_unreserved p)) [
  | inl plain ↦ rw plain (inl plain, tt)
  | inr other ↦ rw other (percents-IsUriChar (utf8 p) (utf8-bytes p h))
]

some-eq : {s t : Text} → some s ≡ some t → s ≡ t
some-eq e = cc

abbrev Encoded : Option Text → Type 0
Encoded o = (t : Text) → o ≡ some t → All IsUriChar t

prepend-Encoded : (s : Text) (o : Option Text) → All IsUriChar s → Encoded o → Encoded (prepend s o)
unfolding prepend
prepend-Encoded s none h k t e = cc
prepend-Encoded s (some r) h k t e =
    subst (All IsUriChar) (some-eq e) (All-append IsUriChar s r h (k r refl))

none-Encoded : Encoded none
none-Encoded t e = cc

pair-bound :
    (c d : ℕ)
    → is_high c ≡ true
    → is_low d ≡ true
    → (c - 0xd800) * 1024 + (d - 0xdc00) + 65536 < 0x110000
unfolding is_high is_low
pair-bound c d h k = ground arith

-- An encoded text holds unreserved characters and `%` alone.
pub encode-IsUriChar :
    (s t : Text) → All (λ c. c < 65536) s → encode_uri_component s ≡ some t → All IsUriChar t
unfolding encode_uri_component
encode-IsUriChar [] t h = λ e. subst (All IsUriChar) (some-eq e) tt
encode-IsUriChar (c ∷ []) t (h, k) =
    if_elim Encoded _ none _ (λ _. none-Encoded)
      (λ _ r e. subst (All IsUriChar) (some-eq e) (encode_code-IsUriChar c (omega arith))) t
encode-IsUriChar (c ∷ (d ∷ s)) t (h, (k, l)) =
    if_elim Encoded (is_low c) none _ (λ _. none-Encoded)
      (λ _.
        if_elim Encoded (is_high c) _ _
          (λ hi.
            if_elim Encoded (is_low d) _ none
              (λ lo.
                prepend-Encoded _ (encode_uri_component s)
                  (encode_code-IsUriChar _ (pair-bound c d hi lo)) (λ r. encode-IsUriChar s r l))
              (λ _. none-Encoded))
          (λ _.
            prepend-Encoded _ (encode_uri_component (d ∷ s)) (encode_code-IsUriChar c (omega arith))
              (λ r. encode-IsUriChar (d ∷ s) r (k, l))))
      t

not_slash : (c : ℕ) → IsUriChar c → c ≢ b'/'
unfolding is_unreserved
not_slash c h = ground arith

All-mono {ℓ κ λ'} :
    {A : Type ℓ} (P : A → Type κ) (Q : A → Type λ') (xs : List A)
    → ((x : A) → P x → Q x)
    → All P xs
    → All Q xs
All-mono P Q [] f h = tt
All-mono P Q (x ∷ xs) f (h, k) = (f x h, All-mono P Q xs f k)

-- An encoded text is one part of a path: it holds no slash.
pub encode-Lacks_slash :
    (s t : Text) → All (λ c. c < 65536) s → encode_uri_component s ≡ some t → Lacks b'/' t
encode-Lacks_slash s t h e = All-mono IsUriChar _ t not_slash (encode-IsUriChar s t h e)

test_encode :
    encode_uri_component (lit "a b/ü€#" ++ 0xd83d ∷ 0xde00 ∷ [])
    ≡ some (lit "a%20b%2F%C3%BC%E2%82%AC%23%F0%9F%98%80")
unfolding encode_uri_component
test_encode = refl

encode_code-ne-nil : (p : ℕ) → encode_code p ≢ []
unfolding encode_code utf8 percent
encode_code-ne-nil p = ground arith

abbrev Full : Option Text → Type 0
Full o = (t : Text) → o ≡ some t → t ≢ []

none-Full : Full none
none-Full t e = cc

prepend-Full : (s : Text) (o : Option Text) → s ≢ [] → Full (prepend s o)
unfolding prepend
prepend-Full [] o h t e = absurd (h refl)
prepend-Full (c ∷ s) none h t e = cc
prepend-Full (c ∷ s) (some r) h t e = cc

-- The encoding of a text that is not empty is not empty.
pub encode-ne-nil : (c : ℕ) (s t : Text) → encode_uri_component (c ∷ s) ≡ some t → t ≢ []
unfolding encode_uri_component
encode-ne-nil c [] t =
    if_elim Full _ none _ (λ _. none-Full) (λ _ r e h. encode_code-ne-nil c (some-eq e ∙ h)) t
encode-ne-nil c (d ∷ s) t =
    if_elim Full (is_low c) none _ (λ _. none-Full)
      (λ _.
        if_elim Full (is_high c) _ _
          (λ _.
            if_elim Full (is_low d) _ none
              (λ _.
                prepend-Full _ (encode_uri_component s)
                  (encode_code-ne-nil ((c - 0xd800) * 1024 + (d - 0xdc00) + 65536)))
              (λ _. none-Full))
          (λ _. prepend-Full _ (encode_uri_component (d ∷ s)) (encode_code-ne-nil c)))
      t
