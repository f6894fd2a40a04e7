-- ===== src/Js/Uri/Plain.antt =====
-- A character that is not escaped, in front of an encoded text.
use xmq.Base.{ℕ, ◌≡◌, refl, true, false, some, [], ◌∷◌, arith}
use xmq.Js.Text.{Text}
use xmq.Js.Uri.{is_unreserved, encode_code, is_low, is_high, prepend, encode_uri_component}

no_surrogate : (c : ℕ) → is_unreserved c ≡ true → (is_low c ≡ false) × (is_high c ≡ false)
unfolding is_unreserved is_low is_high
no_surrogate c h = ground arith

encode_code-plain : (c : ℕ) → is_unreserved c ≡ true → encode_code c ≡ c ∷ []
unfolding encode_code
encode_code-plain c h = rw h refl

pub encode-cons :
    (c : ℕ) (s r : Text)
    → is_unreserved c ≡ true
    → encode_uri_component s ≡ some r
    → encode_uri_component (c ∷ s) ≡ some (c ∷ r)
unfolding encode_uri_component prepend
encode-cons c [] r h e =
    ground (arith, (no_surrogate c h).0, (no_surrogate c h).1, encode_code-plain c h)
encode-cons c (d ∷ s) r h e =
    rw ((no_surrogate c h).0, (no_surrogate c h).1, encode_code-plain c h, e) refl
