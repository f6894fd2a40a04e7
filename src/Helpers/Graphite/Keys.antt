-- ===== src/Helpers/Graphite/Keys.antt =====
-- The characters of sanitized and host keys.
use xmq.Base.{
  ℕ, suc, length, ◌≡◌, refl, ◌≢◌, Bool, true, List, [], ◌∷◌, map, keep, All, arith, ◌↔◌, subst, ap,
}
use xmq.Js.Text.{Text}
use xmq.Js.Text.Split.{Lacks}
use xmq.Helpers.Graphite.{
  sanitize_graphite_key, is_key_char, space_char, slash_char, host_key, host_char,
}

keep-All : {A : Type 0} (p : A → Bool) (xs : List A) → All (λ x. p x ≡ true) (keep p xs)
keep-All p [] = tt
keep-All p (x ∷ xs) = ground (arith, keep-All p xs)

-- Every character of a sanitized key is a letter, a digit, a dash, an underscore or a dot.
pub sanitize-All : (s : Text) → All (λ c. is_key_char c ≡ true) (sanitize_graphite_key s)
unfolding sanitize_graphite_key
sanitize-All s = keep-All is_key_char (map slash_char (map space_char s))

key_char_fixed : (c : ℕ) → is_key_char c ≡ true → slash_char (space_char c) ≡ c
unfolding is_key_char slash_char space_char
key_char_fixed c h = ground arith

pub sanitize-cons :
    (c : ℕ) (s : Text)
    → is_key_char c ≡ true
    → sanitize_graphite_key (c ∷ s) ≡ c ∷ sanitize_graphite_key s
unfolding sanitize_graphite_key
sanitize-cons c s h = ground (arith, key_char_fixed c h)

sanitize_of_All : (s : Text) → All (λ c. is_key_char c ≡ true) s → sanitize_graphite_key s ≡ s
unfolding sanitize_graphite_key
sanitize_of_All [] h = refl
sanitize_of_All (c ∷ s) (h, k) = ground (arith, key_char_fixed c h, sanitize_of_All s k)

-- A key is its own sanitized form exactly when it holds letters, digits, dashes, underscores and
-- dots alone.
pub sanitize_fixed_iff :
    (s : Text) → (sanitize_graphite_key s ≡ s) ↔ All (λ c. is_key_char c ≡ true) s
sanitize_fixed_iff s =
    (λ e. subst (All (λ c. is_key_char c ≡ true)) e (sanitize-All s), sanitize_of_All s)

-- A character of a key is none of those with a meaning in a format, a target or a template.
pub key_char-plain :
    (c : ℕ) → is_key_char c ≡ true → (c ≢ b'$') × (c ≢ b'%') × (c ≢ b'(') × (c ≢ b',')
unfolding is_key_char
key_char-plain c h = ground arith

pub sanitize-Lacks_dollar : (s : Text) → Lacks b'$' (sanitize_graphite_key s)
sanitize-Lacks_dollar s = go (sanitize_graphite_key s) (sanitize-All s)
  where
    go : (t : Text) → All (λ c. is_key_char c ≡ true) t → Lacks b'$' t
    go [] h = tt
    go (c ∷ t) (h, k) = ((key_char-plain c h).0, go t k)

host_char-plain : (c : ℕ) → (host_char c ≢ b'.') × (host_char c ≢ b':')
unfolding host_char
host_char-plain c = ground arith

-- The key of a host is one component of a Graphite path: it has the host's length and no dot or colon.
pub host_key-Lacks :
    (s : Text)
    → Lacks b'.' (host_key s) × Lacks b':' (host_key s) × (length (host_key s) ≡ length s)
unfolding host_key
host_key-Lacks [] = (tt, tt, refl)
host_key-Lacks (c ∷ s) =
    let (dots, colons, same) = host_key-Lacks s in
    (((host_char-plain c).0, dots), ((host_char-plain c).1, colons), ap suc same)
