-- ===== src/Protocol/Names.antt =====
-- A valid name in the addresses and in the graphs of the admin page.
use xmq.Base.{
  ℕ, ◌≡◌, ◌⊎◌, inl, inr, refl, subst, append-nil, ap, ◌∙◌, true, some, [], ◌∷◌, ◌++◌, All,
  Bool-cases, arith,
}
use xmq.Js.Text.{Text, lit, ◌===◌, ===_iff}
use xmq.Js.Uri.{encode_uri_component, is_unreserved}
use xmq.Js.Uri.Plain.{encode-cons}
use xmq.Helpers.Graphite.Keys.{sanitize-cons}
use xmq.Helpers.Graphite.{sanitize_graphite_key, is_key_char}
use xmq.Protocol.{
  is_name_char, is_name_rest, matches_name, is_valid_name, is_valid_topic_name, ephemeral,
}

-- Name characters, and then the suffix or nothing.
abbrev IsNameText : Text → Type 0
IsNameText s =
    All (λ c. is_name_char c ≡ true) s
    ⊎ ((t : Text) × (s ≡ t ++ ephemeral) × All (λ c. is_name_char c ≡ true) t)

consed : (c : ℕ) (s : Text) → is_name_char c ≡ true → IsNameText s → IsNameText (c ∷ s)
consed c s h (inl k) = inl (h, k)
consed c s h (inr (t, e, k)) = inr (c ∷ t, ap (λ x. c ∷ x) e, (h, k))

rest_lem : (s : Text) → is_name_rest s ≡ true → IsNameText s
unfolding is_name_rest
rest_lem [] h = inl tt
rest_lem (c ∷ s) h = elim (Bool-cases ((c ∷ s) === ephemeral)) [
  | inl e ↦ inr ([], (===_iff (c ∷ s) ephemeral).0 e, tt)
  | inr e ↦
      let both : (is_name_char c ≡ true) × (is_name_rest s ≡ true) = ground (arith, e) in
      consed c s both.0 (rest_lem s both.1)
]

matches_lem : (s : Text) → matches_name s ≡ true → IsNameText s
unfolding matches_name
matches_lem [] h = cc
matches_lem (c ∷ s) h =
    let both : (is_name_char c ≡ true) × (is_name_rest s ≡ true) = ground arith in
    consed c s both.0 (rest_lem s both.1)

valid_lem : (s : Text) → is_valid_name s ≡ true → IsNameText s
unfolding is_valid_name
valid_lem s h = matches_lem s (ground arith)

name_char-plain :
    (c : ℕ) → is_name_char c ≡ true → (is_key_char c ≡ true) × (is_unreserved c ≡ true)
unfolding is_name_char is_key_char is_unreserved
name_char-plain c h = ground arith

sanitize-name :
    (t s : Text)
    → All (λ c. is_name_char c ≡ true) t
    → sanitize_graphite_key (t ++ s) ≡ t ++ sanitize_graphite_key s
sanitize-name [] s h = refl
sanitize-name (c ∷ t) s (h, k) =
    sanitize-cons c (t ++ s) (name_char-plain c h).0 ∙ ap (λ x. c ∷ x) (sanitize-name t s k)

encode-name :
    (t s r : Text)
    → All (λ c. is_name_char c ≡ true) t
    → encode_uri_component s ≡ some r
    → encode_uri_component (t ++ s) ≡ some (t ++ r)
encode-name [] s r h e = e
encode-name (c ∷ t) s r (h, k) e =
    encode-cons c (t ++ s) (t ++ r) (name_char-plain c h).1 (encode-name t s r k e)

encode_ephemeral : encode_uri_component ephemeral ≡ some (lit "%23ephemeral")
unfolding encode_uri_component
encode_ephemeral = refl

sanitize_ephemeral : sanitize_graphite_key ephemeral ≡ lit "ephemeral"
unfolding sanitize_graphite_key
sanitize_ephemeral = refl

encode_nothing : encode_uri_component [] ≡ some []
unfolding encode_uri_component
encode_nothing = refl

sanitize_nothing : sanitize_graphite_key [] ≡ []
unfolding sanitize_graphite_key
sanitize_nothing = refl

-- A valid name of a topic is its own encoding in an address and its own key in a graph; or it ends in
-- "#ephemeral", and its encoding has "%23" for the "#", which its key leaves out.
pub valid_name_lem :
    (s : Text)
    → is_valid_topic_name s ≡ true
    → ((encode_uri_component s ≡ some s) × (sanitize_graphite_key s ≡ s))
      ⊎ ((t : Text) × (s ≡ t ++ lit "#ephemeral")
          × (encode_uri_component s ≡ some (t ++ lit "%23ephemeral"))
          × (sanitize_graphite_key s ≡ t ++ lit "ephemeral"))
unfolding is_valid_topic_name
valid_name_lem s h = elim (valid_lem s h) [
  | inl k ↦ inl (
    subst (λ x. encode_uri_component x ≡ some x) (append-nil s)
        (encode-name s [] [] k encode_nothing),
    subst (λ x. sanitize_graphite_key x ≡ x) (append-nil s)
        (sanitize-name s [] k ∙ ap (λ x. s ++ x) sanitize_nothing),
  )
  | inr (t, e, k) ↦ inr (
    t,
    e,
    ap encode_uri_component e ∙ encode-name t ephemeral (lit "%23ephemeral") k encode_ephemeral,
    ap sanitize_graphite_key e
        ∙ (sanitize-name t ephemeral k ∙ ap (λ x. t ++ x) sanitize_ephemeral),
  )
]
