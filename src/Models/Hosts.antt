-- ===== src/Models/Hosts.antt =====
-- The address of a node's HTTP server.
use xmq.Base.{
  ℕ, ◌≡◌, ◌≢◌, sym, ◌∙◌, ap, true, false, [], ◌∷◌, ◌++◌, arith, All, Bool-cases, inl, inr,
  if◌then◌else◌,
}
use xmq.Js.Text.{Text, lit, includes, last_of, but_last, split, join}
use xmq.Js.Text.Split.{Lacks, split_last, but_last-append}
use xmq.Js.Decimal.{show, show-All, show-injective, is_digit}
use xmq.Models.{Peer, broadcast_address_http}

digits-Lacks : (s : Text) → All (λ c. is_digit c ≡ true) s → Lacks b':' s
digits-Lacks [] h = tt
digits-Lacks (c ∷ s) (h, k) = (ground arith, digits-Lacks s k)

show-Lacks : (n : ℕ) → Lacks b':' (show n)
show-Lacks n = digits-Lacks (show n) (show-All n)

-- The address part: in brackets where it holds a colon.
wrapped : Text → Text
wrapped a = if includes b':' a then lit "[" ++ (a ++ lit "]") else a

includes-append : (c : ℕ) (s t : Text) → includes c s ≡ true → includes c (s ++ t) ≡ true
includes-append c [] t h = cc
includes-append c (x ∷ s) t h = ground (arith, includes-append c s t)

append-cancel_right : (s t : Text) (c : ℕ) → s ++ c ∷ [] ≡ t ++ c ∷ [] → s ≡ t
append-cancel_right s t c e = sym (but_last-append s c) ∙ (ap but_last e ∙ but_last-append t c)

wrapped_bracket :
    (a b : Text) → includes b':' a ≡ true → includes b':' b ≡ false → lit "[" ++ (a ++ lit "]") ≢ b
wrapped_bracket a b h k e =
    let both : includes b':' (lit "[" ++ (a ++ lit "]")) ≡ true =
      includes-append b':' a (lit "]") h in
    cc (ap (includes b':') e)

wrapped-injective : (a b : Text) → wrapped a ≡ wrapped b → a ≡ b
unfolding wrapped
wrapped-injective a b e = elim (Bool-cases (includes b':' a)) [
  | inl h ↦ elim (Bool-cases (includes b':' b)) [
    | inl k ↦ append-cancel_right a b b']' (cc (rw (h, k) at e))
    | inr k ↦ absurd (wrapped_bracket a b h k (rw (h, k) at e))
  ]
  | inr h ↦ elim (Bool-cases (includes b':' b)) [
    | inl k ↦ absurd (wrapped_bracket b a k h (sym (rw (h, k) at e)))
    | inr k ↦ rw (h, k) at e
  ]
]

-- Nodes with the same HTTP address have the same broadcast address and the same port.
broadcast_address_http-injective :
    (a b : Peer)
    → broadcast_address_http a ≡ broadcast_address_http b
    → (a.broadcast_address ≡ b.broadcast_address) × (a.http_port ≡ b.http_port)
unfolding broadcast_address_http wrapped
broadcast_address_http-injective a b e =
    let left =
      split_last b':' (wrapped a.broadcast_address) (show a.http_port) (show-Lacks a.http_port) in
    let right =
      split_last b':' (wrapped b.broadcast_address) (show b.http_port) (show-Lacks b.http_port) in
    (
      wrapped-injective a.broadcast_address b.broadcast_address
          (sym left.1 ∙ (ap (λ t. join (lit ":") (but_last (split b':' t))) e ∙ right.1)),
      show-injective a.http_port b.http_port
          (sym left.0 ∙ (ap (λ t. last_of [] (split b':' t)) e ∙ right.0)),
    )
