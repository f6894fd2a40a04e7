-- ===== src/AppState/Paths.antt =====
-- What `basePath` and `apiPath` return.
use xmq.Base.{
  ◌≢◌, ◌≡◌, refl, ◌∙◌, sym, Bool, false, some, [], ◌∷◌, ◌++◌, ◌==◌, ap, append_assoc, arith,
}
use xmq.Js.Text.{Text, lit}
use xmq.AppState.{Globals, strip_slash, prefix_of, base_path, api_path, or_else}

abbrev pub ends_slash : Text → Bool
ends_slash [] = false
ends_slash (c ∷ []) = c == b'/'
ends_slash (c ∷ (d ∷ s)) = ends_slash (d ∷ s)

pub ends_slash-append : (s t : Text) → t ≢ [] → ends_slash (s ++ t) ≡ ends_slash t
ends_slash-append s [] full = absurd (full refl)
ends_slash-append [] (c ∷ t) full = refl
ends_slash-append (x ∷ []) (c ∷ t) full = refl
ends_slash-append (x ∷ (y ∷ s)) (c ∷ t) full = ends_slash-append (y ∷ s) (c ∷ t) full

strip_slash_of_plain : (s : Text) → ends_slash s ≡ false → strip_slash s ≡ s
unfolding strip_slash
strip_slash_of_plain [] h = refl
strip_slash_of_plain (c ∷ []) h = ground arith
strip_slash_of_plain (c ∷ (d ∷ s)) h = ap (λ t. c ∷ t) (strip_slash_of_plain (d ∷ s) h)

strip_slash-append : (s : Text) → strip_slash (s ++ lit "/") ≡ s
unfolding strip_slash
strip_slash-append [] = refl
strip_slash-append (c ∷ []) = refl
strip_slash-append (c ∷ (d ∷ s)) = ap (λ t. c ∷ t) (strip_slash-append (d ∷ s))

abbrev pub or_root : Text → Text
or_root s = or_else (some s) (lit "/")

-- Of a path whose prefixed form does not end in a slash, `basePath` returns that form, or "/" where
-- it is empty; and it returns the same of the path with one slash behind it.
pub base_path_trailing :
    (g : Globals) (p : Text)
    → ends_slash (prefix_of g ++ p) ≡ false
    → (base_path g p ≡ or_root (prefix_of g ++ p)) × (base_path g (p ++ lit "/") ≡ base_path g p)
unfolding base_path
base_path_trailing g p h =
    let plain : strip_slash (prefix_of g ++ p) ≡ prefix_of g ++ p =
      strip_slash_of_plain (prefix_of g ++ p) h in
    let slash : strip_slash (prefix_of g ++ (p ++ lit "/")) ≡ prefix_of g ++ p =
      ap strip_slash (sym (append_assoc (prefix_of g) p (lit "/")))
      ∙ strip_slash-append (prefix_of g ++ p) in
    (ap or_root plain, ap or_root (slash ∙ sym plain))

or_root-append : (s t : Text) → or_root (s ++ (lit "/api" ++ t)) ≡ s ++ (lit "/api" ++ t)
or_root-append [] t = refl
or_root-append (c ∷ s) t = refl

append-cancel : (s t u : Text) → s ++ t ≡ s ++ u → t ≡ u
append-cancel [] t u e = e
append-cancel (c ∷ s) t u e = append-cancel s t u (cc)

-- Two different paths of the API, neither ending in a slash, have different addresses.
pub api_path-injective :
    (g : Globals) (p q : Text)
    → ends_slash (prefix_of g ++ (lit "/api" ++ p)) ≡ false
    → ends_slash (prefix_of g ++ (lit "/api" ++ q)) ≡ false
    → api_path g p ≡ api_path g q
    → p ≡ q
unfolding api_path
api_path-injective g p q hp hq e =
    let plain : (r : Text)
        → ends_slash (prefix_of g ++ (lit "/api" ++ r)) ≡ false
        → base_path g (lit "/api" ++ r) ≡ prefix_of g ++ (lit "/api" ++ r) =
      λ r h. (base_path_trailing g (lit "/api" ++ r) h).0 ∙ or_root-append (prefix_of g) r in
    append-cancel (lit "/api") p q
      (append-cancel (prefix_of g) _ _ (sym (plain p hp) ∙ (e ∙ plain q hq)))
