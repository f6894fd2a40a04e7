-- ===== src/Models/Addresses.antt =====
-- The address of a channel.
use xmq.Base.{
  ◌<◌, ◌≡◌, ◌≢◌, refl, sym, ◌∙◌, ap, false, some, [], ◌∷◌, ◌++◌, arith, All, append_assoc, drop,
  Option-cases, inl, inr,
}
use xmq.Js.Text.{Text, lit, last_of, but_last, split, join}
use xmq.Js.Text.Split.{Lacks, split_last}
use xmq.Js.Uri.{encode_uri_component, encode-Lacks_slash, encode-ne-nil}
use xmq.AppState.{Globals, prefix_of, api_path}
use xmq.AppState.Paths.{ends_slash-append, ends_slash, api_path-injective}
use xmq.Models.{Channel, channel_url}

-- A text of UTF-16 code units.
abbrev pub IsUnits : Text → Type 0
IsUnits s = All (λ c. c < 65536) s

pub ends_slash_of_Lacks : (t : Text) → Lacks b'/' t → ends_slash t ≡ false
ends_slash_of_Lacks [] h = refl
ends_slash_of_Lacks (c ∷ []) (h, k) = ground arith
ends_slash_of_Lacks (c ∷ (d ∷ t)) (h, k) = ends_slash_of_Lacks (d ∷ t) k

unfoldable pub channel_path : Text → Text → Text
channel_path t c = lit "/topics/" ++ (t ++ (lit "/" ++ c))

pub channel_path-plain :
    (g : Globals) (t c : Text)
    → c ≢ []
    → Lacks b'/' c
    → ends_slash (prefix_of g ++ (lit "/api" ++ channel_path t c)) ≡ false
unfolding channel_path
channel_path-plain g t c full h =
    rw
      (
        ← append_assoc (prefix_of g) (lit "/api/topics/") (t ++ (lit "/" ++ c)),
        ← append_assoc t (lit "/") c,
        ← append_assoc (prefix_of g ++ lit "/api/topics/") (t ++ lit "/") c,
      )
      (ends_slash-append ((prefix_of g ++ lit "/api/topics/") ++ (t ++ lit "/")) c full
        ∙ ends_slash_of_Lacks c h)

pub channel_path-injective :
    (t c u d : Text)
    → Lacks b'/' c
    → Lacks b'/' d
    → channel_path t c ≡ channel_path u d
    → (t ≡ u) × (c ≡ d)
unfolding channel_path
channel_path-injective t c u d h k e =
    let tails : t ++ b'/' ∷ c ≡ u ++ b'/' ∷ d = ap (drop 8) e in
    let left = split_last b'/' t c h in
    let right = split_last b'/' u d k in
    (
      sym left.1 ∙ (ap (λ s. join (lit "/") (but_last (split b'/' s))) tails ∙ right.1),
      sym left.0 ∙ (ap (λ s. last_of [] (split b'/' s)) tails ∙ right.0),
    )

-- The parts of a channel's address.
pub channel_url-some :
    (g : Globals) (c : Channel) (a : Text)
    → channel_url g c ≡ some a
    → (t n : Text) × (encode_uri_component c.topic ≡ some t)
      × (encode_uri_component c.name ≡ some n)
      × (a ≡ api_path g (channel_path t n))
unfolding channel_url channel_path
channel_url-some g c a e = elim (Option-cases (encode_uri_component c.topic)) [
  | inl bad ↦ cc (rw bad at e)
  | inr (t, et) ↦ elim (Option-cases (encode_uri_component c.name)) [
    | inl bad ↦ cc (rw (et, bad) at e)
    | inr (n, en) ↦ (t, n, et, en, cc (rw (et, en) at e))
  ]
]

pub encode-full : (s t : Text) → s ≢ [] → encode_uri_component s ≡ some t → t ≢ []
encode-full [] t h e = absurd (h refl)
encode-full (c ∷ s) t h e = encode-ne-nil c s t e

-- Two channels, with names of UTF-16 code units that are not empty, have the same address only if
-- their topics' encodings and their names' encodings are the same.
pub channel_url-injective :
    (g : Globals) (c d : Channel) (a : Text)
    → IsUnits c.name
    → IsUnits d.name
    → c.name ≢ []
    → d.name ≢ []
    → channel_url g c ≡ some a
    → channel_url g d ≡ some a
    → (encode_uri_component c.topic ≡ encode_uri_component d.topic)
      × (encode_uri_component c.name ≡ encode_uri_component d.name)
channel_url-injective g c d a uc ud fc fd ec ed =
    let (t, n, et, en, at) = channel_url-some g c a ec in
    let (u, m, eu, em, au) = channel_url-some g d a ed in
    let pn : Lacks b'/' n = encode-Lacks_slash c.name n uc en in
    let pm : Lacks b'/' m = encode-Lacks_slash d.name m ud em in
    let same = channel_path-injective t n u m pn pm (
      api_path-injective g _ _ (channel_path-plain g t n (encode-full c.name n fc en) pn)
        (channel_path-plain g u m (encode-full d.name m fd em) pm) (sym at ∙ au)) in
    (et ∙ (ap some same.0 ∙ sym eu), en ∙ (ap some same.1 ∙ sym em))
