-- ===== src/Models/Resources.antt =====
-- Topics and channels as resources of the API, and their addresses.
use mathlib.Core.Path.{ap₂}
use xmq.Base.{
  drop, subst, ◌≡◌, ◌≢◌, refl, sym, ◌∙◌, ap, false, Option, some, [], ◌∷◌, ◌++◌, append_assoc,
  Option-cases, inl, inr,
}
use xmq.Js.Text.{Text, lit}
use xmq.Js.Text.Split.{Lacks}
use xmq.Js.Uri.{encode_uri_component, encode-Lacks_slash}
use xmq.Js.Uri.Injective.{encode-injective}
use xmq.AppState.{Globals, prefix_of, api_path}
use xmq.AppState.Paths.{ends_slash-append, ends_slash, api_path-injective}
use xmq.Models.{topic_url, channel_url}
use xmq.Models.Addresses.{
  channel_url-injective, IsUnits, ends_slash_of_Lacks, channel_path, channel_path-plain,
  channel_url-some, encode-full,
}

pub data Resource : Type 0 where
  topic_named : Text → Resource
  channel_named : Text → Text → Resource

-- The address that the model of a resource has, whether or not the user is an administrator.
abbrev pub address : Globals → Resource → Option Text
address g (topic_named t) = topic_url g (record { name = t; is_admin = false })
address g (channel_named t c) = channel_url g (record { topic = t; name = c; is_admin = false })

-- A name of UTF-16 code units that is not empty; a channel's topic may be empty.
abbrev pub IsNamed : Resource → Type 0
IsNamed (topic_named t) = IsUnits t × (t ≢ [])
IsNamed (channel_named t c) = IsUnits t × IsUnits c × (c ≢ [])

topic_path : Text → Text
topic_path t = lit "/topics/" ++ t

topic_path-plain :
    (g : Globals) (t : Text)
    → t ≢ []
    → Lacks b'/' t
    → ends_slash (prefix_of g ++ (lit "/api" ++ topic_path t)) ≡ false
unfolding topic_path
topic_path-plain g t full h =
    rw (← append_assoc (prefix_of g) (lit "/api/topics/") t)
      (ends_slash-append (prefix_of g ++ lit "/api/topics/") t full ∙ ends_slash_of_Lacks t h)

topic_url-some :
    (g : Globals) (t a : Text)
    → address g (topic_named t) ≡ some a
    → (n : Text) × (encode_uri_component t ≡ some n) × (a ≡ api_path g (topic_path n))
unfolding topic_url topic_path
topic_url-some g t a e = elim (Option-cases (encode_uri_component t)) [
  | inl bad ↦ cc (rw bad at e)
  | inr (n, en) ↦ (n, en, cc (rw en at e))
]

slash_inside : (s t : Text) → Lacks b'/' (s ++ b'/' ∷ t) → ⊥
slash_inside [] t (h, k) = h refl
slash_inside (c ∷ s) t (h, k) = slash_inside s t k

path-apart : (n t c : Text) → Lacks b'/' n → topic_path n ≡ channel_path t c → ⊥
unfolding topic_path channel_path
path-apart n t c h e =
    let tails : n ≡ t ++ b'/' ∷ c = ap (drop 8) e in slash_inside t c (subst (Lacks b'/') tails h)

module _ (g : Globals) (a : Text) where
  topics-eq :
      (t u : Text)
      → IsNamed (topic_named t)
      → IsNamed (topic_named u)
      → address g (topic_named t) ≡ some a
      → address g (topic_named u) ≡ some a
      → t ≡ u
  unfolding topic_path
  topics-eq t u (ut, ft) (uu, fu) et eu =
      let (n, en, an) = topic_url-some g t a et in
      let (m, em, am) = topic_url-some g u a eu in
      let same =
        api_path-injective g (topic_path n) (topic_path m)
          (topic_path-plain g n (encode-full t n ft en) (encode-Lacks_slash t n ut en))
          (topic_path-plain g m (encode-full u m fu em) (encode-Lacks_slash u m uu em))
          (sym an ∙ am) in
      encode-injective t u n ut uu en (em ∙ ap some (sym (ap (drop 8) same)))

  channels-eq :
      (t c u d : Text)
      → IsNamed (channel_named t c)
      → IsNamed (channel_named u d)
      → address g (channel_named t c) ≡ some a
      → address g (channel_named u d) ≡ some a
      → (t ≡ u) × (c ≡ d)
  channels-eq t c u d (ut, uc, fc) (uu, ud, fd) ec ed =
      let same =
        channel_url-injective g (record { topic = t; name = c; is_admin = false })
          (record { topic = u; name = d; is_admin = false }) a uc ud fc fd ec ed in
      let (p, q, ep, eq, ac) =
        channel_url-some g (record { topic = t; name = c; is_admin = false }) a ec in
      (
        encode-injective t u p ut uu ep (sym same.0 ∙ ep),
        encode-injective c d q uc ud eq (sym same.1 ∙ eq),
      )

  topic-channel :
      (t u d : Text)
      → IsNamed (topic_named t)
      → IsNamed (channel_named u d)
      → address g (topic_named t) ≡ some a
      → address g (channel_named u d) ≡ some a
      → ⊥
  topic-channel t u d (ut, ft) (uu, ud, fd) et ed =
      let (n, en, an) = topic_url-some g t a et in
      let (p, q, ep, eq, ac) =
        channel_url-some g (record { topic = u; name = d; is_admin = false }) a ed in
      let pn : Lacks b'/' n = encode-Lacks_slash t n ut en in
      let pq : Lacks b'/' q = encode-Lacks_slash d q ud eq in
      path-apart n p q pn (
        api_path-injective g (topic_path n) (channel_path p q)
          (topic_path-plain g n (encode-full t n ft en) pn)
          (channel_path-plain g p q (encode-full d q fd eq) pq) (sym an ∙ ac))

-- Topics and channels, with names of UTF-16 code units that are not empty, have the same address only
-- if they are the same topic, or the same channel of the same topic.
pub address-injective :
    (g : Globals) (r s : Resource) (a : Text)
    → IsNamed r
    → IsNamed s
    → address g r ≡ some a
    → address g s ≡ some a
    → r ≡ s
address-injective g (topic_named t) (topic_named u) a h k e f =
    ap topic_named (topics-eq g a t u h k e f)
address-injective g (topic_named t) (channel_named u d) a h k e f =
    absurd (topic-channel g a t u d h k e f)
address-injective g (channel_named t c) (topic_named u) a h k e f =
    absurd (topic-channel g a u t c k h f e)
address-injective g (channel_named t c) (channel_named u d) a h k e f =
    let same = channels-eq g a t c u d h k e f in ap₂ channel_named same.0 same.1
