-- ===== src/Router/Patterns.antt =====
-- The patterns of the routes under a base path.
use xmq.Base.{ℕ, ◌≢◌, append-nil, ◌≡◌, refl, ◌∙◌, ap, false, [], ◌∷◌, ◌++◌, drop}
use xmq.Js.Text.{Text, lit}
use xmq.AppState.{Globals, prefix_of}
use xmq.AppState.Paths.{ends_slash-append, ends_slash, base_path_trailing, or_root}
use xmq.Router.{topics, topic, lookup, nodes, counter, routes, bp}

-- A path that does not end in a slash is put behind the base path.
bp_plain :
    (g : Globals) (c : ℕ) (s : Text)
    → prefix_of g ≡ c ∷ s
    → (p : Text) → p ≢ []
    → ends_slash p ≡ false
    → bp g p ≡ s ++ p
unfolding bp
bp_plain g c s e p full plain = ap (drop 1) (
    (base_path_trailing g p (ends_slash-append (prefix_of g) p full ∙ plain)).0
    ∙ ap (λ b. or_root (b ++ p)) e)

bp_root :
    (g : Globals) (c : ℕ) (s : Text)
    → prefix_of g ≡ c ∷ s
    → ends_slash (c ∷ s) ≡ false
    → bp g (lit "/") ≡ s
unfolding bp
bp_root g c s e plain =
    let whole : prefix_of g ++ [] ≡ c ∷ s = append-nil _ ∙ e in
    let (alone, slashed) = base_path_trailing g [] (ap ends_slash whole ∙ plain) in
    ap (drop 1) (slashed ∙ (alone ∙ ap or_root whole))

-- Under a base path of at least one character that does not end in a slash, each pattern is the base
-- path without its first character, and behind it the route's own pattern; that of the topics is
-- the base path alone.
routes_under_base :
    (g : Globals) (c : ℕ) (s : Text)
    → prefix_of g ≡ c ∷ s
    → ends_slash (c ∷ s) ≡ false
    → routes g
      ≡ (s, topics)
        ∷ (s ++ lit "/topics/(:topic)(/:channel)", topic)
        ∷ (s ++ lit "/lookup", lookup)
        ∷ (s ++ lit "/nodes(/:node)", nodes)
        ∷ (s ++ lit "/counter", counter)
        ∷ []
unfolding routes
routes_under_base g c s e plain =
    let whole = bp_plain g c s e in
    rw (
      bp_root g c s e plain,
      whole (lit "/topics/(:topic)(/:channel)") (λ h. cc) refl,
      whole (lit "/lookup") (λ h. cc) refl,
      whole (lit "/nodes(/:node)") (λ h. cc) refl,
      whole (lit "/counter") (λ h. cc) refl,
    )
