-- ===== src/Js/Text/Replace.antt =====
-- `s.replace(/%s/g, template)`, with the `$` patterns that a template may hold, and its law for the
-- templates that hold none.
use xmq.Base.{◌≡◌, refl, ◌∙◌, ap, List, [], ◌∷◌, ◌++◌, ◌==◌, ◌&&◌, if◌then◌else◌, All, arith}
use xmq.Js.Text.{Text, lit, join}
use xmq.Js.Text.Split.{Lacks}

-- The replacement for one match: `$$`, `$&`, the text before and the text behind the match. The
-- expression has no groups, so `$1` and `$<` stand for themselves.
unfoldable pub expand : Text → Text → Text → Text → Text
expand before matched after [] = []
expand before matched after (c ∷ []) = c ∷ []
expand before matched after (c ∷ (d ∷ t)) =
    let plain = c ∷ expand before matched after (d ∷ t) in
    let rest = expand before matched after t in
    if c == b'$'
    then if d == b'$'
      then b'$' ∷ rest
      else if d == b'&'
      then matched ++ rest
      else if d == b'`'
      then before ++ rest
      else if d == 39
      then after ++ rest
      else plain
    else plain

format_from : Text → Text → Text → Text
format_from template before [] = []
format_from template before (x ∷ []) = x ∷ []
format_from template before (x ∷ (y ∷ s)) =
    let hit = expand before (lit "%s") s template ++ format_from template (before ++ lit "%s") s in
    let miss = x ∷ format_from template (before ++ x ∷ []) (y ∷ s) in
    if (x == b'%') && (y == b's') then hit else miss

unfoldable pub replace_format : Text → Text → Text
unfolding format_from expand
replace_format fmt template = format_from template [] fmt

-- A template with no `$` stands for itself.
expand_plain : (b m a t : Text) → Lacks b'$' t → expand b m a t ≡ t
unfolding expand
expand_plain b m a [] h = refl
expand_plain b m a (c ∷ []) h = refl
expand_plain b m a (c ∷ (d ∷ t)) (h, k) = ground (arith, expand_plain b m a (d ∷ t) k)

-- The replacement by a template that stands for itself.
unfoldable pub splice : Text → Text → Text
splice t [] = []
splice t (x ∷ []) = x ∷ []
splice t (x ∷ (y ∷ s)) =
    let hit = t ++ splice t s in
    let miss = x ∷ splice t (y ∷ s) in if (x == b'%') && (y == b's') then hit else miss

format_from-eq-splice : (t b s : Text) → Lacks b'$' t → format_from t b s ≡ splice t s
unfolding format_from splice
format_from-eq-splice t b [] h = refl
format_from-eq-splice t b (x ∷ []) h = refl
format_from-eq-splice t b (x ∷ (y ∷ s)) h = ground (
  arith,
  expand_plain b (lit "%s") s t h,
  format_from-eq-splice t (b ++ lit "%s") s h,
  format_from-eq-splice t (b ++ x ∷ []) (y ∷ s) h,
)

pub replace_format-splice : (t s : Text) → Lacks b'$' t → replace_format s t ≡ splice t s
unfolding replace_format
replace_format-splice t s h = format_from-eq-splice t [] s h

splice_of_Lacks : (t p : Text) → Lacks b'%' p → splice t p ≡ p
unfolding splice
splice_of_Lacks t [] h = refl
splice_of_Lacks t (x ∷ []) h = refl
splice_of_Lacks t (x ∷ (y ∷ p)) (h, k) = ground (arith, splice_of_Lacks t (y ∷ p) k)

splice-append :
    (t p s : Text) → Lacks b'%' p → splice t (p ++ (lit "%s" ++ s)) ≡ p ++ (t ++ splice t s)
unfolding splice
splice-append t [] s h = refl
splice-append t (x ∷ []) s h = ground arith
splice-append t (x ∷ (y ∷ p)) s (h, k) = ground (arith, splice-append t (y ∷ p) s k)

splice-join :
    (t : Text) (ps : List Text) → All (Lacks b'%') ps → splice t (join (lit "%s") ps) ≡ join t ps
unfolding join
splice-join t [] h = unfold splice in refl
splice-join t (p ∷ []) (h, k) = splice_of_Lacks t p h
splice-join t (p ∷ (q ∷ ps)) (h, k) =
    splice-append t p (join (lit "%s") (q ∷ ps)) h
    ∙ ap (λ s. p ++ (t ++ s)) (splice-join t (q ∷ ps) k)

-- Every `%s` of a format is replaced by the template, and nothing else changes.
pub replace_format-join :
    (t : Text) (ps : List Text)
    → Lacks b'$' t
    → All (Lacks b'%') ps
    → replace_format (join (lit "%s") ps) t ≡ join t ps
unfolding replace_format
replace_format-join t ps h k = format_from-eq-splice t [] _ h ∙ splice-join t ps k

test_replace : replace_format (lit "a.%s.b%s%") (lit "k$&$$") ≡ lit "a.k%s$.bk%s$%"
unfolding replace_format
test_replace = refl
