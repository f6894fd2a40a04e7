-- ===== src/Views/Counter/Image.antt =====
-- xmqadmin/static/js/views/counter.js: the large graph beside the counter. Each request for the counts
-- gives the image's address a new number, so that the browser does not take the image it has.
use xmq.Base.{ℕ, ◌≡◌, ◌≢◌, refl, ap, ◌∙◌, Option, none, some, List, [], ◌∷◌, ◌++◌}
use xmq.Js.Text.{Text, lit, last_of}
use xmq.Js.Decimal.{show}
use xmq.AppState.{or_else}

-- The view's `graphUrl`, and the address of the image, where the page has one.
pub record Image : Type 0 where
  pub graph_url : Option Text
  pub src : Option Text

-- `start` forgets the address that it had.
unfoldable pub start_image : Option Text → Image
start_image src = record { graph_url = none; src = src }

renewed : ℕ → Option Text → Option Text → Image
renewed uniq url none = record { graph_url = url; src = none }
renewed uniq url (some s) =
    let base = or_else url s in
    record { graph_url = some base; src = some (base ++ (lit "&_uniq=" ++ show uniq)) }

-- `updateStats`, where `uniq` is the random number
unfoldable pub refresh_image : ℕ → Image → Image
unfolding renewed
refresh_image uniq i = renewed uniq i.graph_url i.src

unfoldable pub refresh_all : List ℕ → Image → Image
refresh_all [] i = i
refresh_all (k ∷ ks) i = refresh_all ks (refresh_image k i)

or_else_full : (s d : Text) → s ≢ [] → or_else (some s) d ≡ s
or_else_full [] d h = absurd (h refl)
or_else_full (c ∷ s) d h = refl

refresh_all-src :
    (k : ℕ) (ks : List ℕ) (s : Text) (i : Image)
    → s ≢ []
    → i ≡ record { graph_url = some s; src = some (s ++ (lit "&_uniq=" ++ show k)) }
    → (refresh_all ks i).src ≡ some (s ++ (lit "&_uniq=" ++ show (last_of k ks)))
unfolding refresh_all
refresh_all-src k [] s i h e = ap (λ (j : Image). j.src) e
refresh_all-src k (m ∷ ks) s i h e =
    refresh_all-src m ks s (refresh_image m i) h
      (ap (refresh_image m) e ∙ unfold refresh_image in rw (or_else_full s _ h) refl)

-- However often the counts are requested, the image has the address that it was drawn with, and behind
-- it the last number alone.
refresh_all_lem :
    (k : ℕ) (ks : List ℕ) (s : Text)
    → s ≢ []
    → (refresh_all (k ∷ ks) (start_image (some s))).src
      ≡ some (s ++ (lit "&_uniq=" ++ show (last_of k ks)))
unfolding refresh_all
refresh_all_lem k ks s h =
    refresh_all-src k ks s (refresh_image k (start_image (some s))) h
      (unfold refresh_image start_image in refl)
