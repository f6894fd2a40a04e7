-- ===== src/Ajax/Filter.antt =====
-- The headers of a filtered request.
use mathlib.Core.Path.{fun_ext}
use xmq.Base.{◌≡◌, refl, sym, ◌∙◌, ap, Option, none, some}
use xmq.Js.Text.{Text, lit}
use xmq.Vendor.{Underscore, or_from}
use xmq.Ajax.{Options, page_headers, headers_or_empty, prefilter}

or_from_again {ℓ} : {A : Type ℓ} (a b : Option A) → or_from (or_from a b) b ≡ or_from a b
or_from_again none none = refl
or_from_again none (some x) = refl
or_from_again (some x) b = refl

header_lem :
    (u : Underscore) (ua : Text) (o : Options) (k : Text)
    → headers_or_empty (prefilter u ua o).headers k
      ≡ or_from (headers_or_empty o.headers k) (page_headers ua k)
unfolding prefilter
header_lem u ua o k = u.defaults_lem _ _ k

-- A filtered request has each header of its caller, and of the page's headers those that its caller
-- did not set; filtering it once more changes nothing.
prefilter_lem :
    (u : Underscore) (ua : Text) (o : Options)
    → ((k : Text)
        → headers_or_empty (prefilter u ua o).headers k
          ≡ or_from (headers_or_empty o.headers k) (page_headers ua k))
      × (prefilter u ua (prefilter u ua o) ≡ prefilter u ua o)
unfolding prefilter
prefilter_lem u ua o = (
  header_lem u ua o,
  ap
      (λ (h : Text → Option Text). record {
        headers = some h;
        timeout = some 20000;
        content_type = some (lit "application/json");
      })
      (fun_ext (λ k.
        u.defaults_lem _ _ k
        ∙ (ap (λ x. or_from x (page_headers ua k)) (u.defaults_lem _ _ k)
            ∙ (or_from_again (headers_or_empty o.headers k) (page_headers ua k)
                ∙ sym (u.defaults_lem _ _ k))))),
)
