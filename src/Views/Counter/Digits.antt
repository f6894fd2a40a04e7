-- ===== src/Views/Counter/Digits.antt =====
-- The digits that the page shows.
use xmq.Base.{if◌then◌else◌, ◌≡◌, ◌≤◌, refl, ap, List, [], ◌∷◌, length, arith}
use xmq.Js.Text.{Text}
use xmq.Views.Counter.{Span, write_text}

-- The digits of the elements that are not hidden.
abbrev pub visible_text : List Span → Text
visible_text [] = []
visible_text (x ∷ xs) = if x.visible then x.digit ∷ visible_text xs else visible_text xs

hidden : (xs : List Span) → visible_text (write_text [] xs) ≡ []
unfolding write_text
hidden [] = refl
hidden (x ∷ xs) = hidden xs

-- Whatever the elements held, after the call they show the text and no more, and none has been taken
-- away.
pub write_text_lem :
    (s : Text) (xs : List Span)
    → (visible_text (write_text s xs) ≡ s)
      × (length xs ≤ length (write_text s xs))
      × (length s ≤ length (write_text s xs))
unfolding write_text
write_text_lem [] [] = (refl, omega arith, omega arith)
write_text_lem [] (x ∷ xs) = (hidden xs, omega (arith, (write_text_lem [] xs).1), omega arith)
write_text_lem (c ∷ s) [] =
    let (text, old, new) = write_text_lem s [] in
    (ap (λ t. c ∷ t) text, omega arith, omega (arith, new))
write_text_lem (c ∷ s) (x ∷ xs) =
    let (text, old, new) = write_text_lem s xs in
    (ap (λ t. c ∷ t) text, omega (arith, old), omega (arith, new))
