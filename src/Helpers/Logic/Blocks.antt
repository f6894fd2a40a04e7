-- ===== src/Helpers/Logic/Blocks.antt =====
-- The loop of `for`, and the helpers that join tests.
use xmq.Base.{
  ℕ, zero, suc, ◌+◌, ◌-◌, ◌*◌, ◌/◌, ◌<◌, ◌≤◌, ◌≡◌, ◌↔◌, refl, ap, ◌∙◌, true, false, List, [], ◌∷◌,
  ◌++◌, some, append_assoc, append-nil, All, leb, arith, all, any,
}
use xmq.Js.Text.{Text}
use xmq.Js.Text.Split.{but_last-append}
use xmq.Vendor.{Underscore}
use xmq.Helpers.Logic.{Value, truthy, and_helper, or_helper, for_helper, for_from}

-- The texts of the block at `k` numbers, from `i` on in steps of `incr`.
abbrev pub blocks : (ℕ → Text) → ℕ → ℕ → ℕ → Text
blocks fn incr zero i = []
blocks fn incr (suc k) i = fn i ++ blocks fn incr k (i + incr)

for_from_lem :
    (fn : ℕ → Text) (to incr k i : ℕ) (accum : Text) (fuel : ℕ)
    → k < fuel
    → (i + k * incr ≤ to + incr)
    → to < i + k * incr
    → for_from fn to incr fuel i accum ≡ some (accum ++ blocks fn incr k i)
unfolding for_from
for_from_lem fn to incr k i accum zero f below past = absurd (omega arith)
for_from_lem fn to incr zero i accum (suc fuel) f below past =
    let stop : leb i to ≡ false = ground arith in rw (stop, append-nil)
for_from_lem fn to incr (suc k) i accum (suc fuel) f below past =
    let go : leb i to ≡ true = ground arith in
    rw go (
      for_from_lem fn to incr k (i + incr) (accum ++ fn i) fuel (omega arith) (omega arith)
        (omega arith)
      ∙ ap some (append_assoc accum (fn i) _))

-- With a positive step the loop ends, and has written the block at each number from `from` up to and
-- with `to`, and at no other.
for_helper_lem :
    (fn : ℕ → Text) (from to incr fuel : ℕ)
    → 0 < incr
    → from ≤ to
    → (to - from) / incr + 1 < fuel
    → for_helper fuel fn from to incr ≡ some (blocks fn incr ((to - from) / incr + 1) from)
unfolding for_helper
for_helper_lem fn from to incr fuel pos le enough =
    for_from_lem fn to incr ((to - from) / incr + 1) from [] fuel enough (grind arith) (grind arith)

All-true : (xs : List Value) → (all truthy xs ≡ true) ↔ All (λ v. truthy v ≡ true) xs
All-true [] = (λ e. tt, λ h. refl)
All-true (x ∷ xs) = ground (arith, All-true xs)

and_helper_lem :
    (u : Underscore) (vs : List Value) (options : Value)
    → and_helper u (vs ++ options ∷ []) ≡ all truthy vs
unfolding and_helper
and_helper_lem u vs options =
    ap (u.every truthy) (u.initial_lem _ ∙ but_last-append vs options) ∙ u.every_lem truthy vs

or_helper_lem :
    (u : Underscore) (vs : List Value) (options : Value)
    → or_helper u (vs ++ options ∷ []) ≡ any truthy vs
unfolding or_helper
or_helper_lem u vs options =
    ap (u.some_of truthy) (u.initial_lem _ ∙ but_last-append vs options) ∙ u.some_of_lem truthy vs

-- `and` holds exactly when all its arguments but the options count as true.
pub and_helper_iff :
    (u : Underscore) (vs : List Value) (options : Value)
    → (and_helper u (vs ++ options ∷ []) ≡ true) ↔ All (λ v. truthy v ≡ true) vs
and_helper_iff u vs options = rw (and_helper_lem u vs options) (All-true vs)

any-false : (xs : List Value) → (any truthy xs ≡ false) ↔ All (λ v. truthy v ≡ false) xs
any-false [] = (λ e. tt, λ h. refl)
any-false (x ∷ xs) = ground (arith, any-false xs)

-- `or` fails exactly when none of them counts as true.
pub or_helper_iff :
    (u : Underscore) (vs : List Value) (options : Value)
    → (or_helper u (vs ++ options ∷ []) ≡ false) ↔ All (λ v. truthy v ≡ false) vs
or_helper_iff u vs options = rw (or_helper_lem u vs options) (any-false vs)
