-- ===== src/Helpers/Logic.antt =====
-- xmqadmin/static/js/lib/handlebars_helpers.js: the helpers for tests and loops.
pub mod Blocks
use xmq.Base.{
  ℕ, zero, suc, ◌+◌, Bool, true, false, ◌&&◌, not, Option, none, some, List, [], ◌∷◌, ◌++◌, leb,
  ◌==◌, if◌then◌else◌, length,
}
use xmq.Js.Text.{Text, ◌===◌}
use xmq.Js.Uri.{encode_uri_component}
use xmq.Vendor.{Underscore}
use xmq.AppState.{Globals, base_path}

-- The values that the templates pass: counts are whole numbers.
pub data Value : Type 0 where
  undefined null : Value
  bool : Bool → Value
  num : ℕ → Value
  text : Text → Value

unfoldable pub truthy : Value → Bool
truthy undefined = false
truthy null = false
truthy (bool b) = b
truthy (num n) = not (n == 0)
truthy (text []) = false
truthy (text (c ∷ s)) = true

-- `a === b`
unfoldable pub same : Value → Value → Bool
unfolding ◌===◌
same undefined undefined = true
same null null = true
same (bool true) (bool b) = b
same (bool false) (bool b) = not b
same (num m) (num n) = m == n
same (text s) (text t) = s === t
same _ _ = false

unfoldable pub default_helper : Value → Value → Value
unfolding truthy
default_helper x d = if truthy x then x else d

-- A block helper is given what its block and its `else` block give.
module _ {A : Type 0} (fn inverse : A) where
  unfoldable pub ifeq : Value → Value → A
  ifeq a b = if same a b then fn else inverse

  unfoldable pub unlesseq : Value → Value → A
  unlesseq a b = if not (same a b) then fn else inverse

  unfoldable pub ifgteq : ℕ → ℕ → A
  ifgteq a b = if leb b a then fn else inverse

  unfoldable pub iflteq : ℕ → ℕ → A
  iflteq a b = if leb a b then fn else inverse

unfoldable pub length_helper : {A : Type 0} → List A → ℕ
length_helper xs = length xs

-- The loop of `for` on fuel; `none` is a loop that has not ended.
for_from : (ℕ → Text) → ℕ → ℕ → ℕ → ℕ → Text → Option Text
for_from fn to incr zero i accum = none
for_from fn to incr (suc fuel) i accum =
    let next = for_from fn to incr fuel (i + incr) (accum ++ fn i) in
    if leb i to then next else some accum

unfoldable pub for_helper : ℕ → (ℕ → Text) → ℕ → ℕ → ℕ → Option Text
unfolding for_from
for_helper fuel fn from to incr = for_from fn to incr fuel from []

-- The last argument of a helper is its options.
unfoldable pub and_helper : Underscore → List Value → Bool
unfolding truthy
and_helper u arguments = u.every truthy (u.initial arguments)

unfoldable pub or_helper : Underscore → List Value → Bool
unfolding truthy
or_helper u arguments = u.some_of truthy (u.initial arguments)

unfoldable pub eq : Value → Value → Bool
unfolding same
eq a b = same a b

unfoldable pub neq : Value → Value → Bool
unfolding same
neq a b = not (same a b)

unfoldable pub urlencode : Text → Option Text
unfolding encode_uri_component
urlencode a = encode_uri_component a

unfoldable pub base_path_helper : Globals → Text → Text
unfolding base_path
base_path_helper g p = base_path g p
