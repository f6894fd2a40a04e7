-- ===== src/Js/Number.antt =====
-- Numbers of the language (IEEE doubles), taken as a type with the operations that the program
-- calls. A computation on whole numbers in the exact range stands on ℕ instead.
use xmq.Base.{ℕ, Bool}
use xmq.Js.Text.{Text}

pub record Number : Type 1 where
  pub F : Type 0
  pub of_nat : ℕ → F
  pub add : F → F → F
  pub mul : F → F → F
  pub div : F → F → F
  pub pow : F → F → F
  -- `Math.floor` of a number that is not negative, `Math.round`, `Math.min`
  pub floor : F → ℕ
  pub nearest : F → F
  pub least : F → F → F
  pub minus_one : F
  pub same : F → F → Bool
  pub less : F → F → Bool
  pub to_text : F → Text
