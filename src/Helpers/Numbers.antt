-- ===== src/Helpers/Numbers.antt =====
-- xmqadmin/static/js/lib/handlebars_helpers.js: the helpers that write numbers.
pub mod Commas
pub mod Duration
use xmq.Base.{
  ℕ, zero, suc, ◌+◌, ◌*◌, ◌/◌, ◌%◌, Bool, true, false, ◌&&◌, ◌||◌, not, List, [], ◌∷◌, ◌++◌, leb,
  ltb, ◌==◌, if◌then◌else◌,
}
use xmq.Js.Text.{Text, lit}
use xmq.Js.Decimal.{show, is_digit}
use xmq.Js.Number.{Number}

-- `\w`, and the digits at the front of a text
unfoldable pub is_word : ℕ → Bool
is_word c =
    (leb b'a' c && leb c b'z') || ((leb b'A' c && leb c b'Z') || (is_digit c || (c == b'_')))

unfoldable pub digit_run : Text → ℕ
digit_run [] = 0
digit_run (c ∷ s) = let more = suc (digit_run s) in if is_digit c then more else 0

-- `/\B(?=(\d{3})+(?!\d))/` at the position before `c ∷ s`, where `word` says whether a word
-- character stands before it: no word boundary, and the digits behind it are groups of three.
unfoldable pub is_break : Bool → ℕ → Text → Bool
is_break word c s =
    let run = digit_run (c ∷ s) in
    (if is_word c then word else not word) && (leb 3 run && (run % 3 == 0))

unfoldable pub insert_commas : Bool → Text → Text
insert_commas word [] = []
insert_commas word (c ∷ s) =
    let rest = c ∷ insert_commas (is_word c) s in if is_break word c s then b',' ∷ rest else rest

-- `commafy` of a whole number, or of a value that is missing, which counts as 0
unfoldable pub commafy : ℕ → Text
unfolding insert_commas is_break is_word digit_run
commafy n = insert_commas false (show n)

module _ (n : Number) where
  abbrev num : ℕ → n.F
  num k = n.of_nat k

  unfoldable pub round : n.F → n.F → n.F
  round v places =
      let multiplier = n.pow (num 10) places in n.div (n.nearest (n.mul v multiplier)) multiplier

  -- `round(k / unit, 2)` in a text
  unfoldable pub scaled : ℕ → ℕ → Text
  unfolding round
  scaled k unit = n.to_text (round (n.div (num k) (num unit)) (num 2))

  -- The last ladder of `nanotohuman`: `s` is the text so far.
  unfoldable pub below_minute : Text → ℕ → Text
  below_minute s k =
      if leb 1000000000 k
      then s ++ (scaled k 1000000000 ++ lit "s")
      else if leb 1000000 k
      then s ++ (scaled k 1000000 ++ lit "ms")
      else if leb 1000 k
      then s ++ (scaled k 1000 ++ lit "us")
      else show k ++ lit "ns"

  unfoldable pub minutes : Text → ℕ → Text
  minutes s k =
      if leb 60000000000 k
      then below_minute (s ++ (show (k / 60000000000) ++ lit "m")) (k % 60000000000)
      else below_minute s k

  -- `nanotohuman` of a whole number of nanoseconds
  unfoldable pub nanotohuman : ℕ → Text
  nanotohuman k =
      if leb 3600000000000 k
      then minutes (show (k / 3600000000000) ++ lit "h") (k % 3600000000000)
      else minutes [] k

  unfoldable pub float_to_percent : n.F → ℕ
  float_to_percent f = n.floor (n.mul f (num 100))

  unfoldable pub perc_suffix : n.F → Text
  perc_suffix f =
      let v = n.floor (n.mul f (num 100)) % 10 in
      if v == 1
      then lit "st"
      else if v == 2
      then lit "nd"
      else if v == 3
      then lit "rd"
      else lit "th"
