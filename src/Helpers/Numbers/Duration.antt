-- ===== src/Helpers/Numbers/Duration.antt =====
-- What `nanotohuman` writes for hours, minutes and the rest, and the ordinal endings.
use xmq.Base.{
  zero, append-nil, ℕ, suc, ◌+◌, ◌*◌, ◌/◌, ◌%◌, ◌<◌, ◌≤◌, ◌≡◌, ◌≢◌, refl, ◌∙◌, true, false, [],
  ◌++◌, leb, ◌==◌, if◌then◌else◌, arith,
}
use xmq.Js.Text.{Text, lit}
use xmq.Js.Decimal.{show}
use xmq.Js.Number.{Number}
use xmq.Helpers.Numbers.{nanotohuman, minutes, below_minute, scaled, perc_suffix}

-- A count and its unit, or nothing for none.
abbrev pub part : ℕ → Text → Text
part zero unit = []
part (suc k) unit = show (suc k) ++ unit

-- The seconds, milliseconds or microseconds of a duration under a minute.
abbrev pub small_part : (n : Number) → ℕ → Text
small_part n r =
    if leb 1000000000 r
    then scaled n r 1000000000 ++ lit "s"
    else if leb 1000000 r
    then scaled n r 1000000 ++ lit "ms"
    else scaled n r 1000 ++ lit "us"

-- The ending of an ordinal, as English has it.
abbrev pub ordinal : ℕ → Text
ordinal v =
    if v % 100 / 10 == 1
    then lit "th"
    else if v % 10 == 1
    then lit "st"
    else if v % 10 == 2
    then lit "nd"
    else if v % 10 == 3
    then lit "rd"
    else lit "th"

module _ (n : Number) where
  below_minute_large : (s : Text) (r : ℕ) → 1000 ≤ r → below_minute n s r ≡ s ++ small_part n r
  unfolding below_minute
  below_minute_large s r h = ground arith

  below_minute_small : (s : Text) (r : ℕ) → r < 1000 → below_minute n s r ≡ show r ++ lit "ns"
  unfolding below_minute
  below_minute_small s r h = ground arith

  minutes_lem :
      (s : Text) (m r : ℕ)
      → r < 60000000000
      → minutes n s (m * 60000000000 + r) ≡ below_minute n (s ++ part m (lit "m")) r
  unfolding minutes
  minutes_lem s zero r h =
      let none_left : 0 * 60000000000 + r ≡ r = omega arith in
      let under : leb 60000000000 r ≡ false = ground arith in rw (none_left, under, append-nil) refl
  minutes_lem s (suc m) r h =
      let count : (suc m * 60000000000 + r) / 60000000000 ≡ suc m = omega arith in
      let left : (suc m * 60000000000 + r) % 60000000000 ≡ r = omega arith in
      let over : leb 60000000000 (suc m * 60000000000 + r) ≡ true = ground arith in
      rw (over, count, left) refl

  -- The text of whole hours, whole minutes and a rest is that of the rest behind the hours and
  -- minutes that are not zero.
  nanotohuman_lem :
      (h m r : ℕ)
      → m < 60
      → r < 60000000000
      → nanotohuman n (h * 3600000000000 + (m * 60000000000 + r))
        ≡ below_minute n (part h (lit "h") ++ part m (lit "m")) r
  unfolding nanotohuman
  nanotohuman_lem zero m r hm hr =
      let none_left : 0 * 3600000000000 + (m * 60000000000 + r) ≡ m * 60000000000 + r =
        omega arith in
      let under : leb 3600000000000 (m * 60000000000 + r) ≡ false = ground arith in
      rw (none_left, under) (minutes_lem [] m r hr)
  nanotohuman_lem (suc h) m r hm hr =
      let rest : ℕ = m * 60000000000 + r in
      let count : (suc h * 3600000000000 + rest) / 3600000000000 ≡ suc h = omega arith in
      let left : (suc h * 3600000000000 + rest) % 3600000000000 ≡ rest = omega arith in
      let over : leb 3600000000000 (suc h * 3600000000000 + rest) ≡ true = ground arith in
      rw (over, count, left) (minutes_lem (show (suc h) ++ lit "h") m r hr)

  -- A duration of hours, minutes and a rest of a microsecond or more is written as its hours, its
  -- minutes, each left out where it is none, and the rest.
  pub nanotohuman_parts :
      (h m r : ℕ)
      → m < 60
      → r < 60000000000
      → 1000 ≤ r
      → nanotohuman n (h * 3600000000000 + (m * 60000000000 + r))
        ≡ (part h (lit "h") ++ part m (lit "m")) ++ small_part n r
  nanotohuman_parts h m r hm hr big = nanotohuman_lem h m r hm hr ∙ below_minute_large _ r big

  -- Of a duration of hours, minutes and a rest under a microsecond, the rest alone is written.
  nanotohuman_drops :
      (h m r : ℕ)
      → m < 60
      → r < 1000
      → nanotohuman n (h * 3600000000000 + (m * 60000000000 + r)) ≡ show r ++ lit "ns"
  nanotohuman_drops h m r hm small =
      nanotohuman_lem h m r hm (omega arith) ∙ below_minute_small _ r small

  -- The ending is that of the percentage's ordinal, unless the percentage ends in 11, 12 or 13.
  perc_suffix-ordinal :
      (f : n.F) (v : ℕ)
      → n.floor (n.mul f (n.of_nat 100)) ≡ v
      → v % 100 ≢ 11
      → v % 100 ≢ 12
      → v % 100 ≢ 13
      → perc_suffix n f ≡ ordinal v
  unfolding perc_suffix
  perc_suffix-ordinal f v e a b c = rw e (ground arith)
