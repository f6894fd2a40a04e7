-- ===== src/Views/Rates.antt =====
-- xmqadmin/static/js/views/app.js: the cells of class `rate`, which the shell fills when a view is
-- ready, each with the answer to a request of its own to Graphite.
mod Tests
use xmq.Base.{ℕ, ◌*◌, Bool, true, false, Option, none, some, List, [], ◌∷◌, ◌++◌, if◌then◌else◌}
use xmq.Js.Text.{Text, lit}
use xmq.Js.Decimal.{show}
use xmq.Js.Number.{Number}
use xmq.AppState.{Globals}

-- The query for a cell with this target.
unfoldable pub rate_query : Globals → Text → List (Text × Text)
rate_query g target =
    (lit "target", target)
    ∷ (lit "from", lit "-" ++ (show (2 * g.statsd_interval) ++ lit "sec"))
    ∷ (lit "until", lit "-" ++ (show g.statsd_interval ++ lit "sec"))
    ∷ (lit "format", lit "json")
    ∷ []

-- The answer: each series is null or has data points, each null or a value, itself null or a number,
-- and a time, which is not read.
pub data Point (n : Number) : Type 0 where
  null_point null_value : Point n
  value : n.F → Point n

pub data Series (n : Number) : Type 0 where
  null_series : Series n
  points : List (Point n) → Series n

-- A text, or the TypeError of a read from undefined.
pub data Rate : Type 0 where
  type_error : Rate
  shows : Text → Rate

module _ (n : Number) (to_fixed : n.F → ℕ → Text) where
  -- `v / interval` with two places; null counts as 0.
  per_second : ℕ → n.F → Text
  per_second interval v = to_fixed (n.div v (n.of_nat interval)) 2

  first_rate : ℕ → List (Point n) → Rate
  unfolding per_second
  first_rate interval [] = type_error
  first_rate interval (null_point ∷ _) = shows (lit "N/A")
  first_rate interval (null_value ∷ _) = shows (per_second interval (n.of_nat 0))
  first_rate interval (value v ∷ _) =
      if n.less v (n.of_nat 0) then shows (lit "N/A") else shows (per_second interval v)

  unfoldable pub format_rate : ℕ → List (Series n) → Rate
  unfolding first_rate
  format_rate interval [] = type_error
  format_rate interval (null_series ∷ _) = shows (lit "N/A")
  format_rate interval (points ps ∷ _) = first_rate interval ps

  -- What a request for a cell comes to, and the text that the cell has then.
  pub data Fetched : Type 0 where
    fetched : List (Series n) → Fetched
    refused : Fetched

  unfoldable pub fill_rate : Globals → Fetched → Text → Text
  unfolding format_rate
  fill_rate g (fetched series) cell = elim (format_rate g.statsd_interval series) [
    | type_error ↦ cell
    | shows text ↦ text
  ]
  fill_rate g refused cell = lit "ERROR"
