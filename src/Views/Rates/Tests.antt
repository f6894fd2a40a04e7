-- ===== src/Views/Rates/Tests.antt =====
-- The cells at concrete answers.
use xmq.Base.{ℕ, ◌≡◌, refl, [], ◌∷◌, ◌++◌}
use xmq.Js.Text.{Text, lit}
use xmq.Js.Decimal.{show}
use xmq.Samples.{sample_globals, whole_numbers}
use xmq.Views.Rates.{rate_query, null_point, null_value, value, points, fetched, refused, fill_rate}

abbrev cell : Text
cell = lit "..."

abbrev with_zeros : ℕ → ℕ → Text
with_zeros v places = show v ++ lit ".00"

test_query :
    rate_query sample_globals (lit "t")
    ≡ (lit "target", lit "t")
      ∷ (lit "from", lit "-120sec")
      ∷ (lit "until", lit "-60sec")
      ∷ (lit "format", lit "json")
      ∷ []
unfolding rate_query show
test_query = refl

test_value :
    fill_rate whole_numbers with_zeros sample_globals
      (fetched (points (value 300 ∷ value 600 ∷ []) ∷ []))
      cell
    ≡ lit "5.00"
unfolding fill_rate show
test_value = refl

test_null_value :
    fill_rate whole_numbers with_zeros sample_globals (fetched (points (null_value ∷ []) ∷ [])) cell
    ≡ lit "0.00"
unfolding fill_rate show
test_null_value = refl

test_null_point :
    fill_rate whole_numbers with_zeros sample_globals (fetched (points (null_point ∷ []) ∷ [])) cell
    ≡ lit "N/A"
unfolding fill_rate
test_null_point = refl

test_no_series : fill_rate whole_numbers with_zeros sample_globals (fetched []) cell ≡ cell
unfolding fill_rate
test_no_series = refl

test_refused : fill_rate whole_numbers with_zeros sample_globals refused cell ≡ lit "ERROR"
unfolding fill_rate
test_refused = refl
