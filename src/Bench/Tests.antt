-- ===== src/Bench/Tests.antt =====
-- header/bench.h: eight measured times, and none.
use trade_engine.Prelude.{ℕ, ◌*◌, ◌/◌, ◌≡◌, refl, List, [], ◌∷◌, arith, ok}
use trade_engine.Bench.{
  double_75, double_95, double_99, index, quarter, Percentiles, show_benchmark,
}
use trade_engine.Bench.Index.{index-hundredths}
use trade_engine.Bench.Report.{Reports, show_benchmark-Reports}

abbrev times : List ℕ
times = 90 ∷ 20 ∷ 50 ∷ 10 ∷ 80 ∷ 30 ∷ 70 ∷ 60 ∷ []

show_benchmark_test : show_benchmark times ≡ ok (record { p50 = 30; p75 = 80; p95 = 90; p99 = 90 })
unfolding show_benchmark index
show_benchmark_test = refl

index-hundredths_example :
    (quarter 199_999 ≡ 25 * 199_999 / 100)
    × (index 199_999 double_75 ≡ 75 * 199_999 / 100)
    × (index 199_999 double_95 ≡ 95 * 199_999 / 100)
    × (index 199_999 double_99 ≡ 99 * 199_999 / 100)
index-hundredths_example = index-hundredths 199_999 (ground arith) (ground arith)

show_benchmark-Reports_example : (p : Percentiles) × (show_benchmark times ≡ ok p) × Reports times p
show_benchmark-Reports_example = show_benchmark-Reports times (ground arith) (ground arith)
