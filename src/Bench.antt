-- ===== src/Bench.antt =====
-- header/bench.h: `showBenchmark`, which sorts the measured times and prints four of them. The
-- argument `cpns` is left out: only the local function `convert` uses it, which is never called.
-- A vector has fewer than 2^31 entries, so that `int n` is its length.
pub mod Order
pub mod Index
pub mod Report
mod Tests
use trade_engine.Prelude.{
  ℕ, ◌*◌, ◌/◌, ◌^◌, List, [], ◌∷◌, length, get_elem?, leb, if◌then◌else◌, Result, ok, ◌>>=◌,
  or_fault,
}
use trade_engine.Price.Double.{round_double}

abbrev pub ordered_insert : ℕ → List ℕ → List ℕ
ordered_insert x [] = x ∷ []
ordered_insert x (y ∷ ys) =
    let rest = ordered_insert x ys in if leb x y then x ∷ y ∷ ys else y ∷ rest

-- `std::sort` on unsigned integers: the ascending list of the same entries.
abbrev pub sort : List ℕ → List ℕ
sort [] = []
sort (x ∷ xs) = ordered_insert x (sort xs)

-- The doubles `0.75`, `0.95` and `0.99`, in units of 2^-53.
abbrev pub double_75 : ℕ
double_75 = 0x18000000000000

abbrev pub double_95 : ℕ
double_95 = 0x1e666666666666

abbrev pub double_99 : ℕ
double_99 = 0x1fae147ae147ae

-- `time[n * c]`: the product is a double, and is cut to an integer.
pub index : ℕ → ℕ → ℕ
unfolding round_double
index n c = round_double (n * c) / 2 ^ 53

-- `n >> 2`.
abbrev pub quarter : ℕ → ℕ
quarter n = n / 4

-- The four times that are printed, as P50, P75, P95 and P99.
pub record Percentiles : Type 0 where
  pub p50 : ℕ
  pub p75 : ℕ
  pub p95 : ℕ
  pub p99 : ℕ

pub show_benchmark : List ℕ → Result Percentiles
show_benchmark time = do
  let n = length time
  p50 ← or_fault (get_elem? (sort time) (quarter n))
  p75 ← or_fault (get_elem? (sort time) (index n double_75))
  p95 ← or_fault (get_elem? (sort time) (index n double_95))
  p99 ← or_fault (get_elem? (sort time) (index n double_99))
  ok (record { p50 = p50; p75 = p75; p95 = p95; p99 = p99 })
