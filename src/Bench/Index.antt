-- ===== src/Bench/Index.antt =====
-- header/bench.h: the positions of the four times. The literals are not exact and the products are
-- rounded, and still the positions are the exact ones.
use trade_engine.Prelude.{ℕ, ◌*◌, ◌/◌, ◌%◌, ◌^◌, ◌≤◌, ◌<◌, ◌≡◌, arith, ◌==◌, Bool-cases, inl, inr}
use trade_engine.Price.Rounding.{round_double-bounds}
use trade_engine.Price.Exact.{restores}
use trade_engine.Bench.{double_75, double_95, double_99, index, quarter}

module _ (n : ℕ) (some_times : 0 < n) (few : n < 2 ^ 31) where
  index_75-ge : 3 * n / 4 ≤ index n double_75
  unfolding index
  index_75-ge = elim (Bool-cases (n % 4 == 0)) [
    | inl t ↦
        let whole : n % 4 ≡ 0 = ground arith in
        let back =
          restores (n * double_75) (0 * (n / 4)) (3 * (n / 4)) (omega arith) (omega arith)
            (omega arith) (omega arith) in
        omega (arith, back, whole)
    | inr t ↦
        let broken : 0 < n % 4 = ground arith in
        let (above, below) = round_double-bounds (n * double_75) (omega arith) in
        omega (arith, below, broken)
  ]

  -- `n * 0.75`.
  pub index_75 : index n double_75 ≡ 3 * n / 4
  unfolding index
  index_75 =
      let (above, below) = round_double-bounds (n * double_75) (omega arith) in
      omega (arith, index_75-ge)

  index_95-ge : 95 * n / 100 ≤ index n double_95
  unfolding index
  index_95-ge = elim (Bool-cases (n % 20 == 0)) [
    | inl t ↦
        let whole : n % 20 ≡ 0 = ground arith in
        let back =
          restores (n * double_95) (8 * (n / 20)) (19 * (n / 20)) (omega arith) (omega arith)
            (omega arith) (omega arith) in
        omega (arith, back, whole)
    | inr t ↦
        let broken : 0 < n % 20 = ground arith in
        let (above, below) = round_double-bounds (n * double_95) (omega arith) in
        omega (arith, below, broken)
  ]

  -- `n * 0.95`.
  pub index_95 : index n double_95 ≡ 95 * n / 100
  unfolding index
  index_95 =
      let (above, below) = round_double-bounds (n * double_95) (omega arith) in
      omega (arith, index_95-ge)

  index_99-ge : 99 * n / 100 ≤ index n double_99
  unfolding index
  index_99-ge = elim (Bool-cases (n % 100 == 0)) [
    | inl t ↦
        let whole : n % 100 ≡ 0 = ground arith in
        let back =
          restores (n * double_99) (8 * (n / 100)) (99 * (n / 100)) (omega arith) (omega arith)
            (omega arith) (omega arith) in
        omega (arith, back, whole)
    | inr t ↦
        let broken : 0 < n % 100 = ground arith in
        let (above, below) = round_double-bounds (n * double_99) (omega arith) in
        omega (arith, below, broken)
  ]

  -- `n * 0.99`.
  pub index_99 : index n double_99 ≡ 99 * n / 100
  unfolding index
  index_99 =
      let (above, below) = round_double-bounds (n * double_99) (omega arith) in
      omega (arith, index_99-ge)

-- For a vector of fewer than 2^31 times, the positions that are computed with doubles are the
-- exact ones: 75, 95 and 99 hundredths of its length, rounded down. The position that is printed
-- as P50 is 25 hundredths of it.
pub index-hundredths :
    (n : ℕ)
    → 0 < n
    → n < 2 ^ 31
    → (quarter n ≡ 25 * n / 100)
      × (index n double_75 ≡ 75 * n / 100)
      × (index n double_95 ≡ 95 * n / 100)
      × (index n double_99 ≡ 99 * n / 100)
index-hundredths n h k =
    (omega arith, omega (arith, index_75 n h k), index_95 n h k, index_99 n h k)
