-- ===== src/Price/Rounding.antt =====
-- How far rounding to 53 significant bits moves a number: by at most one part in 2^52.
use trade_engine.Prelude.{
  ℕ, zero, suc, ◌+◌, ◌-◌, ◌*◌, ◌/◌, ◌%◌, ◌^◌, ◌≤◌, ◌<◌, ◌≡◌, refl, false, arith, ◌==◌, leb, ltb,
  ◌&&◌, ◌||◌, Bool-cases, ◌⊎◌, inl, inr,
}
use native.Mathlib.Nat.{div-add-mod', mod-lt, two-pow-succ}
use trade_engine.Price.{bit_length, round_shift}
use trade_engine.Price.Double.{round_double}

pub two_pow-pos : (k : ℕ) → 0 < 2 ^ k
two_pow-pos zero = ground arith
two_pow-pos (suc k) = omega (arith, two_pow-pos k, two-pow-succ k)

bit_length-zero : (rounds : ℕ) → bit_length rounds 0 ≡ 0
unfolding bit_length
bit_length-zero zero = refl
bit_length-zero (suc rounds) = refl

-- The bit length of a positive number is the `l` for which it is from 2^(l - 1) and below 2^l.
pub bit_length-bounds :
    (rounds n : ℕ)
    → n < 2 ^ rounds
    → 0 < n
    → (l : ℕ) × (bit_length rounds n ≡ suc l) × (2 ^ l ≤ n) × (n < 2 * 2 ^ l)
unfolding bit_length
bit_length-bounds zero n h k = absurd (ground arith)
bit_length-bounds (suc rounds) n h k =
    let nonzero : (n == 0) ≡ false = ground arith in
    elim (Bool-cases (n / 2 == 0)) [
      | inl e ↦
          let half : n / 2 ≡ 0 = ground arith in
          (0, rw (nonzero, half, bit_length-zero rounds), ground arith, ground arith)
      | inr e ↦
          let (l, same, low, high) =
            bit_length-bounds rounds (n / 2) (omega (arith, h, two-pow-succ rounds))
              (ground arith) in
          (
            suc l,
            rw (nonzero, same),
            omega (arith, low, two-pow-succ l),
            omega (arith, high, two-pow-succ l),
          )
    ]

round_shift-cases : (k m : ℕ) → (round_shift k m ≡ m / 2 ^ k) ⊎ (round_shift k m ≡ m / 2 ^ k + 1)
unfolding round_shift
round_shift-cases k m =
    elim (Bool-cases
      (ltb (2 ^ k) (2 * (m % 2 ^ k)) || (2 * (m % 2 ^ k) == 2 ^ k && m / 2 ^ k % 2 == 1))) [
        | inl t ↦ inr (rw t)
        | inr t ↦ inl (rw t)
      ]

round_shift-bounds :
    (k m : ℕ) → (round_shift k m * 2 ^ k ≤ m + 2 ^ k) × (m ≤ round_shift k m * 2 ^ k + 2 ^ k)
round_shift-bounds k m =
    let whole = div-add-mod' m (2 ^ k) in
    let part = mod-lt m (two_pow-pos k) in
    elim (round_shift-cases k m) [
      | inl e ↦ rw e (omega arith, omega arith)
      | inr e ↦ rw e (omega arith, omega arith)
    ]

pub two_pow-52 : (k : ℕ) → 2 ^ (52 + k) ≡ 2 ^ 52 * 2 ^ k
two_pow-52 zero = ground arith
two_pow-52 (suc k) =
    let next : 52 + suc k ≡ suc (52 + k) = omega arith in
    rw (next, two-pow-succ (52 + k), two-pow-succ k, two_pow-52 k) (omega arith)

pub digits_left : (l b : ℕ) → b ≡ suc l → leb b 53 ≡ false → 52 + (b - 53) ≡ l
digits_left l b e t = ground arith

pub round_double-bounds :
    (n : ℕ)
    → n < 2 ^ 128
    → (round_double n * 2 ^ 52 ≤ n * 2 ^ 52 + n) × (n * 2 ^ 52 ≤ round_double n * 2 ^ 52 + n)
unfolding round_double
round_double-bounds n h = elim (Bool-cases (n == 0)) [
  | inl z ↦ let none : n ≡ 0 = ground arith in rw none (omega arith, omega arith)
  | inr z ↦
      let (l, same, low, high) = bit_length-bounds 128 n h (ground arith) in
      elim (Bool-cases (leb (bit_length 128 n) 53)) [
        | inl t ↦ rw t (omega arith, omega arith)
        | inr t ↦
            let k = bit_length 128 n - 53 in
            let split : 52 + k ≡ l = digits_left l (bit_length 128 n) same t in
            let digits : 2 ^ l ≡ 2 ^ 52 * 2 ^ k = rw (← split) (two_pow-52 k) in
            let (above, below) = round_shift-bounds k n in
            rw t (omega (arith, above, low, digits), omega (arith, below, low, digits))
      ]
]
