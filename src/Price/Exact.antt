-- ===== src/Price/Exact.antt =====
-- Rounding to 53 significant bits restores a multiple of 2^53 from a number that is close below it.
use trade_engine.Prelude.{
  ℕ, zero, suc, ◌+◌, ◌-◌, ◌*◌, ◌/◌, ◌%◌, ◌^◌, ◌≤◌, ◌<◌, ◌≡◌, sym, ◌∙◌, ap, true, arith, ltb→lt,
  ◌==◌, leb, ltb, ◌&&◌, Bool-cases, inl, inr,
}
use native.Mathlib.Nat.{
  div-add-mod', mod-lt, two-pow-succ, mul-le-mul_right, mul_assoc, pow-le-pow_right,
}
use trade_engine.Price.{bit_length, round_shift}
use trade_engine.Price.Double.{round_double}
use trade_engine.Price.Rounding.{bit_length-bounds, two_pow-52, two_pow-pos, digits_left}

-- To the nearest: the distance is at most a half.
round_shift-half :
    (k m : ℕ)
    → (2 * (round_shift k m * 2 ^ k) ≤ 2 * m + 2 ^ k)
      × (2 * m ≤ 2 * (round_shift k m * 2 ^ k) + 2 ^ k)
unfolding round_shift
round_shift-half k m =
    let whole = div-add-mod' m (2 ^ k) in
    let part = mod-lt m (two_pow-pos k) in
    elim (Bool-cases (ltb (2 ^ k) (2 * (m % 2 ^ k)))) [
      | inl t ↦ rw t (omega (arith, ltb→lt _ _ t), omega (arith, ltb→lt _ _ t))
      | inr t ↦
          let low : 2 * (m % 2 ^ k) ≤ 2 ^ k = ground arith in
          elim (Bool-cases (2 * (m % 2 ^ k) == 2 ^ k && m / 2 ^ k % 2 == 1)) [
            | inl u ↦
                let tie : 2 * (m % 2 ^ k) ≡ 2 ^ k = ground arith in
                rw (t, u) (omega arith, omega arith)
            | inr u ↦ rw (t, u) (omega arith, omega arith)
          ]
    ]

two_pow-split : (k left : ℕ) → 2 ^ (k + left) ≡ 2 ^ left * 2 ^ k
two_pow-split zero left = let none : 0 + left ≡ left = omega arith in rw none (omega arith)
two_pow-split (suc k) left =
    let next : suc k + left ≡ suc (k + left) = omega arith in
    rw (next, two-pow-succ (k + left), two-pow-succ k, two_pow-split k left) (omega arith)

-- A multiple of `p` that is at most a half beyond `x` is not passed by rounding `x` up.
multiple-le :
    (p t u x gap : ℕ) → x + gap ≡ u * p → 2 * gap < p → 2 * x ≤ 2 * (t * p) + p → u * p ≤ t * p
multiple-le p t u x gap e small near = elim (Bool-cases (leb u t)) [
  | inl h ↦ mul-le-mul_right p (ground arith)
  | inr h ↦
      let beyond : suc t * p ≤ u * p = mul-le-mul_right p (ground arith) in
      absurd (omega (arith, e, small, near, beyond))
]

exponent-lt : (l x n : ℕ) → 2 ^ l ≤ x → x < 2 ^ n → l < n
exponent-lt l x n low below = elim (Bool-cases (leb n l)) [
  | inl h ↦
      let up : 2 ^ n ≤ 2 ^ l = pow-le-pow_right (ground arith) (ground arith) in
      absurd (omega (arith, up))
  | inr h ↦ ground arith
]

few_digits : (l b : ℕ) → b ≡ suc l → leb b 53 ≡ true → l ≤ 52
few_digits l b e t = ground arith

module _ (x gap whole : ℕ) (e : x + gap ≡ whole * 2 ^ 53) (small : 2 * gap * 2 ^ 53 ≤ x)
    (positive : 0 < x) (below : x < 2 ^ 84) where
  -- Then rounding restores the multiple of 2^53.
  pub restores : whole * 2 ^ 53 ≤ round_double x
  unfolding round_double
  restores =
      let (l, same, low, high) = bit_length-bounds 128 x (omega arith) positive in
      elim (Bool-cases (leb (bit_length 128 x) 53)) [
        | inl t ↦
            let digits : 2 ^ l ≤ 2 ^ 52 =
              pow-le-pow_right (ground arith) (few_digits l (bit_length 128 x) same t) in
            rw t (omega (arith, e, small, high, digits))
        | inr t ↦
            let k = bit_length 128 x - 53 in
            let split = digits_left l (bit_length 128 x) same t in
            let digits : 2 ^ l ≡ 2 ^ 52 * 2 ^ k = rw (← split) (two_pow-52 k) in
            let short : l < 84 = exponent-lt l x 84 low below in
            let all : k + (53 - k) ≡ 53 = omega (arith, short, split) in
            let factors : 2 ^ 53 ≡ 2 ^ (53 - k) * 2 ^ k =
              ap (λ i. 2 ^ i) (sym all) ∙ two_pow-split k (53 - k) in
            let product : whole * 2 ^ 53 ≡ whole * 2 ^ (53 - k) * 2 ^ k =
              ap (λ i. whole * i) factors ∙ sym (mul_assoc whole (2 ^ (53 - k)) (2 ^ k)) in
            let near : 2 * x ≤ 2 * (round_shift k x * 2 ^ k) + 2 ^ k = (round_shift-half k x).1 in
            let reached =
              multiple-le (2 ^ k) (round_shift k x) (whole * 2 ^ (53 - k)) x gap (e ∙ product)
                (omega (arith, small, high, digits)) near in
            rw t (omega (arith, product, reached))
      ]
