-- ===== src/Price.antt =====
-- The `float` prices of header/order_gateway_struct.h, as IEEE single precision bit patterns, and
-- the three things that the source computes with them: the tick `static_cast<size_t>(price * 10)`
-- of header/lob_struct.h and matching/matching.cpp, the test `!=` of `updateOrder`, and the
-- conversion of a `size_t` to `float` when `Ack` stores a price. Rounding is to nearest, ties to
-- even. A cast whose value a `size_t` cannot hold is undefined and gives `none`.
pub mod Laws
pub mod Double
pub mod Rounding
pub mod Exact
use trade_engine.Prelude.{
  ℕ, zero, suc, ◌+◌, ◌-◌, ◌*◌, ◌/◌, ◌%◌, ◌^◌, Bool, true, false, not, ◌&&◌, ◌||◌, Option, none,
  some, ◌==◌, leb, ltb, if◌then◌else◌,
}

abbrev pub Float : Type 0
Float = ℕ

unfoldable pub sign : Float → ℕ
sign f = f / 2 ^ 31 % 2

unfoldable pub exponent : Float → ℕ
exponent f = f / 2 ^ 23 % 256

unfoldable pub fraction : Float → ℕ
fraction f = f % 2 ^ 23

-- `m / 2 ^ k` rounded to the nearest integer, a tie to the even one.
unfoldable pub round_shift : ℕ → ℕ → ℕ
round_shift k m =
    let q = m / 2 ^ k in
    let r = m % 2 ^ k in if ltb (2 ^ k) (2 * r) || (2 * r == 2 ^ k && q % 2 == 1) then q + 1 else q

-- The bits that a product of a 24-bit significand by 10 has beyond 24.
pub excess : ℕ → ℕ
excess m =
    if ltb m (2 ^ 24)
    then 0
    else if ltb m (2 ^ 25)
    then 1
    else if ltb m (2 ^ 26)
    then 2
    else if ltb m (2 ^ 27)
    then 3
    else 4

-- The integer part of `m * 2 ^ (e - 150)`.
unfoldable pub scale : ℕ → ℕ → ℕ
scale m e = if leb 150 e then m * 2 ^ (e - 150) else m / 2 ^ (150 - e)

-- The magnitude of `price * 10`, cut to an integer.
pub tick_magnitude : ℕ → ℕ → ℕ
unfolding round_shift excess scale
tick_magnitude expo frac =
    let m = if expo == 0 then frac else frac + 2 ^ 23 in
    let k = excess (m * 10) in scale (round_shift k (m * 10)) ((if expo == 0 then 1 else expo) + k)

-- `static_cast<size_t>(price * 10)`.
unfoldable pub tick : Float → Option ℕ
unfolding sign exponent fraction tick_magnitude
tick f =
    let t = tick_magnitude (exponent f) (fraction f) in
    if exponent f == 255
    then none
    else if leb (2 ^ 64) t
    then none
    else if sign f == 1 && not (t == 0)
    then none
    else some t

pub is_nan : Float → Bool
unfolding exponent fraction
is_nan f = exponent f == 255 && not (fraction f == 0)

pub is_float_zero : Float → Bool
unfolding exponent fraction
is_float_zero f = exponent f == 0 && fraction f == 0

-- `a != b` on floats: a NaN differs from all, and the two zeros are equal.
unfoldable pub float_ne : Float → Float → Bool
unfolding is_nan is_float_zero
float_ne a b = is_nan a || is_nan b || (not (a == b) && not (is_float_zero a && is_float_zero b))

-- The number of binary digits, among the first `rounds`.
unfoldable pub bit_length : ℕ → ℕ → ℕ
bit_length zero n = 0
bit_length (suc rounds) n = let rest = bit_length rounds (n / 2) in if n == 0 then 0 else suc rest

-- The conversion of a `size_t` to `float`.
unfoldable pub float_of_size : ℕ → Float
unfolding bit_length round_shift
float_of_size n =
    let l = bit_length 64 n in
    let m = if leb l 24 then n * 2 ^ (24 - l) else round_shift (l - 24) n in
    if n == 0 then 0 else (l + 125) * 2 ^ 23 + m
