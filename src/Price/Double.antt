-- ===== src/Price/Double.antt =====
-- The `double` arithmetic of alpha_tester.cpp. A double that is not negative, is below 256 and has
-- no digit below 2^-56 is the natural number of the 2^-56 that it holds; sums and products are
-- rounded to 53 significant bits, to nearest, ties to even.
use trade_engine.Prelude.{ℕ, ◌+◌, ◌-◌, ◌*◌, ◌^◌, ◌==◌, leb, if◌then◌else◌}
use trade_engine.Price.{Float, bit_length, round_shift}

abbrev pub Double : Type 0
Double = ℕ

-- The nearest number of 53 significant bits.
unfoldable pub round_double : ℕ → Double
unfolding bit_length round_shift
round_double n =
    let l = bit_length 128 n in if leb l 53 then n else round_shift (l - 53) n * 2 ^ (l - 53)

abbrev pub double_of_int : ℕ → Double
double_of_int n = n * 2 ^ 56

-- The double that the literal `0.1` denotes: 0x3fb999999999999a.
abbrev pub tenth : Double
tenth = 0x1999999999999a

-- `(double)k * 0.1`.
unfoldable pub tenths : ℕ → Double
unfolding round_double
tenths k = round_double (k * tenth)

unfoldable pub add_double : Double → Double → Double
unfolding round_double
add_double a b = round_double (a + b)

-- The conversion of a double to `float`.
unfoldable pub float_of_double : Double → Float
unfolding bit_length round_shift
float_of_double n =
    let l = bit_length 64 n in
    let m = if leb l 24 then n * 2 ^ (24 - l) else round_shift (l - 24) n in
    if n == 0 then 0 else (l + 69) * 2 ^ 23 + m
