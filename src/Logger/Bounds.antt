-- ===== src/Logger/Bounds.antt =====
-- header/logger.h: a batch fits into its buffer.
use trade_engine.Prelude.{
  ℕ, ◌+◌, ◌^◌, ◌≤◌, ◌<◌, ◌≡◌, refl, [], ◌∷◌, ◌++◌, length, length-append, arith, Result, ok, ◌>>=◌,
}
use Prim.Native.String.{String}
use trade_engine.Price.{Float}
use trade_engine.Logger.{
  Text, codes, until_nul, convert_u64_to_str, write_string, int_part, float_to_char, number_line,
  price_line, char_line,
}
use trade_engine.Logger.Digits.{convert_u64_to_str-read_from}

-- The text is `buffer` with at most `n` characters more.
pub record Grows (n : ℕ) (buffer : Text) (r : Result Text) : Type 0 where
  pub text : Text
  pub runs : r ≡ ok text
  pub bounded : length text ≤ length buffer + n

pub Grows-bind :
    (n m : ℕ) (buffer : Text) (r : Result Text) (k : Text → Result Text)
    → Grows n buffer r
    → ((b : Text) → Grows m b (k b))
    → Grows (n + m) buffer (r >>= k)
Grows-bind n m buffer r k g h =
    let g' = h g.text in
    record {
      text = g'.text;
      runs = rw (g.runs, ◌>>=◌) g'.runs;
      bounded = omega (arith, g.bounded, g'.bounded);
    }

pub Grows-ok : (n : ℕ) (buffer more : Text) → length more ≤ n → Grows n buffer (ok (buffer ++ more))
Grows-ok n buffer more h = record {
  text = buffer ++ more;
  runs = refl;
  bounded = omega (arith, length-append buffer more);
}

pub Grows-from :
    (n m : ℕ) (buffer buffer' : Text) (r : Result Text)
    → length buffer' ≤ length buffer + m
    → Grows n buffer' r
    → Grows (n + m) buffer r
Grows-from n m buffer buffer' r h g = record {
  text = g.text;
  runs = g.runs;
  bounded = omega (arith, g.bounded);
}

pub Grows-mono :
    (n m : ℕ) (buffer : Text) (r : Result Text) → n ≤ m → Grows n buffer r → Grows m buffer r
Grows-mono n m buffer r h g = record {
  text = g.text;
  runs = g.runs;
  bounded = omega (arith, g.bounded);
}

length-until_nul : (cs : Text) → length (until_nul cs) ≤ length cs
unfolding until_nul
length-until_nul [] = omega arith
length-until_nul (c ∷ cs) = ground (arith, length-until_nul cs)

length-write_string :
    (label : String) (buffer : Text)
    → length (codes label) ≤ 40
    → length (write_string label buffer) ≤ length buffer + 40
unfolding write_string
length-write_string label buffer h =
    omega (arith, length-append buffer (until_nul (codes label)), length-until_nul (codes label))

convert-Grows :
    (value : ℕ) (buffer : Text) → value < 2 ^ 64 → Grows 20 buffer (convert_u64_to_str value buffer)
convert-Grows value buffer h =
    let (digits, runs, reads, few, all_digits) = convert_u64_to_str-read_from value buffer h in
    record {
      text = buffer ++ digits;
      runs = runs;
      bounded = omega (arith, length-append buffer digits, few);
    }

pub number_line-Grows :
    (label : String) (value : ℕ) (buffer : Text)
    → length (codes label) ≤ 40
    → value < 2 ^ 64
    → Grows 64 buffer (number_line label value buffer)
unfolding number_line
number_line-Grows label value buffer s h = Grows-mono 61 64 buffer _ (omega arith) (
    Grows-from 21 40 buffer (write_string label buffer) _ (length-write_string label buffer s) (
      Grows-bind 20 1 _ _ _ (convert-Grows value (write_string label buffer) h)
        (λ b. Grows-ok 1 b (10 ∷ []) (omega arith))))

int_part-lt : (f : Float) (i : ℕ) → int_part f ≡ ok i → i < 2 ^ 64
unfolding int_part
int_part-lt f i h = ground arith

-- The price can be cast to an `int`.
abbrev pub IsPrintable : Float → Type 0
IsPrintable f = (i : ℕ) × (int_part f ≡ ok i)

float_to_char-Grows :
    (f : Float) (buffer : Text) → IsPrintable f → Grows 23 buffer (float_to_char f buffer)
unfolding float_to_char
float_to_char-Grows f buffer (i, h) =
    rw (h, ◌>>=◌)
      (Grows-bind 20 3 buffer _ _ (convert-Grows i buffer (int_part-lt f i h))
        (λ b. Grows-ok 3 b _ (omega arith)))

pub price_line-Grows :
    (label : String) (f : Float) (buffer : Text)
    → length (codes label) ≤ 40
    → IsPrintable f
    → Grows 64 buffer (price_line label f buffer)
unfolding price_line
price_line-Grows label f buffer s h =
    Grows-from 24 40 buffer (write_string label buffer) _ (length-write_string label buffer s) (
      Grows-bind 23 1 _ _ _ (float_to_char-Grows f (write_string label buffer) h)
        (λ b. Grows-ok 1 b (10 ∷ []) (omega arith)))

pub length-char_line :
    (label : String) (c : ℕ) (buffer : Text)
    → length (codes label) ≤ 40
    → length (char_line label c buffer) ≤ length buffer + 64
unfolding char_line
length-char_line label c buffer s = omega (
  arith,
  length-append (write_string label buffer) (c ∷ 10 ∷ []),
  length-write_string label buffer s,
)
