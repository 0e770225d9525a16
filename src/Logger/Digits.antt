-- ===== src/Logger/Digits.antt =====
-- header/logger.h: `convert_u64_to_str` against reading the digits back.
use trade_engine.Prelude.{
  ℕ, zero, suc, ◌+◌, ◌-◌, ◌*◌, ◌/◌, ◌%◌, ◌^◌, ◌≤◌, ◌<◌, ◌≡◌, ◌≢◌, refl, sym, ◌∙◌, ap, [], ◌∷◌, ◌++◌,
  length, length-append, append_assoc, append-nil, arith, ◌==◌, ok, ◌>>=◌, Bool-cases, inl, inr,
}
use native.Mathlib.Nat.{pow-suc}
use trade_engine.Logger.{Text, fill_temp, until_nul, convert_u64_to_str}

-- The number that decimal digits stand for, behind `before`.
pub read_from : ℕ → Text → ℕ
read_from before [] = before
read_from before (c ∷ cs) = read_from (before * 10 + (c - b'0')) cs

abbrev pub AllDigits : Text → Type 0
AllDigits [] = Unit {0}
AllDigits (c ∷ cs) = (b'0' ≤ c) × (c ≤ b'9') × AllDigits cs

read_from-append :
    (before : ℕ) (cs : Text) (d : ℕ)
    → read_from before (cs ++ d ∷ []) ≡ read_from before cs * 10 + (d - b'0')
unfolding read_from
read_from-append before [] d = refl
read_from-append before (c ∷ cs) d = read_from-append (before * 10 + (c - b'0')) cs d

AllDigits-append :
    (cs : Text) (d : ℕ) → AllDigits cs → b'0' ≤ d → d ≤ b'9' → AllDigits (cs ++ d ∷ [])
AllDigits-append [] d h k l = (k, l, tt)
AllDigits-append (c ∷ cs) d (a, b, h) k l = (a, b, AllDigits-append cs d h k l)

until_nul-AllDigits : (cs : Text) → AllDigits cs → until_nul cs ≡ cs
unfolding until_nul
until_nul-AllDigits [] h = refl
until_nul-AllDigits (c ∷ cs) (a, b, h) = ground (arith, until_nul-AllDigits cs h)

-- The digits of `value`, at most `n`, have been put before `temp`.
record Filled (n places value : ℕ) (temp : Text) : Type 0 where
  digits : Text
  runs : fill_temp places value temp ≡ ok (digits ++ temp)
  reads : read_from 0 digits ≡ value
  few : length digits ≤ n
  all_digits : AllDigits digits

positive : (n x : ℕ) → x < 10 ^ n → x ≢ 0 → 0 < n
positive zero x h k = absurd (k (omega arith))
positive (suc n) x h k = omega arith

fill_temp_lem :
    (n places value : ℕ) (temp : Text)
    → 0 < n
    → n ≤ places
    → value < 10 ^ n
    → Filled n places value temp
unfolding fill_temp read_from
fill_temp_lem zero places value temp p h k = absurd (omega arith)
fill_temp_lem (suc n) zero value temp p h k = absurd (omega arith)
fill_temp_lem (suc n) (suc places) value temp p h k = elim (Bool-cases (value / 10 == 0)) [
  | inl t ↦ record {
    digits = d ∷ [];
    runs = rw t;
    reads = ground arith;
    few = omega arith;
    all_digits = (omega arith, omega arith, tt);
  }
  | inr t ↦
      let m =
        fill_temp_lem n places (value / 10) (d ∷ temp)
          (positive n (value / 10) smaller (ground arith)) (omega arith) smaller in
      record {
        digits = m.digits ++ d ∷ [];
        runs = rw (t, m.runs) (ap ok (sym (append_assoc m.digits (d ∷ []) temp)));
        reads = read_from-append 0 m.digits d ∙ rw m.reads (omega arith);
        few = omega (arith, length-append m.digits (d ∷ []), m.few);
        all_digits = AllDigits-append m.digits d m.all_digits (omega arith) (omega arith);
      }
]
  where
    d : ℕ
    d = value % 10 + b'0'

    smaller : value / 10 < 10 ^ n
    smaller = omega (arith, pow-suc 10 n)

-- `convert_u64_to_str` returns for every 64-bit value, within its `temp` array, and appends at
-- most 20 characters. They are digits, and read as a decimal number they are the value.
pub convert_u64_to_str-read_from :
    (value : ℕ) (buffer : Text)
    → value < 2 ^ 64
    → (digits : Text) × (convert_u64_to_str value buffer ≡ ok (buffer ++ digits))
      × (read_from 0 digits ≡ value)
      × (length digits ≤ 20)
      × AllDigits digits
unfolding convert_u64_to_str
convert_u64_to_str-read_from value buffer h =
    let f = fill_temp_lem 20 23 value [] (omega arith) (omega arith) (omega arith) in
    (
      f.digits,
      rw (f.runs, append-nil f.digits, ◌>>=◌, until_nul-AllDigits f.digits f.all_digits),
      f.reads,
      f.few,
      f.all_digits,
    )
