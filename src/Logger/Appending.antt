-- ===== src/Logger/Appending.antt =====
-- header/logger.h: what is written does not depend on what stands before it in the buffer.
use trade_engine.Prelude.{
  ℕ, ◌≡◌, refl, ◌∙◌, ap, [], ◌∷◌, ◌++◌, append_assoc, Result, ok, fault, waiting, ◌>>=◌,
}
use Prim.Native.String.{String}
use trade_engine.Price.{Float}
use trade_engine.Logger.{
  Text, until_nul, fill_temp, convert_u64_to_str, write_string, int_part, float_to_char,
  number_line, price_line, char_line, codes,
}

abbrev pub behind : Text → Result Text → Result Text
behind before r = r >>= λ t. ok (before ++ t)

abbrev pub IsAppending : (Text → Result Text) → Type 0
IsAppending f = (before b : Text) → f (before ++ b) ≡ behind before (f b)

-- The same of a writer that cannot fail.
abbrev pub Appends : (Text → Text) → Type 0
Appends f = (before b : Text) → f (before ++ b) ≡ before ++ f b

bind-behind :
    (before : Text) (r : Result Text) (g : Text → Result Text)
    → IsAppending g
    → (behind before r >>= g) ≡ behind before (r >>= g)
bind-behind before (ok t) g h = h before t
bind-behind before fault g h = refl
bind-behind before waiting g h = refl

pub bind-IsAppending :
    (f g : Text → Result Text) → IsAppending f → IsAppending g → IsAppending (λ b. f b >>= g)
bind-IsAppending f g h k before b = ap (λ r. r >>= g) (h before b) ∙ bind-behind before (f b) g k

pub ok-IsAppending : (f : Text → Text) → Appends f → IsAppending (λ b. ok (f b))
ok-IsAppending f h before b = ap ok (h before b)

pub after-IsAppending :
    (f : Text → Text) (g : Text → Result Text)
    → Appends f
    → IsAppending g
    → IsAppending (λ b. g (f b))
after-IsAppending f g h k before b = ap g (h before b) ∙ k before (f b)

pub more-Appends : (more : Text) → Appends (λ b. b ++ more)
more-Appends more before b = append_assoc before b more

write_string-Appends : (label : String) → Appends (write_string label)
unfolding write_string
write_string-Appends label = more-Appends (until_nul (codes label))

pub char_line-Appends : (label : String) (c : ℕ) → Appends (char_line label c)
unfolding char_line
char_line-Appends label c before b =
    ap (λ t. t ++ c ∷ 10 ∷ []) (write_string-Appends label before b)
    ∙ append_assoc before (write_string label b) (c ∷ 10 ∷ [])

-- A value that is computed first.
given-IsAppending :
    (r : Result ℕ) (g : ℕ → Text → Result Text)
    → ((i : ℕ) → IsAppending (g i))
    → IsAppending (λ b. r >>= λ i. g i b)
given-IsAppending (ok i) g h before b = h i before b
given-IsAppending fault g h before b = refl
given-IsAppending waiting g h before b = refl

temp-IsAppending : (r : Result Text) → IsAppending (λ b. r >>= λ temp. ok (b ++ until_nul temp))
temp-IsAppending (ok temp) before b = ap ok (append_assoc before b (until_nul temp))
temp-IsAppending fault before b = refl
temp-IsAppending waiting before b = refl

convert_u64_to_str-IsAppending : (value : ℕ) → IsAppending (convert_u64_to_str value)
unfolding convert_u64_to_str
convert_u64_to_str-IsAppending value = temp-IsAppending (fill_temp 23 value [])

pub number_line-IsAppending : (label : String) (value : ℕ) → IsAppending (number_line label value)
unfolding number_line
number_line-IsAppending label value =
    bind-IsAppending (λ b. convert_u64_to_str value (write_string label b)) (λ b. ok (b ++ 10 ∷ []))
      (after-IsAppending (write_string label) (convert_u64_to_str value)
        (write_string-Appends label) (convert_u64_to_str-IsAppending value))
      (ok-IsAppending _ (more-Appends (10 ∷ [])))

float_to_char-IsAppending : (f : Float) → IsAppending (float_to_char f)
unfolding float_to_char
float_to_char-IsAppending f = given-IsAppending (int_part f) _ λ i.
    bind-IsAppending (convert_u64_to_str i) _ (convert_u64_to_str-IsAppending i)
      (ok-IsAppending _ (more-Appends _))

pub price_line-IsAppending : (label : String) (f : Float) → IsAppending (price_line label f)
unfolding price_line
price_line-IsAppending label f =
    bind-IsAppending (λ b. float_to_char f (write_string label b)) (λ b. ok (b ++ 10 ∷ []))
      (after-IsAppending (write_string label) (float_to_char f) (write_string-Appends label)
        (float_to_char-IsAppending f))
      (ok-IsAppending _ (more-Appends (10 ∷ [])))
