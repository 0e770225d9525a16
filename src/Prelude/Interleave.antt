-- ===== src/Prelude/Interleave.antt =====
-- Two sequences merged into one, each in its own order.
use Prim.Native.Nat.{ℕ, zero, suc, ◌+◌}
use mathlib.Core.Path.{◌≡◌, refl}
use mathlib.Core.List.{List, [], ◌∷◌, ◌++◌}
use native.Mathlib.Omega.{arith}
use mathlib.Core.Option.{some}
use trade_engine.Prelude.Lists.{length, get_elem?}

pub data Interleaves {ℓ} {A : Type ℓ} : List A → List A → List A → Type ℓ where
  neither : Interleaves [] [] []
  first : {xs ys zs : List A} (x : A) → Interleaves xs ys zs → Interleaves (x ∷ xs) ys (x ∷ zs)
  second : {xs ys zs : List A} (y : A) → Interleaves xs ys zs → Interleaves xs (y ∷ ys) (y ∷ zs)

-- The property holds for all entries.
abbrev pub Each {ℓ} : {A : Type ℓ} → (A → Type 0) → List A → Type 0
Each P [] = Unit {0}
Each P (x ∷ xs) = P x × Each P xs

module _ {ℓ} {A : Type ℓ} where
  pub Interleaves-append :
      {xs ys zs xs' ys' zs' : List A}
      → Interleaves xs ys zs
      → Interleaves xs' ys' zs'
      → Interleaves (xs ++ xs') (ys ++ ys') (zs ++ zs')
  Interleaves-append neither k = k
  Interleaves-append (first x h) k = first x (Interleaves-append h k)
  Interleaves-append (second y h) k = second y (Interleaves-append h k)

  pub length-Interleaves :
      {xs ys zs : List A} → Interleaves xs ys zs → length zs ≡ length xs + length ys
  length-Interleaves neither = omega arith
  length-Interleaves (first x h) = omega (arith, length-Interleaves h)
  length-Interleaves (second y h) = omega (arith, length-Interleaves h)

  pub Each-Interleaves :
      (P : A → Type 0) {xs ys zs : List A}
      → Interleaves xs ys zs
      → Each P xs
      → Each P ys
      → Each P zs
  Each-Interleaves P neither p q = tt
  Each-Interleaves P (first x h) (p, ps) q = (p, Each-Interleaves P h ps q)
  Each-Interleaves P (second y h) p (q, qs) = (q, Each-Interleaves P h p qs)

  pub Each-append : (P : A → Type 0) (xs : List A) (a : A) → Each P xs → P a → Each P (xs ++ a ∷ [])
  Each-append P [] a h k = (k, tt)
  Each-append P (x ∷ xs) a (h, hs) k = (h, Each-append P xs a hs k)

  pub Each-mono : (P Q : A → Type 0) (xs : List A) → ((x : A) → P x → Q x) → Each P xs → Each Q xs
  Each-mono P Q [] f h = tt
  Each-mono P Q (x ∷ xs) f (h, hs) = (f x h, Each-mono P Q xs f hs)

  -- The first part of a list.
  pub Each-left : (P : A → Type 0) (xs ys : List A) → Each P (xs ++ ys) → Each P xs
  Each-left P [] ys h = tt
  Each-left P (x ∷ xs) ys (h, hs) = (h, Each-left P xs ys hs)

  pub get_elem?-Each :
      (P : A → Type 0) (xs : List A) (i : ℕ) (a : A) → Each P xs → get_elem? xs i ≡ some a → P a
  get_elem?-Each P [] i a h e = ground arith
  get_elem?-Each P (x ∷ xs) zero a (h, hs) e = let same : x ≡ a = cc in rw (← same) h
  get_elem?-Each P (x ∷ xs) (suc i) a (h, hs) e = get_elem?-Each P xs i a hs e

  pub get_elem?-Each_all :
      (P : A → Type 0) (xs : List A) → ((i : ℕ) (a : A) → get_elem? xs i ≡ some a → P a) → Each P xs
  get_elem?-Each_all P [] h = tt
  get_elem?-Each_all P (x ∷ xs) h = (h 0 x refl, get_elem?-Each_all P xs (λ i a e. h (suc i) a e))

  pub Each-right : (P : A → Type 0) (xs ys : List A) → Each P (xs ++ ys) → Each P ys
  Each-right P [] ys h = h
  Each-right P (x ∷ xs) ys (h, hs) = Each-right P xs ys hs

  -- One sequence after the other.
  pub Interleaves-blocks : (xs ys : List A) → Interleaves xs ys (xs ++ ys)
  Interleaves-blocks [] [] = neither
  Interleaves-blocks [] (y ∷ ys) = second y (Interleaves-blocks [] ys)
  Interleaves-blocks (x ∷ xs) ys = first x (Interleaves-blocks xs ys)

  pub Each-join : (P : A → Type 0) (xs ys : List A) → Each P xs → Each P ys → Each P (xs ++ ys)
  Each-join P [] ys p q = q
  Each-join P (x ∷ xs) ys (p, ps) q = (p, Each-join P xs ys ps q)
