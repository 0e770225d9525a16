-- ===== src/Bench/Order.antt =====
-- header/bench.h: the sorted times are those measured, in ascending order.
use trade_engine.Prelude.{
  ℕ, zero, suc, ◌≤◌, ◌≡◌, refl, ◌∙◌, ap, some, List, [], ◌∷◌, length, get_elem?, arith, Bool-cases,
  inl, inr, leb, Each, Each-mono, get_elem?-Each,
}
use mathlib.Core.List.{Perm}
use mathlib.Core.List.Perm
use trade_engine.Bench.{ordered_insert, sort}

ordered_insert-Perm : (x : ℕ) (ys : List ℕ) → Perm (ordered_insert x ys) (x ∷ ys)
ordered_insert-Perm x [] = Perm.rfl
ordered_insert-Perm x (y ∷ ys) = elim (Bool-cases (leb x y)) [
  | inl t ↦ rw (ordered_insert, t) Perm.rfl
  | inr t ↦
      rw (ordered_insert, t)
        (Perm.trans (Perm.cons y (ordered_insert-Perm x ys)) (Perm.swap x y ys))
]

pub sort-Perm : (times : List ℕ) → Perm (sort times) times
sort-Perm [] = Perm.rfl
sort-Perm (x ∷ xs) = Perm.trans (ordered_insert-Perm x (sort xs)) (Perm.cons x (sort-Perm xs))

-- Each entry is at most all those behind it.
abbrev pub IsSorted : List ℕ → Type 0
IsSorted [] = Unit {0}
IsSorted (x ∷ xs) = Each (λ y. x ≤ y) xs × IsSorted xs

Each-ordered_insert :
    (P : ℕ → Type 0) (x : ℕ) (ys : List ℕ) → P x → Each P ys → Each P (ordered_insert x ys)
Each-ordered_insert P x [] h hs = (h, tt)
Each-ordered_insert P x (y ∷ ys) h (k, ks) = elim (Bool-cases (leb x y)) [
  | inl t ↦ rw (ordered_insert, t) (h, (k, ks))
  | inr t ↦ rw (ordered_insert, t) (k, Each-ordered_insert P x ys h ks)
]

ordered_insert-IsSorted : (x : ℕ) (ys : List ℕ) → IsSorted ys → IsSorted (ordered_insert x ys)
ordered_insert-IsSorted x [] s = (tt, tt)
ordered_insert-IsSorted x (y ∷ ys) (h, s) = elim (Bool-cases (leb x y)) [
  | inl t ↦
      let below : x ≤ y = ground arith in
      rw (ordered_insert, t)
        ((below, Each-mono (λ z. y ≤ z) (λ z. x ≤ z) ys (λ z k. omega arith) h), (h, s))
  | inr t ↦
      rw (ordered_insert, t)
        (Each-ordered_insert (λ z. y ≤ z) x ys (ground arith) h, ordered_insert-IsSorted x ys s)
]

pub sort-IsSorted : (times : List ℕ) → IsSorted (sort times)
sort-IsSorted [] = tt
sort-IsSorted (x ∷ xs) = ordered_insert-IsSorted x (sort xs) (sort-IsSorted xs)

-- In a sorted list, an entry is at most those at higher positions.
pub IsSorted-le :
    (xs : List ℕ) (i j a b : ℕ)
    → IsSorted xs
    → i ≤ j
    → get_elem? xs i ≡ some a
    → get_elem? xs j ≡ some b
    → a ≤ b
IsSorted-le [] i j a b s h e f = ground arith
IsSorted-le (x ∷ xs) zero zero a b s h e f = let same : a ≡ b = cc in omega (arith, same)
IsSorted-le (x ∷ xs) zero (suc j) a b (below, s) h e f =
    let first : x ≡ a = cc in rw (← first) (get_elem?-Each (λ y. x ≤ y) xs j b below f)
IsSorted-le (x ∷ xs) (suc i) zero a b s h e f = absurd (omega arith)
IsSorted-le (x ∷ xs) (suc i) (suc j) a b (below, s) h e f =
    IsSorted-le xs i j a b s (omega arith) e f

length-ordered_insert : (x : ℕ) (ys : List ℕ) → length (ordered_insert x ys) ≡ suc (length ys)
length-ordered_insert x [] = refl
length-ordered_insert x (y ∷ ys) = elim (Bool-cases (leb x y)) [
  | inl t ↦ rw (ordered_insert, t) refl
  | inr t ↦ rw (ordered_insert, t) (ap suc (length-ordered_insert x ys))
]

pub length-sort : (times : List ℕ) → length (sort times) ≡ length times
length-sort [] = refl
length-sort (x ∷ xs) = length-ordered_insert x (sort xs) ∙ ap suc (length-sort xs)
