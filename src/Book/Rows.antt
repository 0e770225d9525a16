-- ===== src/Book/Rows.antt =====
-- header/lob_struct.h: the orders that a row of the book still holds.
use trade_engine.Prelude.{
  ℕ, zero, suc, ◌+◌, ◌<◌, ◌≡◌, refl, some, List, [], ◌∷◌, ◌++◌, set, get_elem?, ◌==◌, if◌then◌else◌,
  arith,
}
use trade_engine.Structs.{LobOrder}

-- The entries that are not soft-deleted, in time priority.
abbrev pub live : List LobOrder → List LobOrder
live [] = []
live (o ∷ os) = if o.quantity == 0 then live os else o ∷ live os

-- Their number and their total quantity.
abbrev pub weight : LobOrder → ℕ
weight o = if o.quantity == 0 then 0 else 1

abbrev pub live_count : List LobOrder → ℕ
live_count [] = 0
live_count (o ∷ os) = weight o + live_count os

abbrev pub total : List LobOrder → ℕ
total [] = 0
total (o ∷ os) = o.quantity + total os

pub live_count-append :
    (xs ys : List LobOrder) → live_count (xs ++ ys) ≡ live_count xs + live_count ys
live_count-append [] ys = omega arith
live_count-append (x ∷ xs) ys = omega (arith, live_count-append xs ys)

pub total-append : (xs ys : List LobOrder) → total (xs ++ ys) ≡ total xs + total ys
total-append [] ys = omega arith
total-append (x ∷ xs) ys = omega (arith, total-append xs ys)

pub live-append : (xs ys : List LobOrder) → live (xs ++ ys) ≡ live xs ++ live ys
live-append [] ys = refl
live-append (x ∷ xs) ys = ground (arith, live-append xs ys)

pub live_count-set :
    (xs : List LobOrder) (c : ℕ) (o o' : LobOrder)
    → get_elem? xs c ≡ some o
    → live_count (set xs c o') + weight o ≡ live_count xs + weight o'
live_count-set [] c o o' h = ground arith
live_count-set (x ∷ xs) zero o o' h = ground arith
live_count-set (x ∷ xs) (suc c) o o' h = omega (arith, live_count-set xs c o o' h)

pub total-set :
    (xs : List LobOrder) (c : ℕ) (o o' : LobOrder)
    → get_elem? xs c ≡ some o
    → total (set xs c o') + o.quantity ≡ total xs + o'.quantity
total-set [] c o o' h = ground arith
total-set (x ∷ xs) zero o o' h = ground arith
total-set (x ∷ xs) (suc c) o o' h = omega (arith, total-set xs c o o' h)

pub live_count_pos :
    (xs : List LobOrder) (c : ℕ) (o : LobOrder)
    → get_elem? xs c ≡ some o
    → 0 < o.quantity
    → 0 < live_count xs
live_count_pos [] c o h k = ground arith
live_count_pos (x ∷ xs) zero o h k = ground arith
live_count_pos (x ∷ xs) (suc c) o h k = omega (arith, live_count_pos xs c o h k)
