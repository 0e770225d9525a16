-- ===== src/Book/Levels.antt =====
-- header/lob_struct.h: the book as price levels, each a queue of the live orders in time priority.
use trade_engine.Prelude.{
  ℕ, zero, suc, ◌<◌, ◌≡◌, ◌≢◌, refl, some, List, [], ◌∷◌, set, get_elem?, arith, ◌==◌,
  if◌then◌else◌,
}
use trade_engine.Structs.{LobOrder}
use trade_engine.Book.{Book}
use trade_engine.Book.Rows.{live}

-- The live orders at a price.
abbrev pub level : Book → ℕ → List LobOrder
level b p = live (b.book p)

-- A queue with the order of this id taken out.
pub without : ℕ → List LobOrder → List LobOrder
without id [] = []
without id (o ∷ os) = if o.system_id == id then without id os else o ∷ without id os

-- A queue with the quantity of the order of this id changed, in its place.
pub with_quantity : ℕ → ℕ → List LobOrder → List LobOrder
with_quantity id n [] = []
with_quantity id n (o ∷ os) =
    (if o.system_id == id then record o { quantity = n } else o) ∷ with_quantity id n os

-- No live order of the row but the one in column `c` has the id.
abbrev pub OnlyAt : ℕ → List LobOrder → ℕ → Type 0
OnlyAt id row c =
    (c' : ℕ) (o : LobOrder) → get_elem? row c' ≡ some o → 0 < o.quantity → o.system_id ≡ id → c' ≡ c

abbrev pub Absent : ℕ → List LobOrder → Type 0
Absent id row =
    (c' : ℕ) (o : LobOrder) → get_elem? row c' ≡ some o → 0 < o.quantity → o.system_id ≢ id

pub without-Absent :
    (id : ℕ) (row : List LobOrder) → Absent id row → without id (live row) ≡ live row
unfolding without
without-Absent id [] h = refl
without-Absent id (o ∷ row) h =
    ground (arith, h 0 o refl, without-Absent id row (λ c' o' e. h (suc c') o' e))

pub with_quantity-Absent :
    (id n : ℕ) (row : List LobOrder) → Absent id row → with_quantity id n (live row) ≡ live row
unfolding with_quantity
with_quantity-Absent id n [] h = refl
with_quantity-Absent id n (o ∷ row) h =
    ground (arith, h 0 o refl, with_quantity-Absent id n row (λ c' o' e. h (suc c') o' e))

pub without-set :
    (id : ℕ) (row : List LobOrder) (c : ℕ) (o : LobOrder)
    → get_elem? row c ≡ some o
    → o.system_id ≡ id
    → 0 < o.quantity
    → OnlyAt id row c
    → live (set row c (record o { quantity = 0 })) ≡ without id (live row)
unfolding without
without-set id [] c o e s k h = ground arith
without-set id (x ∷ row) zero o e s k h = ground (
  arith,
  without-Absent id row (λ c' o' e' k' s'. absurd (ground (arith, h (suc c') o' e' k' s'))),
)
without-set id (x ∷ row) (suc c) o e s k h = ground (
  arith,
  h 0 x refl,
  without-set id row c o e s k (λ c' o' e' k' s'. ground (arith, h (suc c') o' e' k' s')),
)

pub with_quantity-set :
    (id n : ℕ) (row : List LobOrder) (c : ℕ) (o : LobOrder)
    → get_elem? row c ≡ some o
    → o.system_id ≡ id
    → 0 < o.quantity
    → 0 < n
    → OnlyAt id row c
    → live (set row c (record o { quantity = n })) ≡ with_quantity id n (live row)
unfolding with_quantity
with_quantity-set id n [] c o e s k k' h = ground arith
with_quantity-set id n (x ∷ row) zero o e s k l h = ground (
  arith,
  with_quantity-Absent id n row (λ c' o' e' k' s'. absurd (ground (arith, h (suc c') o' e' k' s'))),
)
with_quantity-set id n (x ∷ row) (suc c) o e s k l h = ground (
  arith,
  h 0 x refl,
  with_quantity-set id n row c o e s k l (λ c' o' e' k' s'. ground (arith, h (suc c') o' e' k' s')),
)
