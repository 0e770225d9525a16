-- ===== src/Book.antt =====
-- header/lob_struct.h: one side of the limit order book.
--
-- The vectors `book`, `LUT` and `active_counts` have fixed sizes after construction; each is a
-- function of the index, and every access outside the size is a `fault`. A LUT entry {-1, -1} is
-- `none`. Positions are below 2^31, so their conversion to `int` in `deleteOrder` keeps them.
pub mod Rows
pub mod Inv
pub mod Append
pub mod Index
pub mod Best
pub mod Valid
pub mod Update
pub mod Levels
pub mod Spec
pub mod Take
pub mod Depth
pub mod Tests
use trade_engine.Prelude.{
  ℕ, zero, suc, ◌+◌, ◌-◌, ◌^◌, ◌≡◌, Bool, true, false, ◌&&◌, ◌||◌, not, Option, none, some, List,
  [], ◌∷◌, ◌++◌, length, set, get_elem?, ◌==◌, ltb, leb, if◌then◌else◌, update, Result, ok, fault,
  ◌>>=◌, or_fault, ℤ, pos, incr, decr, is_zero,
}
use trade_engine.Structs.{LobOrder}
use trade_engine.Price.{tick}

abbrev pub lut_size : ℕ
lut_size = 10_000_000

-- A price index and a column of its row.
abbrev pub Location : Type 0
Location = ℕ × ℕ

-- `is_buy` is the template parameter.
pub record Book : Type 0 where
  pub is_buy : Bool
  pub best_price : ℕ
  pub book : ℕ → List LobOrder
  pub lut : ℕ → Option Location
  pub active_counts : ℕ → ℤ
  pub max_price_possible : ℕ

-- The constructor. (`reserve` changes no contents.)
unfoldable pub init : Bool → ℕ → Book
init is_buy max_price = record {
  is_buy = is_buy;
  best_price = if is_buy then 0 else max_price;
  book = λ _. [];
  lut = λ _. none;
  active_counts = λ _. pos 0;
  max_price_possible = max_price;
}

-- `while (best_price > 0 && active_counts[best_price] == 0) best_price--`.
unfoldable pub glide_down : (ℕ → ℤ) → ℕ → ℕ
glide_down counts zero = zero
glide_down counts (suc p) =
    let rest = glide_down counts p in if is_zero (counts (suc p)) then rest else suc p

-- `while (best_price < max && active_counts[best_price] == 0) best_price++`, by the rounds that
-- are left up to `max`.
unfoldable pub glide_up : (ℕ → ℤ) → ℕ → ℕ → ℕ
glide_up counts zero p = p
glide_up counts (suc rounds) p =
    let rest = glide_up counts rounds (suc p) in if is_zero (counts p) then rest else p

unfoldable pub glide_best_price : Book → Book
glide_best_price b = record b {
  best_price =
      if b.is_buy
      then glide_down b.active_counts b.best_price
      else glide_up b.active_counts (b.max_price_possible - b.best_price) b.best_price;
}

-- The place of an order, or `none` for the null pointer.
unfoldable pub peek_order : Book → ℕ → Option Location
peek_order b system_id = if leb lut_size system_id then none else b.lut system_id

-- What a pointer into the book shows.
unfoldable pub deref : Book → Location → Option LobOrder
deref b (p, c) = if ltb p b.max_price_possible then get_elem? (b.book p) c else none

-- The assignment of `quantity` through a pointer into the book.
unfoldable pub set_quantity : Book → Location → LobOrder → ℕ → Book
set_quantity b (p, c) o quantity = record b {
  book = update b.book p (set (b.book p) c (record o { quantity = quantity }));
}

-- The row at a price index, or `none` for the null pointer.
unfoldable pub get_order_at_price : Book → ℕ → Option (List LobOrder)
get_order_at_price b p = if leb b.max_price_possible p then none else some (b.book p)

-- The best price once an order is put at `p`.
unfoldable pub improve : Bool → ℕ → ℕ → ℕ
improve true best p = if ltb best p then p else best
improve false best p = if ltb p best then p else best

-- The body of `createOrder` at its price index.
unfoldable pub create_at : Book → LobOrder → ℕ → Book
unfolding improve
create_at b o p = record b {
  best_price = improve b.is_buy b.best_price p;
  book = update b.book p (b.book p ++ o ∷ []);
  lut = update b.lut o.system_id (some (p, length (b.book p)));
  active_counts = update b.active_counts p (incr (b.active_counts p));
}

unfoldable pub create_order : Book → LobOrder → Result Book
create_order b o = do
  p ← or_fault (tick o.price)
  if ltb p b.max_price_possible && ltb o.system_id lut_size then ok (create_at b o p) else fault

-- The larger quantity takes a new place at the end of the row.
unfoldable pub requeue : Book → Location → LobOrder → LobOrder → Book
unfolding set_quantity
requeue b (p, c) old o =
    let emptied = set (b.book p) c (record old { quantity = 0 }) in
    record b {
      book = update b.book p (emptied ++ o ∷ []);
      lut = update b.lut o.system_id (some (p, length emptied));
    }

unfoldable pub update_order_quantity : Book → LobOrder → Result Book
update_order_quantity b o = if leb lut_size o.system_id then ok b else elim (b.lut o.system_id) [
  | none ↦ ok b
  | some l ↦ do
    old ← or_fault (deref b l)
    if o.quantity == old.quantity
        then ok b
        else if ltb o.quantity old.quantity
        then ok (set_quantity b l old o.quantity)
        else ok (requeue b l old o)
]

-- The soft deletion at the place of the order.
unfoldable pub erase_at : Book → ℕ → Location → LobOrder → Book
erase_at b system_id (p, c) o = record b {
  book = update b.book p (set (b.book p) c (record o { quantity = 0 }));
  lut = update b.lut system_id none;
  active_counts = update b.active_counts p (decr (b.active_counts p));
}

-- The body of `deleteOrder` at the place of the order.
unfoldable pub delete_at : Book → ℕ → Location → LobOrder → Book
delete_at b system_id (p, c) o =
    let b' = erase_at b system_id (p, c) o in
    if is_zero (b'.active_counts p) && p == b.best_price then glide_best_price b' else b'

-- The parameter is an `int`: an id from 2^31 on is negative there, passes the guard, and indexes
-- the LUT out of range; so does the id `lut_size`. An entry {-1, -1} indexes `book` out of range.
unfoldable pub delete_order : Book → ℕ → Result Book
delete_order b system_id =
    if ltb lut_size system_id && ltb system_id (2 ^ 31)
    then ok b
    else if leb lut_size system_id
    then fault
    else elim (b.lut system_id) [
      | none ↦ fault
      | some l ↦ do o ← or_fault (deref b l); ok (delete_at b system_id l o)
    ]

unfoldable pub get_optimal_price : Book → ℕ
get_optimal_price b = b.best_price
