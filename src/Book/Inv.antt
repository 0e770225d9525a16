-- ===== src/Book/Inv.antt =====
-- header/lob_struct.h: the invariant of the book. The LUT and the rows point at one another, each
-- counter is the number of live orders of its row, and the best price is the best live one.
use trade_engine.Prelude.{
  ℕ, ◌≤◌, ◌<◌, ◌≡◌, ◌⊎◌, Bool, true, false, Option, some, List, get_elem?, ℤ, pos,
}
use trade_engine.Structs.{LobOrder}
use trade_engine.Book.{Book, Location, lut_size}
use trade_engine.Book.Rows.{live_count}

-- The order with this id rests at row `p`, column `c`.
pub record Resting (rows : ℕ → List LobOrder) (max id p c : ℕ) : Type 0 where
  pub id_in : id < lut_size
  pub price_in : p < max
  pub order : LobOrder
  pub here : get_elem? (rows p) c ≡ some order
  pub same_id : order.system_id ≡ id
  pub positive : 0 < order.quantity

pub record IsIndexed (rows : ℕ → List LobOrder) (lut : ℕ → Option Location) (counts : ℕ → ℤ)
    (max : ℕ) : Type 0 where
  pub located : (id p c : ℕ) → lut id ≡ some (p, c) → Resting rows max id p c
  pub indexed :
      (p c : ℕ) (o : LobOrder)
      → p < max
      → get_elem? (rows p) c ≡ some o
      → 0 < o.quantity
      → lut o.system_id ≡ some (p, c)
  pub counted : (p : ℕ) → p < max → counts p ≡ pos (live_count (rows p))

-- No live order has a better price, and the best price is live unless it is the initial one.
abbrev pub IsBest : Bool → ℕ → (ℕ → List LobOrder) → ℕ → Type 0
IsBest true best rows max =
    (best < max)
    × ((p : ℕ) → p < max → 0 < live_count (rows p) → p ≤ best)
    × ((best ≡ 0) ⊎ (0 < live_count (rows best)))
IsBest false best rows max =
    (best ≤ max)
    × ((p : ℕ) → p < max → 0 < live_count (rows p) → best ≤ p)
    × ((best ≡ max) ⊎ (0 < live_count (rows best)))

pub record IsValid (b : Book) : Type 0 where
  pub index : IsIndexed b.book b.lut b.active_counts b.max_price_possible
  pub best : IsBest b.is_buy b.best_price b.book b.max_price_possible
