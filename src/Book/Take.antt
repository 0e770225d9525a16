-- ===== src/Book/Take.antt =====
-- matching/matching.cpp on the book of header/lob_struct.h: a fill lowers the quantity of a resting
-- order, and deletes the order when nothing is left of it.
use trade_engine.Prelude.{
  ℕ, ◌≡◌, inl, inr, ap, fun_ext, none, some, set, get_elem?, decr, is_zero, arith, update,
  Bool-cases, ◌==◌, ◌&&◌, if◌then◌else◌, ok, set-set, get_elem?-set_self, get_elem?-lt,
}
use trade_engine.Structs.{LobOrder}
use trade_engine.Book.{
  Book, delete_order, delete_at, erase_at, glide_best_price, set_quantity, deref,
}
use trade_engine.Book.Inv.{IsValid}
use trade_engine.Book.Valid.{delete_at-IsValid}
use trade_engine.Book.Update.{set_quantity-IsValid}

module _ (b : Book) (v : IsValid b) (id p c : ℕ) (o : LobOrder) (at : b.lut id ≡ some (p, c))
    (here : get_elem? (b.book p) c ≡ some o) where
  abbrev emptied : Book
  emptied = set_quantity b (p, c) o 0

  erase-emptied : erase_at emptied id (p, c) (record o { quantity = 0 }) ≡ erase_at b id (p, c) o
  unfolding erase_at set_quantity
  erase-emptied =
      ap
        (λ rows. record b {
          book = rows;
          lut = update b.lut id none;
          active_counts = update b.active_counts p (decr (b.active_counts p));
        })
        (fun_ext rows)
    where
      rows :
          (q : ℕ)
          → (erase_at emptied id (p, c) (record o { quantity = 0 })).book q
            ≡ (erase_at b id (p, c) o).book q
      rows q =
          ground
            (arith, set-set (b.book p) c (record o { quantity = 0 }) (record o { quantity = 0 }))

  delete_at-emptied :
      delete_at emptied id (p, c) (record o { quantity = 0 }) ≡ delete_at b id (p, c) o
  unfolding delete_at set_quantity
  delete_at-emptied =
      ap
        (λ b'.
          if is_zero (b'.active_counts p) && p == b.best_price then glide_best_price b' else b')
        erase-emptied

  -- The deletion of an order whose quantity is already 0 is the deletion of the order.
  pub delete_order-emptied : delete_order emptied id ≡ ok (delete_at b id (p, c) o)
  unfolding delete_order deref set_quantity
  delete_order-emptied = ground (
    arith,
    at,
    delete_at-emptied,
    v.index.located id p c at,
    get_elem?-set_self (b.book p) c (record o { quantity = 0 }) (get_elem?-lt (b.book p) c here),
  )

  -- The book once `left` of the order remain.
  abbrev pub taken : ℕ → Book
  taken left = if left == 0 then delete_at b id (p, c) o else set_quantity b (p, c) o left

  pub taken-IsValid : (left : ℕ) → IsValid (taken left)
  taken-IsValid left = elim (Bool-cases (left == 0)) [
    | inl e ↦ rw e (delete_at-IsValid b v id p c o at here)
    | inr e ↦ rw e (set_quantity-IsValid b v id p c o at here left (ground arith))
  ]

  pub book-taken :
      (left q : ℕ)
      → (taken left).book q ≡ update b.book p (set (b.book p) c (record o { quantity = left })) q
  unfolding delete_at erase_at glide_best_price set_quantity
  book-taken left q = ground arith

  pub frame-taken :
      (left : ℕ)
      → ((taken left).is_buy ≡ b.is_buy) × ((taken left).max_price_possible ≡ b.max_price_possible)
  unfolding delete_at erase_at glide_best_price set_quantity
  frame-taken left = ground arith
