-- ===== src/Book/Valid.antt =====
-- header/lob_struct.h: the constructor and the three operations keep the invariant.
use trade_engine.Prelude.{
  ℕ, ◌+◌, ◌<◌, ◌≡◌, ◌≢◌, ◌⊎◌, inl, inr, refl, Bool, true, false, none, some, [], ◌∷◌, get_elem?,
  is_zero, arith, Bool-cases, ◌==◌, ◌&&◌, if◌then◌else◌, lt→ltb, ok,
}
use trade_engine.Structs.{LobOrder}
use trade_engine.Price.{tick}
use trade_engine.Book.{
  Book, lut_size, init, deref, create_at, create_order, erase_at, delete_at, delete_order,
  glide_best_price,
}
use trade_engine.Book.Rows.{live_count, live_count-append}
use trade_engine.Book.Inv.{IsIndexed, IsBest, IsValid}
use trade_engine.Book.Append.{append-IsIndexed}
use trade_engine.Book.Index.{zero-IsIndexed, live_count-zero}
use trade_engine.Book.Best.{improve-IsBest, keep-IsBest, glide-IsBest}

pub init-IsValid : (is_buy : Bool) (max : ℕ) → 0 < max → IsValid (init is_buy max)
unfolding init
init-IsValid is_buy max h = record {
  index = record {
    located = λ id p c e. ground arith;
    indexed = λ p c o k e. ground arith;
    counted = λ p k. refl;
  };
  best = best is_buy;
}
  where
    best : (b : Bool) → IsBest b (if b then 0 else max) (λ _. []) max
    best true = (h, (λ p k l. omega arith), inl refl)
    best false = (omega arith, (λ p k l. absurd (omega arith)), inl refl)

-- An order that may be put in the book: its id is in range and not in use, its price has a row,
-- and its quantity is not zero.
pub record IsNew (b : Book) (o : LobOrder) (p : ℕ) : Type 0 where
  pub fresh : b.lut o.system_id ≡ none
  pub id_in : o.system_id < lut_size
  pub priced : tick o.price ≡ some p
  pub price_in : p < b.max_price_possible
  pub positive : 0 < o.quantity

module _ (b : Book) (v : IsValid b) where
  pub create_at-IsValid : (o : LobOrder) (p : ℕ) → IsNew b o p → IsValid (create_at b o p)
  unfolding create_at
  create_at-IsValid o p n = record {
    index =
        append-IsIndexed b.book b.lut b.active_counts b.max_price_possible v.index o p n.fresh
          n.id_in n.price_in n.positive;
    best =
        improve-IsBest b.best_price b.max_price_possible p b.book _ n.price_in
          (λ p' k. ground arith) b.is_buy
          (ground (arith, n.positive, live_count-append (b.book p) (o ∷ []))) v.best;
  }

  pub create_order_ok :
      (o : LobOrder) (p : ℕ) → IsNew b o p → create_order b o ≡ ok (create_at b o p)
  unfolding create_order
  create_order_ok o p n =
      rw (n.priced, lt→ltb p b.max_price_possible n.price_in, lt→ltb o.system_id lut_size n.id_in)

  pub frame-create_at :
      (o : LobOrder) (p : ℕ)
      → let b' = create_at b o p in
        (b'.is_buy ≡ b.is_buy)
        × (b'.max_price_possible ≡ b.max_price_possible)
        × ((q : ℕ) → p ≢ q → b'.book q ≡ b.book q)
  unfolding create_at
  frame-create_at o p = (refl, refl, λ q n. ground arith)

  module _ (id p c : ℕ) (o : LobOrder) (at : b.lut id ≡ some (p, c))
      (here : get_elem? (b.book p) c ≡ some o) where
    erase_at-IsIndexed :
        let b' = erase_at b id (p, c) o in
        IsIndexed b'.book b'.lut b'.active_counts b.max_price_possible
    unfolding erase_at
    erase_at-IsIndexed =
        zero-IsIndexed b.book b.lut b.active_counts b.max_price_possible v.index id p c o at here

    fewer :
        (p' : ℕ)
        → live_count ((erase_at b id (p, c) o).book p') + (if p == p' then 1 else 0)
          ≡ live_count (b.book p')
    unfolding erase_at
    fewer =
        live_count-zero b.book b.lut b.active_counts b.max_price_possible v.index id p c o at here

    price_in : p < b.max_price_possible
    price_in = (v.index.located id p c at).price_in

    delete_at-IsValid_glide : p ≡ b.best_price → IsValid (glide_best_price (erase_at b id (p, c) o))
    unfolding glide_best_price erase_at
    delete_at-IsValid_glide e = record {
      index = erase_at-IsIndexed;
      best =
          glide-IsBest b.best_price b.max_price_possible p b.book _ price_in
            (λ p' k. ground (arith, fewer p')) _ erase_at-IsIndexed.counted b.is_buy
            (ground (arith, fewer p)) e v.best;
    }

    delete_at-IsValid_keep :
        (p ≢ b.best_price) ⊎ (0 < live_count ((erase_at b id (p, c) o).book p))
        → IsValid (erase_at b id (p, c) o)
    unfolding erase_at
    delete_at-IsValid_keep e = record {
      index = erase_at-IsIndexed;
      best =
          keep-IsBest b.best_price b.max_price_possible p b.book _ price_in
            (λ p' k. ground (arith, fewer p')) b.is_buy (ground (arith, fewer p)) e v.best;
    }

    pub delete_at-IsValid : IsValid (delete_at b id (p, c) o)
    unfolding delete_at
    delete_at-IsValid =
        elim (Bool-cases
          (is_zero ((erase_at b id (p, c) o).active_counts p) && p == b.best_price)) [
            | inl e ↦ rw e (delete_at-IsValid_glide (ground arith))
            | inr e ↦
                rw e
                  (delete_at-IsValid_keep (ground (arith, erase_at-IsIndexed.counted p price_in)))
          ]

    pub delete_order_ok : delete_order b id ≡ ok (delete_at b id (p, c) o)
    unfolding delete_order deref
    delete_order_ok = ground (arith, at, here, v.index.located id p c at)
