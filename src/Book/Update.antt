-- ===== src/Book/Update.antt =====
-- header/lob_struct.h: `UpdateOrderQuantity`. A smaller quantity keeps the place of the order, a
-- larger one takes a new place at the end of the row.
use trade_engine.Prelude.{
  ℕ, zero, suc, ◌<◌, ◌≡◌, refl, sym, fun_ext, none, some, List, [], ◌∷◌, ◌++◌, length, set,
  get_elem?, ℤ, pos, negsuc, incr, decr, arith, update, ◌==◌, if◌then◌else◌, ok, ltb,
}
use mathlib.Core.Path.{subst₃}
use trade_engine.Structs.{LobOrder}
use trade_engine.Book.{Book, deref, requeue, set_quantity, update_order_quantity}
use trade_engine.Book.Rows.{live_count, live_count-append}
use trade_engine.Book.Inv.{Resting, IsIndexed, IsValid}
use trade_engine.Book.Append.{append-IsIndexed}
use trade_engine.Book.Index.{zero-IsIndexed, resize-IsIndexed, live_count-resize, live_count-zero}
use trade_engine.Book.Best.{IsBest-cong}

incr-decr : (z : ℤ) → incr (decr z) ≡ z
incr-decr (pos zero) = refl
incr-decr (pos (suc n)) = refl
incr-decr (negsuc n) = refl

module _ (b : Book) (v : IsValid b) (id p c : ℕ) (old : LobOrder) (at : b.lut id ≡ some (p, c))
    (here : get_elem? (b.book p) c ≡ some old) where
  pub set_quantity-IsValid : (n : ℕ) → 0 < n → IsValid (set_quantity b (p, c) old n)
  unfolding set_quantity
  set_quantity-IsValid n h = record {
    index =
        resize-IsIndexed b.book b.lut b.active_counts b.max_price_possible v.index id p c old at
          here n h;
    best =
        IsBest-cong b.is_buy b.best_price b.max_price_possible b.book _
          (live_count-resize b.book b.lut b.active_counts b.max_price_possible v.index id p c old at
            here n h)
          v.best;
  }

  module _ (o : LobOrder) (same : o.system_id ≡ id) (positive : 0 < o.quantity) where
    emptied : List LobOrder
    emptied = set (b.book p) c (record old { quantity = 0 })

    requeue_rows :
        (p' : ℕ)
        → (requeue b (p, c) old o).book p'
          ≡ update (update b.book p emptied) p (update b.book p emptied p ++ o ∷ []) p'
    unfolding requeue emptied
    requeue_rows p' = ground arith

    live_count-requeue :
        (p' : ℕ) → live_count ((requeue b (p, c) old o).book p') ≡ live_count (b.book p')
    unfolding requeue
    live_count-requeue p' = ground (
      arith,
      live_count-zero b.book b.lut b.active_counts b.max_price_possible v.index id p c old at here
          p',
      live_count-append (set (b.book p) c (record old { quantity = 0 })) (o ∷ []),
    )

    requeue_lut :
        (j : ℕ)
        → update (update b.lut id none) o.system_id (some (p, length (update b.book p emptied p))) j
          ≡ (requeue b (p, c) old o).lut j
    unfolding requeue emptied
    requeue_lut j = ground (arith, same)

    requeue_counts :
        (j : ℕ)
        → update
            (update b.active_counts p (decr (b.active_counts p)))
            p
            (incr (update b.active_counts p (decr (b.active_counts p)) p))
            j
          ≡ b.active_counts j
    requeue_counts j = ground (arith, incr-decr (b.active_counts p))

    pub requeue-IsIndexed :
        let b' = requeue b (p, c) old o in
        IsIndexed b'.book b'.lut b.active_counts b.max_price_possible
    unfolding emptied
    requeue-IsIndexed =
        subst₃ (λ rows lut counts. IsIndexed rows lut counts b.max_price_possible)
          (fun_ext (λ j. sym (requeue_rows j))) (fun_ext requeue_lut) (fun_ext requeue_counts)
          (append-IsIndexed _ _ _ b.max_price_possible
            (zero-IsIndexed b.book b.lut b.active_counts b.max_price_possible v.index id p c old at
              here)
            o p (ground (arith, same)) (rw same resting.id_in) resting.price_in positive)
      where
        resting : Resting b.book b.max_price_possible id p c
        resting = v.index.located id p c at

    pub requeue-IsValid : IsValid (requeue b (p, c) old o)
    unfolding requeue
    requeue-IsValid = record {
      index = requeue-IsIndexed;
      best =
          IsBest-cong b.is_buy b.best_price b.max_price_possible b.book _ live_count-requeue v.best;
    }

-- What `UpdateOrderQuantity` does to the order that rests under the id.
module _ (b : Book) (v : IsValid b) (o : LobOrder) (p c : ℕ) (old : LobOrder)
    (at : b.lut o.system_id ≡ some (p, c)) (here : get_elem? (b.book p) c ≡ some old) where
  pub update_order_quantity_ok :
      update_order_quantity b o
      ≡ ok (
          if o.quantity == old.quantity
          then b
          else (if ltb o.quantity old.quantity
              then set_quantity b (p, c) old o.quantity
              else requeue b (p, c) old o))
  unfolding update_order_quantity deref
  update_order_quantity_ok = ground (arith, at, here, v.index.located o.system_id p c at)
