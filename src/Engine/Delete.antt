-- ===== src/Engine/Delete.antt =====
-- matching/matching.cpp: `deleteOrder`, of an order that the caller holds and of one in the book.
use trade_engine.Prelude.{
  ℕ, ◌<◌, ◌≡◌, refl, ◌∙◌, ap, Bool, some, [], ◌∷◌, ◌++◌, get_elem?, get_elem?-set_self,
  get_elem?-lt, arith, ok, ◌>>=◌, lt→ltb,
}
use trade_engine.Structs.{LobOrder, lob_delete_order}
use trade_engine.Price.{tick}
use trade_engine.Book.{Book, delete_at, erase_at, deref, glide_best_price}
use trade_engine.Book.Inv.{Resting}
use trade_engine.Book.Valid.{delete_at-IsValid, delete_order_ok}
use trade_engine.Book.Levels.{level, without}
use trade_engine.Book.Spec.{delete_at-level}
use trade_engine.Engine.{
  Engine, own, opposite, set_own, now_cycle, cycle_passed, change_of, side_char,
}
use trade_engine.Engine.Sound.{IsSound, IsSoundFor, sound_for}
use trade_engine.Engine.Own.{
  own-set_own, opposite-set_own, own-cong, opposite-cong, broadcast-set_own,
}
use trade_engine.Engine.Kept.{kept-IsSound, delete_at-IsKept}
use trade_engine.Engine.Running.{IsRunning, IsRunning-cycle, Told, report_change-Told}
use trade_engine.Engine.Handlers.{OrderRef, local, entry, read_ref, delete_order}

deref-delete_at :
    (b : Book) (id p c : ℕ) (o : LobOrder)
    → p < b.max_price_possible
    → get_elem? (b.book p) c ≡ some o
    → deref (delete_at b id (p, c) o) (p, c) ≡ some (record o { quantity = 0 })
unfolding deref delete_at erase_at glide_best_price
deref-delete_at b id p c o h here = ground (
  arith,
  get_elem?-set_self (b.book p) c (record o { quantity = 0 }) (get_elem?-lt (b.book p) c here),
)

module _ (is_buy : Bool) (max p c id : ℕ) (e : Engine) (r : IsRunning max e)
    (at : (own is_buy e).lut id ≡ some (p, c)) where
  abbrev s : IsSoundFor is_buy max (own is_buy e) (opposite is_buy e)
  s = sound_for is_buy max e r.sound

  abbrev pub old : Resting (own is_buy e).book (own is_buy e).max_price_possible id p c
  old = s.valid.index.located id p c at

  abbrev pub book' : Book
  book' = delete_at (own is_buy e) id (p, c) old.order

  pub deleted-IsSound : IsSound max (set_own is_buy book' e)
  deleted-IsSound =
      kept-IsSound is_buy max p c old.order book' e r.sound old.here
        (delete_at-IsValid (own is_buy e) s.valid id p c old.order at old.here)
        (delete_at-IsKept (own is_buy e) s.valid id p c old.order at old.here)

  -- The deletion through a reference that shows `order'` afterwards.
  pub delete_order_lem :
      (ref : OrderRef) (order order' : LobOrder) (p' : ℕ)
      → read_ref is_buy ref e ≡ some order
      → order.system_id ≡ id
      → read_ref is_buy ref (set_own is_buy book' e) ≡ some order'
      → tick order'.price ≡ some p'
      → (e' : Engine) × (delete_order is_buy ref e ≡ ok (now_cycle e', cycle_passed e'))
        × Told lob_delete_order b'D' is_buy order' book' e e'
        × IsRunning max e'
  unfolding delete_order
  delete_order_lem ref order order' p' before same after priced =
      let (e', told, running) =
        report_change-Told lob_delete_order b'D' is_buy max p' order' book' e r priced
          deleted-IsSound in
      (
        e',
        rw (
          before,
          same,
          delete_order_ok (own is_buy e) s.valid id p c old.order at old.here,
          ◌>>=◌,
          after,
          told.runs,
        ),
        told,
        running,
      )

-- On a sound engine whose broadcast queue is drained, `deleteOrder` of an order in the book, by a
-- request that names its id and whose price has a tick, returns; the engine is sound again. The
-- order is out of its queue, the others of its side keep their places, the other side is as it
-- was, and the deletion has been broadcast.
pub delete_order-IsRunning :
    (is_buy : Bool) (max p c p' : ℕ) (order : LobOrder) (e : Engine)
    → IsRunning max e
    → (own is_buy e).lut order.system_id ≡ some (p, c)
    → tick order.price ≡ some p'
    → (t : ℕ) × (e' : Engine) × (delete_order is_buy (local order) e ≡ ok (t, e'))
      × IsRunning max e'
      × (opposite is_buy e' ≡ opposite is_buy e)
      × ((q : ℕ)
          → q < max
          → level (own is_buy e') q ≡ without order.system_id (level (own is_buy e) q))
      × (e'.broadcast.sent ≡ e.broadcast.sent ++ change_of order b'D' (side_char is_buy) ∷ [])
unfolding read_ref
delete_order-IsRunning is_buy max p c p' order e r at priced =
    let (e', runs, told, running) =
      delete_order_lem is_buy max p c order.system_id e r at (local order) order order p' refl refl
        refl priced in
    let b = book' is_buy max p c order.system_id e r at in
    let m = told.reported in
    let s = sound_for is_buy max e r.sound in
    (
      now_cycle e',
      cycle_passed e',
      runs,
      IsRunning-cycle max e' running,
      opposite-cong is_buy (cycle_passed e') (set_own is_buy b e) m.same_buys m.same_sells
          ∙ opposite-set_own is_buy b e,
      λ q h.
          rw
            (
              own-cong is_buy (cycle_passed e') (set_own is_buy b e) m.same_buys m.same_sells,
              own-set_own is_buy b e,
            )
            (delete_at-level (own is_buy e) s.valid order.system_id p c at q (rw s.own_max h)),
      m.published
          ∙ ap (λ o. o.sent ++ change_of order b'D' (side_char is_buy) ∷ [])
              (broadcast-set_own is_buy b e),
    )

-- The same through a pointer to the order in the book, which then shows a quantity of 0.
pub delete_entry-IsRunning :
    (is_buy : Bool) (max p c p' id : ℕ) (e : Engine)
    → (r : IsRunning max e) → (at : (own is_buy e).lut id ≡ some (p, c))
    → tick (old is_buy max p c id e r at).order.price ≡ some p'
    → (t : ℕ) × (e' : Engine) × (delete_order is_buy (entry (p, c)) e ≡ ok (t, e'))
      × IsRunning max e'
      × (own is_buy e' ≡ book' is_buy max p c id e r at)
      × (opposite is_buy e' ≡ opposite is_buy e)
unfolding read_ref deref
delete_entry-IsRunning is_buy max p c p' id e r at priced =
    let old = old is_buy max p c id e r at in
    let b = book' is_buy max p c id e r at in
    let (e', runs, told, running) =
      delete_order_lem is_buy max p c id e r at (entry (p, c)) old.order
        (record old.order { quantity = 0 }) p' (rw (lt→ltb _ _ old.price_in) old.here) old.same_id
        (rw (own-set_own is_buy b e) shows) priced in
    let m = told.reported in
    (
      now_cycle e',
      cycle_passed e',
      runs,
      IsRunning-cycle max e' running,
      own-cong is_buy (cycle_passed e') (set_own is_buy b e) m.same_buys m.same_sells
          ∙ own-set_own is_buy b e,
      opposite-cong is_buy (cycle_passed e') (set_own is_buy b e) m.same_buys m.same_sells
          ∙ opposite-set_own is_buy b e,
    )
  where
    shows :
        deref (book' is_buy max p c id e r at) (p, c)
        ≡ some (record (old is_buy max p c id e r at).order { quantity = 0 })
    shows =
        deref-delete_at (own is_buy e) id p c _ (old is_buy max p c id e r at).price_in
          (old is_buy max p c id e r at).here
