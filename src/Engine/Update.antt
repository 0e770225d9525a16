-- ===== src/Engine/Update.antt =====
-- matching/matching.cpp: `updateOrder`.
use trade_engine.Prelude.{
  ℕ, ◌<◌, ◌≡◌, refl, sym, ◌∙◌, ap, Bool, true, false, some, [], ◌∷◌, ◌++◌, arith, ok, ◌>>=◌, ltb,
  lt→ltb, lt→leb, ◌==◌, if◌then◌else◌, Bool-cases, inl, inr,
}
use trade_engine.Structs.{LobOrder, lob_update_quantity}
use trade_engine.Price.{tick, float_ne}
use trade_engine.Book.{
  Book, delete_at, erase_at, deref, glide_best_price, set_quantity, requeue, update_order_quantity,
  peek_order,
}
use trade_engine.Book.Inv.{Resting}
use trade_engine.Book.Valid.{IsNew}
use trade_engine.Book.Update.{set_quantity-IsValid, requeue-IsValid, update_order_quantity_ok}
use trade_engine.Book.Levels.{level}
use trade_engine.Book.Spec.{updated_level, update_order_quantity-levels}
use trade_engine.Engine.{
  Engine, own, opposite, set_own, now_cycle, cycle_passed, change_of, side_char,
}
use trade_engine.Engine.Sound.{IsSound, IsSoundFor, sound_for}
use trade_engine.Engine.Own.{
  own-set_own, opposite-set_own, own-cong, opposite-cong, broadcast-set_own,
}
use trade_engine.Engine.Kept.{kept-IsSound, set_quantity-IsKept, requeue-IsKept}
use trade_engine.Engine.Running.{
  IsRunning, IsRunning-cycle, Told, report_change-Told, create_order-IsRunning,
}
use trade_engine.Engine.Delete.{old, book', delete_entry-IsRunning}
use trade_engine.Engine.Handlers.{finish, update_order}

-- What an update may ask of the order that rests under its id: a quantity, and a price with a
-- tick of the book, of which a buy order may not have the first.
pub record IsChange (is_buy : Bool) (max p' : ℕ) (order : LobOrder) : Type 0 where
  pub priced : tick order.price ≡ some p'
  pub price_in : p' < max
  pub above : is_buy ≡ true → 0 < p'
  pub positive : 0 < order.quantity

pub shows :
    (is_buy : Bool) (max p c id : ℕ) (e : Engine) (r : IsRunning max e)
    (at : (own is_buy e).lut id ≡ some (p, c))
    → deref (own is_buy e) (p, c) ≡ some (old is_buy max p c id e r at).order
unfolding deref
shows is_buy max p c id e r at =
    let old = old is_buy max p c id e r at in rw (lt→ltb _ _ old.price_in) old.here

module _ (is_buy : Bool) (max p c p' was fuel : ℕ) (order : LobOrder) (e : Engine)
    (r : IsRunning max e) (at : (own is_buy e).lut order.system_id ≡ some (p, c))
    (change : IsChange is_buy max p' order) where
  abbrev s : IsSoundFor is_buy max (own is_buy e) (opposite is_buy e)
  s = sound_for is_buy max e r.sound

  abbrev previous :
      Resting (own is_buy e).book (own is_buy e).max_price_possible order.system_id p c
  previous = old is_buy max p c order.system_id e r at

  peeked : peek_order (own is_buy e) order.system_id ≡ some (p, c)
  unfolding peek_order
  peeked = rw (lt→leb _ _ previous.id_in) at

  shown : deref (own is_buy e) (p, c) ≡ some previous.order
  shown = shows is_buy max p c order.system_id e r at

  again-IsNew : IsNew (book' is_buy max p c order.system_id e r at) order p'
  unfolding delete_at erase_at glide_best_price
  again-IsNew = record {
    fresh = ground arith;
    id_in = previous.id_in;
    priced = change.priced;
    price_in = ground (arith, s.own_max, change.price_in);
    positive = change.positive;
  }

  -- Another price: the old order is deleted and the new one is created.
  update_order_price :
      tick previous.order.price ≡ some was
      → max < fuel
      → float_ne order.price previous.order.price ≡ true
      → (t : ℕ) × (order' : LobOrder) × (e' : Engine) × (update_order fuel is_buy order e
          ≡ ok (t, order', e'))
        × IsRunning max e'
  unfolding update_order
  update_order_price priced enough differs =
      let (t, e₁, deleted, r₁, mine, other) =
        delete_entry-IsRunning is_buy max p c was order.system_id e r at priced in
      let new : IsNew (own is_buy e₁) order p' = rw mine again-IsNew in
      let (u, order', e₂, created, r₂) =
        create_order-IsRunning is_buy max p' fuel order e₁ r₁ new change.above enough in
      (
        now_cycle e₂,
        order',
        cycle_passed e₂,
        rw (update_order, peeked, ◌>>=◌, shown, differs, deleted, created),
        IsRunning-cycle max e₂ r₂,
      )

  -- The same price: the book takes the new quantity.
  abbrev book'' : Book
  book'' =
      if ltb order.quantity previous.order.quantity
      then set_quantity (own is_buy e) (p, c) previous.order order.quantity
      else requeue (own is_buy e) (p, c) previous.order order

  resized-IsSound : IsSound max (set_own is_buy book'' e)
  resized-IsSound = elim (Bool-cases (ltb order.quantity previous.order.quantity)) [
    | inl smaller ↦ rw smaller (
        kept-IsSound is_buy max p c previous.order _ e r.sound previous.here
          (set_quantity-IsValid (own is_buy e) s.valid order.system_id p c previous.order at
            previous.here order.quantity change.positive)
          (set_quantity-IsKept (own is_buy e) s.valid order.system_id p c previous.order at
            previous.here order.quantity))
    | inr larger ↦ rw larger (
        kept-IsSound is_buy max p c previous.order _ e r.sound previous.here
          (requeue-IsValid (own is_buy e) s.valid order.system_id p c previous.order at
            previous.here order refl change.positive)
          (requeue-IsKept (own is_buy e) s.valid order.system_id p c previous.order at previous.here
            order))
  ]

  -- The same price, another quantity.
  update_order_resize :
      float_ne order.price previous.order.price ≡ false
      → (order.quantity == previous.order.quantity) ≡ false
      → (e' : Engine) × (update_order fuel is_buy order e
          ≡ ok (now_cycle e', order, cycle_passed e'))
        × Told lob_update_quantity b'U' is_buy order book'' e e'
        × IsRunning max e'
  unfolding update_order
  update_order_resize same differs =
      let (e', told, running) =
        report_change-Told lob_update_quantity b'U' is_buy max p' order book'' e r change.priced
          resized-IsSound in
      (
        e',
        rw (
          update_order,
          peeked,
          ◌>>=◌,
          shown,
          same,
          differs,
          update_order_quantity_ok (own is_buy e) s.valid order p c previous.order at previous.here,
          differs,
          told.runs,
        ),
        told,
        running,
      )

  -- Neither changes anything.
  update_order_same :
      float_ne order.price previous.order.price ≡ false
      → (order.quantity == previous.order.quantity) ≡ true
      → update_order fuel is_buy order e ≡ ok (finish order e)
  unfolding update_order
  update_order_same same equal = rw (update_order, peeked, ◌>>=◌, shown, same, equal)

  -- The three cases.
  pub update_order_old :
      tick previous.order.price ≡ some was
      → max < fuel
      → (t : ℕ) × (order' : LobOrder) × (e' : Engine) × (update_order fuel is_buy order e
          ≡ ok (t, order', e'))
        × IsRunning max e'
  update_order_old priced enough = elim (Bool-cases (float_ne order.price previous.order.price)) [
    | inl differs ↦ update_order_price priced enough differs
    | inr same ↦ elim (Bool-cases (order.quantity == previous.order.quantity)) [
      | inl equal ↦ (
        now_cycle e,
        order,
        cycle_passed e,
        update_order_same same equal,
        IsRunning-cycle max e r,
      )
      | inr differs ↦
          let (e', runs, told, running) = update_order_resize same differs in
          (now_cycle e', order, cycle_passed e', runs, IsRunning-cycle max e' running)
    ]
  ]

  pub update_order_resized :
      float_ne order.price previous.order.price ≡ false
      → (order.quantity == previous.order.quantity) ≡ false
      → (t : ℕ) × (e' : Engine) × (update_order fuel is_buy order e ≡ ok (t, order, e'))
        × IsRunning max e'
        × (opposite is_buy e' ≡ opposite is_buy e)
        × ((q : ℕ)
            → q < max
            → level (own is_buy e') q
              ≡ updated_level order p previous.order.quantity q (level (own is_buy e) q))
        × (e'.broadcast.sent ≡ e.broadcast.sent ++ change_of order b'U' (side_char is_buy) ∷ [])
  update_order_resized same differs =
      let (e', runs, told, running) = update_order_resize same differs in
      let m = told.reported in
      (
        now_cycle e',
        cycle_passed e',
        runs,
        IsRunning-cycle max e' running,
        opposite-cong is_buy (cycle_passed e') (set_own is_buy book'' e) m.same_buys m.same_sells
            ∙ opposite-set_own is_buy book'' e,
        λ q h.
            rw
              (
                own-cong is_buy (cycle_passed e') (set_own is_buy book'' e) m.same_buys
                    m.same_sells,
                own-set_own is_buy book'' e,
              )
              (levels q (rw s.own_max h)),
        m.published
            ∙ ap (λ o. o.sent ++ change_of order b'U' (side_char is_buy) ∷ [])
                (broadcast-set_own is_buy book'' e),
      )
    where
      levels :
          (q : ℕ)
          → q < (own is_buy e).max_price_possible
          → level book'' q
            ≡ updated_level order p previous.order.quantity q (level (own is_buy e) q)
      levels q h =
          let (b, runs, valid, queues) =
            update_order_quantity-levels (own is_buy e) s.valid order p c at change.positive in
          let updated : update_order_quantity (own is_buy e) order ≡ ok book'' =
            update_order_quantity_ok (own is_buy e) s.valid order p c previous.order at
              previous.here
            ∙ rw differs refl in
          let same_book : b ≡ book'' = cc (runs, updated) in
          ap (λ x. level x q) (sym same_book) ∙ queues q h
