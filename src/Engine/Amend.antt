-- ===== src/Engine/Amend.antt =====
-- matching/matching.cpp: what `updateOrder` promises, by the order that it finds.
use trade_engine.Prelude.{ℕ, ◌<◌, ◌≡◌, ◌≢◌, Bool, false, none, some, [], ◌∷◌, ◌++◌, arith, ok, ◌==◌}
use trade_engine.Structs.{LobOrder}
use trade_engine.Price.{tick, float_ne}
use trade_engine.Book.{deref, peek_order}
use trade_engine.Book.Levels.{level}
use trade_engine.Book.Spec.{updated_level}
use trade_engine.Engine.{Engine, own, opposite, change_of, side_char}
use trade_engine.Engine.Running.{IsRunning}
use trade_engine.Engine.Delete.{old}
use trade_engine.Engine.Handlers.{update_order}
use trade_engine.Engine.Update.{IsChange, shows, update_order_old, update_order_resized}

-- An unknown id.
pub update_order_missing :
    (is_buy : Bool) (fuel : ℕ) (order : LobOrder) (e : Engine)
    → peek_order (own is_buy e) order.system_id ≡ none
    → update_order fuel is_buy order e ≡ ok (0, order, e)
unfolding update_order
update_order_missing is_buy fuel order e h = rw (update_order, h)

-- On a sound engine whose broadcast queue is drained, with more rounds for matching than there are
-- prices, `updateOrder` of an order in the book returns, whatever changes of its price and
-- quantity, if the new quantity is not zero and both prices have ticks, the new one of the book
-- (and for a buy order not its first). The engine is sound again.
pub update_order-IsRunning :
    (is_buy : Bool) (max p c p' was fuel : ℕ) (order previous : LobOrder) (e : Engine)
    → IsRunning max e
    → peek_order (own is_buy e) order.system_id ≡ some (p, c)
    → deref (own is_buy e) (p, c) ≡ some previous
    → tick previous.price ≡ some was
    → IsChange is_buy max p' order
    → max < fuel
    → (t : ℕ) × (order' : LobOrder) × (e' : Engine) × (update_order fuel is_buy order e
        ≡ ok (t, order', e'))
      × IsRunning max e'
unfolding peek_order
update_order-IsRunning is_buy max p c p' was fuel order previous e r peeked shown priced change
      enough =
    let at : (own is_buy e).lut order.system_id ≡ some (p, c) = ground arith in
    let old = old is_buy max p c order.system_id e r at in
    let same : previous ≡ old.order = cc (shown, shows is_buy max p c order.system_id e r at) in
    update_order_old is_buy max p c p' was fuel order e r at change (rw same at priced) enough

-- On a sound engine whose broadcast queue is drained, `updateOrder` of an order in the book, with
-- the same price, which has a tick of the book that for a buy order is not 0, and another quantity
-- that is not zero, returns; the engine is sound again, the
-- queue at the order's price is that of the book's update, all others of both sides stay, and the
-- update is broadcast.
pub update_order-levels :
    (is_buy : Bool) (max p c p' fuel : ℕ) (order previous : LobOrder) (e : Engine)
    → IsRunning max e
    → peek_order (own is_buy e) order.system_id ≡ some (p, c)
    → deref (own is_buy e) (p, c) ≡ some previous
    → IsChange is_buy max p' order
    → float_ne order.price previous.price ≡ false
    → order.quantity ≢ previous.quantity
    → (t : ℕ) × (e' : Engine) × (update_order fuel is_buy order e ≡ ok (t, order, e'))
      × IsRunning max e'
      × (opposite is_buy e' ≡ opposite is_buy e)
      × ((q : ℕ)
          → q < max
          → level (own is_buy e') q
            ≡ updated_level order p previous.quantity q (level (own is_buy e) q))
      × (e'.broadcast.sent ≡ e.broadcast.sent ++ change_of order b'U' (side_char is_buy) ∷ [])
unfolding peek_order
update_order-levels is_buy max p c p' fuel order previous e r peeked shown change same_price
      differs =
    let at : (own is_buy e).lut order.system_id ≡ some (p, c) = ground arith in
    let old = old is_buy max p c order.system_id e r at in
    let same : previous ≡ old.order = cc (shown, shows is_buy max p c order.system_id e r at) in
    rw same (
      update_order_resized is_buy max p c p' 0 fuel order e r at change (rw same at same_price)
        (rw same at (different differs)))
  where
    different : order.quantity ≢ previous.quantity → (order.quantity == previous.quantity) ≡ false
    different n = ground arith
