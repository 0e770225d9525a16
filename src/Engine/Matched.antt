-- ===== src/Engine/Matched.antt =====
-- matching/matching.cpp: what `aggresiveMatch` comes to, and the cases in which it matches nothing.
use trade_engine.Prelude.{ℕ, zero, suc, ◌-◌, ◌<◌, ◌≡◌, refl, Bool, not, List, [], arith, ok}
use mathlib.Core.Path.{subst}
use trade_engine.Structs.{LobOrder}
use trade_engine.Book.Inv.{IsBest}
use trade_engine.Engine.{Engine, own, opposite, aggressive_match}
use trade_engine.Engine.Fills.{Acked, IsFillWithin, Acked-refl, Fill}
use trade_engine.Engine.Filled.{AreFills, AreFills-none}
use trade_engine.Engine.Sweep.{IsReady, Swept, Swept-filled}

module _ (is_buy : Bool) (price : ℕ) where
  -- `aggresiveMatch` within `fuel` rounds returns the order with `left` lots and a state in which
  -- the other side is swept, still valid, and all else of the books as it was.
  pub record Matched (fuel : ℕ) (order : LobOrder) (e : Engine) : Type 0 where
    pub state : Engine
    pub left : ℕ
    pub runs : aggressive_match fuel is_buy order e ≡ ok (record order { quantity = left }, state)
    pub ready : IsReady is_buy state
    pub same_own : own is_buy state ≡ own is_buy e
    pub same_max :
        (opposite is_buy state).max_price_possible ≡ (opposite is_buy e).max_price_possible
    pub same_patience : state.patience ≡ e.patience
    pub same_broadcast : state.broadcast ≡ e.broadcast
    pub swept :
        Swept is_buy price order.quantity left
          (opposite is_buy e).max_price_possible
          (opposite is_buy e).book
          (opposite is_buy state).book
    pub fills : List Fill
    pub filled :
        AreFills is_buy price order.quantity
          (opposite is_buy e).max_price_possible
          (opposite is_buy e).book
          fills
    pub acked :
        Acked
          (IsFillWithin is_buy price (opposite is_buy e).max_price_possible)
          fills
          order
          (order.quantity - left)
          e
          state

  pub IsBest-of :
      (e : Engine)
      → IsReady is_buy e
      → let b = opposite is_buy e in IsBest (not is_buy) b.best_price b.book b.max_price_possible
  IsBest-of e ready =
      let b = opposite is_buy e in
      subst (λ s. IsBest s b.best_price b.book b.max_price_possible) ready.side ready.valid.best

  -- The order and the engine stay as they are.
  pub stays :
      (fuel : ℕ) (order : LobOrder) (e : Engine)
      → IsReady is_buy e
      → aggressive_match fuel is_buy order e ≡ ok (order, e)
      → Swept is_buy price order.quantity order.quantity
          (opposite is_buy e).max_price_possible
          (opposite is_buy e).book
          (opposite is_buy e).book
      → Matched fuel order e
  stays fuel order e ready runs swept = record {
    state = e;
    left = order.quantity;
    runs = runs;
    ready = ready;
    same_own = refl;
    same_max = refl;
    same_patience = refl;
    same_broadcast = refl;
    swept = swept;
    fills = [];
    filled = AreFills-none is_buy price order.quantity _ _ swept;
    acked =
        Acked-refl (IsFillWithin is_buy price (opposite is_buy e).max_price_possible) order e _
          (omega arith);
  }

  pub Matched-filled :
      (fuel : ℕ) (order : LobOrder) (e : Engine)
      → IsReady is_buy e
      → order.quantity ≡ 0
      → 0 < fuel
      → Matched fuel order e
  unfolding aggressive_match
  Matched-filled zero order e ready z f = absurd (omega arith)
  Matched-filled (suc fuel) order e ready z f =
      stays (suc fuel) order e ready (rw z) (Swept-filled is_buy price _ _ order.quantity z)
