-- ===== src/Engine/Round.antt =====
-- matching/matching.cpp: one round of the `for` loops of `aggresiveMatch`, at a live entry.
use trade_engine.Prelude.{
  ℕ, ◌-◌, ◌<◌, ◌≡◌, refl, ◌∙◌, Bool, some, List, [], ◌∷◌, ◌++◌, length, set, get_elem?, update_self,
  update_ne, ◌==◌, if◌then◌else◌, ok, ltb, get_elem?-middle, set-middle,
}
use trade_engine.Structs.{LobOrder}
use trade_engine.Book.{Book}
use trade_engine.Book.Inv.{IsValid}
use trade_engine.Book.Take.{taken, taken-IsValid, book-taken, frame-taken}
use trade_engine.Engine.{Engine, opposite, trade_entry}
use trade_engine.Engine.Fills.{Acked, IsFillAt}
use trade_engine.Engine.Trade.{
  Frame, trade_entry-live, filled, opposite-filled, own-filled, patience-filled, broadcast-filled,
  Acked-filled,
}

-- What one round does at a live entry `x` behind `before` and ahead of `behind`.
pub record Round (is_buy : Bool) (p : ℕ) (order x : LobOrder) (before behind : List LobOrder)
    (e : Engine) : Type 0 where
  pub state : Engine
  pub runs :
      let trade = if ltb x.quantity order.quantity then x.quantity else order.quantity in
      trade_entry is_buy p (length before) order e
      ≡ ok (order.quantity - trade == 0, record order { quantity = order.quantity - trade }, state)
  pub valid : IsValid (opposite is_buy state)
  pub frame : Frame is_buy p e state
  pub row :
      let trade = if ltb x.quantity order.quantity then x.quantity else order.quantity in
      (opposite is_buy state).book p ≡ before ++ record x { quantity = x.quantity - trade } ∷ behind
  pub acked :
      let trade = if ltb x.quantity order.quantity then x.quantity else order.quantity in
      0 < trade
      → Acked
          (IsFillAt p)
          (record { price = p; resting = x; lots = trade } ∷ [])
          order
          trade
          e
          state

module _ (is_buy : Bool) (p : ℕ) where
  pub round :
      (order x : LobOrder) (before behind : List LobOrder) (e : Engine)
      → IsValid (opposite is_buy e)
      → p < (opposite is_buy e).max_price_possible
      → (opposite is_buy e).book p ≡ before ++ x ∷ behind
      → 0 < x.quantity
      → Round is_buy p order x before behind e
  round order x before behind e v h row positive = record {
    state = state;
    runs = trade_entry-live p c order x trade is_buy e v h here positive refl;
    valid = rw opposite_lem (taken-IsValid b v id p c x at here left);
    frame = record {
      same_own = own-filled p c trade left order x (taken b v id p c x at here left) is_buy e;
      same_side = rw opposite_lem (frame-taken b v id p c x at here left).0;
      same_max = rw opposite_lem (frame-taken b v id p c x at here left).1;
      elsewhere = λ q n.
          rw opposite_lem (book-taken b v id p c x at here left q ∙ update_ne b.book p q _ n);
      same_patience =
          patience-filled p c trade left order x (taken b v id p c x at here left) is_buy e;
      same_broadcast =
          broadcast-filled p c trade left order x (taken b v id p c x at here left) is_buy e;
    };
    row =
        rw opposite_lem (book-taken b v id p c x at here left p ∙ update_self b.book p _ ∙ changed);
    acked = λ h. Acked-filled p c trade left order x (taken b v id p c x at here left) is_buy e h;
  }
    where
      b : Book
      b = opposite is_buy e

      c : ℕ
      c = length before

      id : ℕ
      id = x.system_id

      trade : ℕ
      trade = if ltb x.quantity order.quantity then x.quantity else order.quantity

      left : ℕ
      left = x.quantity - trade

      here : get_elem? (b.book p) c ≡ some x
      here = rw row (get_elem?-middle before behind x)

      at : b.lut id ≡ some (p, c)
      at = v.index.indexed p c x h here positive

      changed :
          set (b.book p) c (record x { quantity = left })
          ≡ before ++ record x { quantity = left } ∷ behind
      changed = rw row (set-middle before behind x (record x { quantity = left }))

      state : Engine
      state = filled is_buy p c trade left order x (taken b v id p c x at here left) e

      opposite_lem : opposite is_buy state ≡ taken b v id p c x at here left
      opposite_lem =
          opposite-filled p c trade left order x (taken b v id p c x at here left) is_buy e
