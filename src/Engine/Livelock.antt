-- ===== src/Engine/Livelock.antt =====
-- matching/matching.cpp: when the `while` loop of `aggresiveMatch` does not end.
use trade_engine.Prelude.{
  ℕ, zero, suc, ◌<◌, ◌≡◌, ◌≢◌, refl, sym, ◌∙◌, Bool, false, some, List, [], ◌∷◌, ◌++◌, length,
  arith, List-cases, ◌==◌, lt→leb, ok, waiting, ◌>>=◌, append_assoc, length-append,
  get_elem?-middle, inl, inr,
}
use trade_engine.Structs.{LobOrder}
use trade_engine.Price.{tick}
use trade_engine.Book
use trade_engine.Book.Rows.{live}
use trade_engine.Engine.{Engine, opposite, beyond, trade_row, aggressive_match}
use trade_engine.Engine.Trade.{trade_entry-dead}

module _ (is_buy : Bool) (p : ℕ) where
  -- A row without live orders is run through with no effect.
  trade_row-dead :
      (suffix before : List LobOrder) (c : ℕ) (order : LobOrder) (e : Engine)
      → p < (opposite is_buy e).max_price_possible
      → (opposite is_buy e).book p ≡ before ++ suffix
      → c ≡ length before
      → live suffix ≡ []
      → trade_row is_buy p (length suffix) c order e ≡ ok (order, e)
  unfolding trade_row
  trade_row-dead [] before c order e h row l dead = refl
  trade_row-dead (x ∷ suffix) before c order e h row l dead =
      rw
        (trade_entry-dead is_buy p c order x e h (rw (row, l) (get_elem?-middle before suffix x))
          (ground arith))
        (trade_row-dead suffix (before ++ x ∷ []) (suc c) order e h
          (row ∙ sym (append_assoc before (x ∷ []) suffix))
          (omega (arith, length-append before (x ∷ []))) (ground arith))

-- If the best row of the other side is in reach and holds entries but no live order, an order
-- that wants anything, at a price with a tick, is never done: however many rounds the loop is given, it uses them up.
pub aggressive_match-waiting :
    (is_buy : Bool) (price fuel : ℕ) (order : LobOrder) (e : Engine)
    → let b = opposite is_buy e in
      0 < order.quantity
      → tick order.price ≡ some price
      → beyond is_buy price b.best_price ≡ false
      → b.best_price < b.max_price_possible
      → b.book b.best_price ≢ []
      → live (b.book b.best_price) ≡ []
      → aggressive_match fuel is_buy order e ≡ waiting
unfolding aggressive_match Book.get_optimal_price Book.get_order_at_price
aggressive_match-waiting is_buy price zero order e q priced reach h n dead = refl
aggressive_match-waiting is_buy price (suc fuel) order e q priced reach h n dead =
    elim (List-cases ((opposite is_buy e).book (opposite is_buy e).best_price)) [
      | inl t ↦ absurd (n t)
      | inr (x, row, t) ↦
          let wanted : (order.quantity == 0) ≡ false = ground arith in
          rw
            (
              wanted,
              priced,
              ◌>>=◌,
              reach,
              lt→leb _ _ h,
              t,
              trade_row-dead is_buy (opposite is_buy e).best_price (x ∷ row) [] 0 order e h t refl
                  (rw t at dead),
            )
            (aggressive_match-waiting is_buy price fuel order e q priced reach h n dead)
    ]
