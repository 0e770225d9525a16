-- ===== src/Engine/Own.antt =====
-- matching/matching.cpp: the book of an order's side and that of the other side, when one of them
-- is replaced.
use trade_engine.Prelude.{Bool, true, false, ◌≡◌, refl}
use trade_engine.Book.{Book}
use trade_engine.Engine.{Engine, own, opposite, set_own}

pub own-set_own : (is_buy : Bool) (b : Book) (e : Engine) → own is_buy (set_own is_buy b e) ≡ b
own-set_own true b e = refl
own-set_own false b e = refl

pub opposite-set_own :
    (is_buy : Bool) (b : Book) (e : Engine)
    → opposite is_buy (set_own is_buy b e) ≡ opposite is_buy e
opposite-set_own true b e = refl
opposite-set_own false b e = refl

pub own-cong :
    (is_buy : Bool) (e e' : Engine)
    → e.buy_order_book ≡ e'.buy_order_book
    → e.sell_order_book ≡ e'.sell_order_book
    → own is_buy e ≡ own is_buy e'
own-cong true e e' b s = b
own-cong false e e' b s = s

pub opposite-cong :
    (is_buy : Bool) (e e' : Engine)
    → e.buy_order_book ≡ e'.buy_order_book
    → e.sell_order_book ≡ e'.sell_order_book
    → opposite is_buy e ≡ opposite is_buy e'
opposite-cong true e e' b s = s
opposite-cong false e e' b s = b

pub patience-set_own :
    (is_buy : Bool) (b : Book) (e : Engine) → (set_own is_buy b e).patience ≡ e.patience
patience-set_own true b e = refl
patience-set_own false b e = refl

pub broadcast-set_own :
    (is_buy : Bool) (b : Book) (e : Engine) → (set_own is_buy b e).broadcast ≡ e.broadcast
broadcast-set_own true b e = refl
broadcast-set_own false b e = refl
