-- ===== src/Engine/Sound.antt =====
-- matching/matching.cpp: the invariant of the engine. Both books are valid and of one size, and no
-- live buy order reaches a live sell order.
use trade_engine.Prelude.{ℕ, ◌<◌, ◌≡◌, refl, Bool, true, false, List, [], arith}
use trade_engine.Structs.{LobOrder}
use trade_engine.Book
use trade_engine.Book.{Book}
use trade_engine.Book.Rows.{live_count}
use trade_engine.Book.Inv.{IsValid}
use trade_engine.Book.Valid.{init-IsValid}
use trade_engine.Engine.{Engine, init, own, opposite, beyond}
use trade_engine.Engine.Sweep.{IsReadyBook}
use trade_engine.Outbox.{Outbox}
use trade_engine.Structs.{LobAck, BroadCast, LogElement}

-- No live order of the side reaches a live order of the other.
abbrev pub Apart : Bool → (ℕ → List LobOrder) → (ℕ → List LobOrder) → ℕ → Type 0
Apart is_buy own_rows rows max =
    (p q : ℕ)
    → p < max
    → q < max
    → 0 < live_count (own_rows p)
    → 0 < live_count (rows q)
    → beyond is_buy p q ≡ true

-- The bids of price index 0 are left out: a buy book takes it for "no best bid".
pub record IsSoundBooks (max : ℕ) (buys sells : Book) : Type 0 where
  pub buys_valid : IsValid buys
  pub sells_valid : IsValid sells
  pub buy_side : buys.is_buy ≡ true
  pub sell_side : sells.is_buy ≡ false
  pub buy_max : buys.max_price_possible ≡ max
  pub sell_max : sells.max_price_possible ≡ max
  pub floor : buys.book 0 ≡ []
  pub apart : Apart true buys.book sells.book max

abbrev pub IsSound : ℕ → Engine → Type 0
IsSound max e = IsSoundBooks max e.buy_order_book e.sell_order_book

-- The same, from the side of one order: its own book, and the other.
pub record IsSoundFor (is_buy : Bool) (max : ℕ) (mine other : Book) : Type 0 where
  pub valid : IsValid mine
  pub side : mine.is_buy ≡ is_buy
  pub own_max : mine.max_price_possible ≡ max
  pub opposite_max : other.max_price_possible ≡ max
  pub own_floor : is_buy ≡ true → mine.book 0 ≡ []
  pub ready : IsReadyBook is_buy other
  pub apart : Apart is_buy mine.book other.book max

pub sound_for :
    (is_buy : Bool) (max : ℕ) (e : Engine)
    → IsSound max e
    → IsSoundFor is_buy max (own is_buy e) (opposite is_buy e)
sound_for true max e s = record {
  valid = s.buys_valid;
  side = s.buy_side;
  own_max = s.buy_max;
  opposite_max = s.sell_max;
  own_floor = λ _. s.floor;
  ready = record { valid = s.sells_valid; side = s.sell_side; floor = λ t. cc };
  apart = s.apart;
}
sound_for false max e s = record {
  valid = s.sells_valid;
  side = s.sell_side;
  own_max = s.sell_max;
  opposite_max = s.buy_max;
  own_floor = λ t. cc;
  ready = record { valid = s.buys_valid; side = s.buy_side; floor = λ _. s.floor };
  apart = λ p q h k l m. s.apart q p k h m l;
}

pub IsSound-from :
    (is_buy : Bool) (max : ℕ) (e : Engine)
    → IsSoundFor is_buy max (own is_buy e) (opposite is_buy e)
    → IsSound max e
IsSound-from true max e s = record {
  buys_valid = s.valid;
  sells_valid = s.ready.valid;
  buy_side = s.side;
  sell_side = s.ready.side;
  buy_max = s.own_max;
  sell_max = s.opposite_max;
  floor = s.own_floor refl;
  apart = s.apart;
}
IsSound-from false max e s = record {
  buys_valid = s.ready.valid;
  sells_valid = s.valid;
  buy_side = s.ready.side;
  sell_side = s.side;
  buy_max = s.opposite_max;
  sell_max = s.own_max;
  floor = s.ready.floor refl;
  apart = λ p q h k l m. s.apart q p k h m l;
}

-- The constructor's engine, of books with at least one price, is sound.
pub init-IsSound :
    (max : ℕ) (acks : Outbox LobAck) (broadcast : Outbox BroadCast) (log : Outbox LogElement)
    (cycles : ℕ → ℕ) (patience : ℕ)
    → 0 < max
    → IsSound max (init max acks broadcast log cycles patience)
unfolding init Book.init
init-IsSound max acks broadcast log cycles patience h = record {
  buys_valid = init-IsValid true max h;
  sells_valid = init-IsValid false max h;
  buy_side = refl;
  sell_side = refl;
  buy_max = refl;
  sell_max = refl;
  floor = refl;
  apart = λ p q k l m n. absurd (omega arith);
}
