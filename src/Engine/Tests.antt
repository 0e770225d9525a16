-- ===== src/Engine/Tests.antt =====
-- matching/matching.cpp: engines with one sell order in the book, and one buy order that comes in.
pub mod Running
mod Printed
use trade_engine.Prelude.{
  ℕ, ◌<◌, ◌≡◌, refl, true, false, [], ◌∷◌, ◌++◌, arith, ◌==◌, if◌then◌else◌, ok, waiting, inl, ◌+◌,
  List, Each,
}
use trade_engine.Structs.{LobOrder}
use trade_engine.Outbox.{Outbox, HasRoom}
use trade_engine.Book
use trade_engine.Book.{Book, create_at}
use trade_engine.Book.Rows.{live_count}
use trade_engine.Book.Valid.{IsNew, init-IsValid}
use trade_engine.Book.Levels.{level}
use trade_engine.Book.Tests.{ask, ask_tick, one_ask, one_ask-IsValid}
use trade_engine.Engine.{Engine, init, own, opposite, set_own, beyond, aggressive_match}
use trade_engine.Engine.Sweep.{IsReady, Swept}
use trade_engine.Engine.Progress.{measure}
use trade_engine.Engine.Priority.{aggressive_match_priority, aggressive_match-acks}
use trade_engine.Engine.Filled.{AreFills}
use trade_engine.Engine.Fills.{Fill, IsFillWithin, lots_of, acks_of}
use trade_engine.Engine.Sound.{IsSound, sound_for, init-IsSound}
use trade_engine.Engine.Create.{create_order-IsSound}
use trade_engine.Engine.Livelock.{aggressive_match-waiting}
use trade_engine.Engine.Handlers.{create_order}

abbrev pub roomy : (A : Type 0) → Outbox A
roomy A = record { sent = []; room = λ _. true; attempts = 0 }

-- No orders yet.
abbrev pub quiet : Engine
quiet = init 5 (roomy _) (roomy _) (roomy _) (λ n. n) 1

init-IsSound_example : IsSound 5 quiet
init-IsSound_example = init-IsSound 5 (roomy _) (roomy _) (roomy _) (λ n. n) 1 (ground arith)

-- A sell order of 4 lots at 0.3f rests.
abbrev pub offered : Engine
offered = set_own false one_ask quiet

-- A buy order at 0.3f.
abbrev pub bid : ℕ → LobOrder
bid quantity = record (ask 8 quantity) { order_type = b'b' }

pub offered-IsSound : IsSound 5 offered
unfolding init Book.init create_at
offered-IsSound = record {
  buys_valid = init-IsValid true 5 (ground arith);
  sells_valid = one_ask-IsValid;
  buy_side = refl;
  sell_side = refl;
  buy_max = refl;
  sell_max = refl;
  floor = refl;
  apart = λ p q k l m n. absurd (omega arith);
}

offered-IsReady : IsReady true offered
offered-IsReady = (sound_for true 5 offered offered-IsSound).ready

offered-measure :
    measure true (opposite true offered).best_price (opposite true offered).max_price_possible < 6
unfolding init Book.init create_at
offered-measure = ground arith

aggressive_match_priority_example :
    (e' : Engine) × (left : ℕ) × (aggressive_match 6 true (bid 9) offered
      ≡ ok (record (bid 9) { quantity = left }, e'))
    × IsReady true e'
    × (own true e' ≡ own true offered)
    × ((opposite true e').max_price_possible ≡ (opposite true offered).max_price_possible)
    × (e'.broadcast ≡ offered.broadcast)
    × Swept true 3 9 left
        (opposite true offered).max_price_possible
        (opposite true offered).book
        (opposite true e').book
    × (0 < left
        → (p : ℕ) → p < (opposite true offered).max_price_possible
        → beyond true 3 p ≡ false
        → live_count ((opposite true e').book p) ≡ 0)
aggressive_match_priority_example =
    aggressive_match_priority true 3 6 (bid 9) offered offered-IsReady ask_tick offered-measure

aggressive_match-acks_example :
    (e' : Engine) × (left : ℕ) × (fills : List Fill) × (aggressive_match 6 true (bid 9) offered
      ≡ ok (record (bid 9) { quantity = left }, e'))
    × Each (IsFillWithin true 3 5) fills
    × AreFills true 3 9 5 (opposite true offered).book fills
    × (lots_of fills + left ≡ 9)
    × (e'.lob_ack.sent ≡ offered.lob_ack.sent ++ acks_of (bid 9) fills)
unfolding init Book.init create_at
aggressive_match-acks_example =
    aggressive_match-acks true 3 6 (bid 9) offered offered-IsReady ask_tick offered-measure
      (λ n. refl)

bid-IsNew : IsNew (own true offered) (bid 9) 3
unfolding init Book.init create_at
bid-IsNew = record {
  fresh = refl;
  id_in = ground arith;
  priced = ask_tick;
  price_in = ground arith;
  positive = ground arith;
}

offered_room : HasRoom offered.patience offered.broadcast
unfolding init
offered_room = inl refl

create_order-IsSound_example :
    (t left : ℕ) × (e' : Engine) × (create_order 6 true (bid 9) offered
      ≡ ok (t, record (bid 9) { quantity = left }, e'))
    × IsSound 5 e'
    × Swept true 3 9 left 5 (opposite true offered).book (opposite true e').book
    × ((q : ℕ)
        → level (own true e') q ≡ (
            if left == 0
            then level (own true offered) q
            else (if 3 == q
                then level (own true offered) q ++ record (bid 9) { quantity = left } ∷ []
                else level (own true offered) q)))
create_order-IsSound_example =
    create_order-IsSound true 5 3 6 (bid 9) offered offered-IsSound bid-IsNew (λ _. ground arith)
      (ground arith) offered_room

-- The resting order has been updated to a quantity of 0.
abbrev hollow : Engine
hollow = record offered {
  sell_order_book = record one_ask { book = λ p. if p == 3 then ask 7 0 ∷ [] else [] };
}

hollow_reach : beyond true 3 (opposite true hollow).best_price ≡ false
unfolding create_at Book.init
hollow_reach = refl

hollow_in : (opposite true hollow).best_price < (opposite true hollow).max_price_possible
unfolding create_at Book.init
hollow_in = ground arith

hollow_row : (opposite true hollow).book (opposite true hollow).best_price ≡ ask 7 0 ∷ []
unfolding create_at Book.init
hollow_row = refl

aggressive_match-waiting_example : aggressive_match 1000 true (bid 9) hollow ≡ waiting
aggressive_match-waiting_example =
    aggressive_match-waiting true 3 1000 (bid 9) hollow (ground arith) ask_tick hollow_reach
      hollow_in (rw hollow_row (λ t. ground arith)) (rw hollow_row refl)
