-- ===== src/Engine.antt =====
-- matching/matching.cpp: the matching engine.
--
-- The order that `readOrder` works on is the slot of the order queue; functions that take it by
-- reference return it. The three queues that the engine writes are outboxes, and the processor's
-- cycle counter is a sequence of readings. Benchmarks are kept as the vectors that they fill.
pub mod Handlers
pub mod Fills
pub mod Trade
pub mod Consume
pub mod Round
pub mod Row
pub mod Sweep
pub mod Progress
pub mod Filled
pub mod Matched
pub mod Match
pub mod Priority
pub mod Sound
pub mod Report
pub mod Own
pub mod Create
pub mod Livelock
pub mod Kept
pub mod Running
pub mod Delete
pub mod Update
pub mod Amend
pub mod Ids
pub mod Requests
pub mod Measures
pub mod Measured
pub mod Printed
pub mod Server
pub mod Fresh
mod Tests
use trade_engine.Prelude.{
  ℕ, zero, suc, ◌+◌, ◌-◌, ◌%◌, ◌^◌, ◌≡◌, Bool, true, false, ◌&&◌, ◌||◌, not, Option, none, some,
  List, [], ◌∷◌, ◌++◌, length, ◌==◌, ltb, leb, if◌then◌else◌, Result, ok, fault, waiting, ◌>>=◌,
  or_fault,
}
use trade_engine.Structs.{
  LobOrder, LobAck, BroadCast, LogElement, lob_order, me_receive_order, me_aggressive_match,
  lob_create_order, lob_delete_order, lob_update_quantity,
}
use trade_engine.Price.{Float, tick, float_ne, float_of_size}
use trade_engine.Outbox.{Outbox, offer, offer_twice, insist}
use trade_engine.Book
use trade_engine.Book.{Book, Location}

pub record Engine : Type 0 where
  pub buy_order_book : Book
  pub sell_order_book : Book
  pub lob_ack : Outbox LobAck
  pub broadcast : Outbox BroadCast
  pub match_log : Outbox LogElement
  pub cycles : ℕ → ℕ
  pub cycles_read : ℕ
  -- How many attempts a spin on the broadcast queue lasts before the run counts as waiting.
  pub patience : ℕ
  pub queue_time : List ℕ
  pub throughput : List ℕ
  pub matching_processing_time : List ℕ
  pub tick_to_trade : List ℕ
  pub last_order_time : ℕ

-- The constructor, on its queues and with the cycle counter that it will read.
pub init : ℕ → Outbox LobAck → Outbox BroadCast → Outbox LogElement → (ℕ → ℕ) → ℕ → Engine
init max_price_ticks lob_ack broadcast match_log cycles patience = record {
  buy_order_book = Book.init true max_price_ticks;
  sell_order_book = Book.init false max_price_ticks;
  lob_ack = lob_ack;
  broadcast = broadcast;
  match_log = match_log;
  cycles = cycles;
  cycles_read = 0;
  patience = patience;
  queue_time = [];
  throughput = [];
  matching_processing_time = [];
  tick_to_trade = [];
  last_order_time = 0;
}

-- The book that an order of this side rests in, and the one that it is matched with.
abbrev pub own : Bool → Engine → Book
own true e = e.buy_order_book
own false e = e.sell_order_book

abbrev pub opposite : Bool → Engine → Book
opposite true e = e.sell_order_book
opposite false e = e.buy_order_book

abbrev pub set_own : Bool → Book → Engine → Engine
set_own true b e = record e { buy_order_book = b }
set_own false b e = record e { sell_order_book = b }

abbrev pub set_opposite : Bool → Book → Engine → Engine
set_opposite true b e = record e { sell_order_book = b }
set_opposite false b e = record e { buy_order_book = b }

-- `uint64_t` subtraction.
pub sub64 : ℕ → ℕ → ℕ
sub64 a b = (a + 2 ^ 64 - b % 2 ^ 64) % 2 ^ 64

abbrev pub now_cycle : Engine → ℕ
now_cycle e = e.cycles e.cycles_read

abbrev pub cycle_passed : Engine → Engine
cycle_passed e = record e { cycles_read = suc e.cycles_read }

abbrev pub write_log : ℕ → ℕ → LobOrder → Engine → Engine
write_log log_id timestamp order e = record e {
  match_log =
      offer (record { log_id = log_id; timestamp = timestamp; log_data = lob_order order })
        e.match_log;
}

-- `Ack`: the entry is dropped when two attempts find the queue full.
pub ack_of : LobOrder → ℕ → ℕ → ℕ → LobAck
ack_of order best_price req_type trade_quantity = record {
  system_id = order.system_id;
  price = float_of_size best_price;
  quantity = trade_quantity;
  side = order.order_type;
  status = req_type;
}

abbrev pub ack : LobOrder → ℕ → ℕ → ℕ → Engine → Engine
ack order best_price req_type trade_quantity e = record e {
  lob_ack = offer_twice (ack_of order best_price req_type trade_quantity) e.lob_ack;
}

-- `if (order.trade_id == 1) Ack(...)`.
abbrev pub ack_sniper : LobOrder → ℕ → ℕ → ℕ → Engine → Engine
ack_sniper order best_price req_type trade_quantity e = record e {
  lob_ack =
      if order.trade_id == 1
      then (ack order best_price req_type trade_quantity e).lob_ack
      else e.lob_ack;
}

abbrev pub change_of : LobOrder → ℕ → ℕ → BroadCast
change_of order req_type order_type = record {
  system_id = order.system_id;
  price = order.price;
  quantity = order.quantity;
  side = order_type;
  type = req_type;
}

-- `changeInQuantity`: yields until the broadcast queue has room.
pub change_in_quantity : LobOrder → ℕ → ℕ → Engine → Result Engine
change_in_quantity order req_type order_type e = do
  broadcast ← insist e.patience (change_of order req_type order_type) e.broadcast
  ok (record e { broadcast = broadcast })

abbrev pub side_char : Bool → ℕ
side_char true = b'B'
side_char false = b'S'

-- What follows a fill of `trade` at price index `p`: the log entry of the incoming order and the
-- acknowledgements of both.
pub report_trade : ℕ → ℕ → LobOrder → LobOrder → Engine → Engine
report_trade p trade order resting e = ack_sniper resting p b'T' trade (
    ack_sniper order p b'T' trade
      (write_log me_aggressive_match (now_cycle e) order (cycle_passed e)))

-- One round of the `for` loops of `aggresiveMatch`, at column `c` of the best row `p`. The flag
-- says that the loop is left by `break`.
pub trade_entry : Bool → ℕ → ℕ → LobOrder → Engine → Result (Bool × LobOrder × Engine)
unfolding report_trade
trade_entry is_buy p c order e = do
  ord ← or_fault (Book.deref (opposite is_buy e) (p, c))
  let trade = if ltb ord.quantity order.quantity then ord.quantity else order.quantity
  let left = ord.quantity - trade
  let order' = record order { quantity = order.quantity - trade }
  let done = order'.quantity == 0
  let e' =
      report_trade p trade order' (record ord { quantity = left })
        (set_opposite is_buy (Book.set_quantity (opposite is_buy e) (p, c) ord left) e)
  if ord.quantity == 0
      then ok (false, order, e)
      else (if left == 0
          then (do
            b ← Book.delete_order (opposite is_buy e') ord.system_id
            ok (done, order', set_opposite is_buy b e'))
          else ok (done, order', e'))

-- The `for` loop over the rest of a row, from column `c` on.
pub trade_row : Bool → ℕ → ℕ → ℕ → LobOrder → Engine → Result (LobOrder × Engine)
trade_row is_buy p zero c order e = ok (order, e)
trade_row is_buy p (suc rounds) c order e = do
  (left, order', e') ← trade_entry is_buy p c order e
  elim left [ true ↦ ok (order', e') | false ↦ trade_row is_buy p rounds (suc c) order' e' ]

-- The price is beyond the best one of the other side.
abbrev pub beyond : Bool → ℕ → ℕ → Bool
beyond true price best_ask = ltb price best_ask
beyond false price best_bid = ltb best_bid price

-- `aggresiveMatch`, by the rounds of its `while` loop.
pub aggressive_match : ℕ → Bool → LobOrder → Engine → Result (LobOrder × Engine)
unfolding trade_entry trade_row
aggressive_match zero is_buy order e = waiting
aggressive_match (suc rounds) is_buy order e = if order.quantity == 0 then ok (order, e) else do
  let best = Book.get_optimal_price (opposite is_buy e)
  price ← or_fault (tick order.price)
  elim (beyond is_buy price best) [
    | true ↦ ok (order, e)
    | false ↦ elim (Book.get_order_at_price (opposite is_buy e) best) [
      | none ↦ ok (order, e)
      | some [] ↦ ok (order, e)
      | some (o ∷ row) ↦ do
        (order', e') ← trade_row is_buy best (length (o ∷ row)) 0 order e
        aggressive_match rounds is_buy order' e'
    ]
  ]
