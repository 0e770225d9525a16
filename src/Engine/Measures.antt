-- ===== src/Engine/Measures.antt =====
-- matching/matching.cpp: the handlers leave the measured times alone, whatever the request.
use trade_engine.Prelude.{ℕ, zero, suc, ◌≡◌, Bool, true, false, List, ok, arith}
use trade_engine.Structs.{LobOrder}
use trade_engine.Engine.{
  Engine, report_trade, trade_entry, trade_row, aggressive_match, change_in_quantity,
}
use trade_engine.Engine.Handlers.{
  ack_own, report_change, create_order, OrderRef, delete_order, update_order, dispatch,
}

-- What is measured and the counter that it is measured with.
abbrev pub measures : Engine → List ℕ × List ℕ × List ℕ × List ℕ × ℕ × (ℕ → ℕ)
measures e = (
  e.queue_time, e.throughput, e.matching_processing_time, e.tick_to_trade, e.last_order_time,
  e.cycles,
)

abbrev pub Keeps : Engine → Engine → Type 0
Keeps e e' = measures e' ≡ measures e

trade_entry-Keeps :
    (is_buy : Bool) (p c : ℕ) (order : LobOrder) (e : Engine) (t : Bool × LobOrder × Engine)
    → trade_entry is_buy p c order e ≡ ok t
    → Keeps e t.2
unfolding trade_entry report_trade
trade_entry-Keeps true p c order e t h = ground arith
trade_entry-Keeps false p c order e t h = ground arith

trade_row-Keeps :
    (is_buy : Bool) (p rounds c : ℕ) (order : LobOrder) (e : Engine) (t : LobOrder × Engine)
    → trade_row is_buy p rounds c order e ≡ ok t
    → Keeps e t.1
unfolding trade_row
trade_row-Keeps is_buy p zero c order e t h = ground arith
trade_row-Keeps is_buy p (suc rounds) c order e t h =
    grind (arith, trade_entry-Keeps is_buy p c order e, trade_row-Keeps is_buy p rounds (suc c))

aggressive_match-Keeps :
    (rounds : ℕ) (is_buy : Bool) (order : LobOrder) (e : Engine) (t : LobOrder × Engine)
    → aggressive_match rounds is_buy order e ≡ ok t
    → Keeps e t.1
unfolding aggressive_match
aggressive_match-Keeps zero is_buy order e t h = ground arith
aggressive_match-Keeps (suc rounds) is_buy order e t h =
    grind (arith, trade_row-Keeps is_buy, aggressive_match-Keeps rounds is_buy)

report_change-Keeps :
    (log_id req_type : ℕ) (is_buy : Bool) (order : LobOrder) (e e' : Engine)
    → report_change log_id req_type is_buy order e ≡ ok e'
    → Keeps e e'
unfolding report_change change_in_quantity ack_own
report_change-Keeps log_id req_type is_buy order e e' h = ground arith

create_order-Keeps :
    (fuel : ℕ) (is_buy : Bool) (order : LobOrder) (e : Engine) (t : ℕ × LobOrder × Engine)
    → create_order fuel is_buy order e ≡ ok t
    → Keeps e t.2
unfolding create_order
create_order-Keeps fuel true order e t h =
    grind (arith, aggressive_match-Keeps fuel true order e, report_change-Keeps)
create_order-Keeps fuel false order e t h =
    grind (arith, aggressive_match-Keeps fuel false order e, report_change-Keeps)

delete_order-Keeps :
    (is_buy : Bool) (ref : OrderRef) (e : Engine) (t : ℕ × Engine)
    → delete_order is_buy ref e ≡ ok t
    → Keeps e t.1
unfolding delete_order
delete_order-Keeps true ref e t h = grind (arith, report_change-Keeps)
delete_order-Keeps false ref e t h = grind (arith, report_change-Keeps)

update_order-Keeps :
    (fuel : ℕ) (is_buy : Bool) (order : LobOrder) (e : Engine) (t : ℕ × LobOrder × Engine)
    → update_order fuel is_buy order e ≡ ok t
    → Keeps e t.2
unfolding update_order
update_order-Keeps fuel true order e t h =
    grind (arith, create_order-Keeps fuel true, delete_order-Keeps true, report_change-Keeps)
update_order-Keeps fuel false order e t h =
    grind (arith, create_order-Keeps fuel false, delete_order-Keeps false, report_change-Keeps)

pub dispatch-Keeps :
    (fuel : ℕ) (order : LobOrder) (e : Engine) (t : ℕ × Engine)
    → dispatch fuel order e ≡ ok t
    → Keeps e t.1
unfolding dispatch
dispatch-Keeps fuel order e t h =
    grind (arith, create_order-Keeps fuel, delete_order-Keeps, update_order-Keeps fuel)
