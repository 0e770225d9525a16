-- ===== src/Engine/Handlers.antt =====
-- matching/matching.cpp: the handlers of the three requests, `readOrder`, and the engine's loop.
-- `fuel` bounds the rounds of the `while` loop of each `aggresiveMatch`.
use trade_engine.Prelude.{
  ℕ, suc, Bool, Option, none, some, List, [], ◌∷◌, ◌++◌, ◌==◌, if◌then◌else◌, Result, ok, ◌>>=◌,
  or_fault,
}
use trade_engine.Structs.{
  LobOrder, me_receive_order, lob_create_order, lob_delete_order, lob_update_quantity,
}
use trade_engine.Price.{tick, float_ne}
use trade_engine.Book
use trade_engine.Book.{Location}
use trade_engine.Engine.{
  Engine, own, set_own, sub64, now_cycle, cycle_passed, write_log, ack, change_in_quantity,
  side_char, aggressive_match,
}

-- `if (order.trade_id == 1) Ack(order, static_cast<size_t>(order.price * 10), ...)`.
unfoldable pub ack_own : LobOrder → ℕ → Engine → Result Engine
ack_own order req_type e =
    if order.trade_id == 1
    then (do p ← or_fault (tick order.price); ok (ack order p req_type order.quantity e))
    else ok e

-- The log entry, the broadcast and the acknowledgement of a change in the book.
unfoldable pub report_change : ℕ → ℕ → Bool → LobOrder → Engine → Result Engine
unfolding change_in_quantity ack_own
report_change log_id req_type is_buy order e = do
  e' ←
      change_in_quantity order req_type (side_char is_buy)
        (write_log log_id (now_cycle e) order (cycle_passed e))
  ack_own order req_type e'

-- `processFinish`, the time that a handler returns.
abbrev pub finish : LobOrder → Engine → ℕ × LobOrder × Engine
finish order e = (now_cycle e, order, cycle_passed e)

unfoldable pub create_order : ℕ → Bool → LobOrder → Engine → Result (ℕ × LobOrder × Engine)
unfolding report_change
create_order fuel is_buy order e = do
  (order', e') ← aggressive_match fuel is_buy order e
  if order'.quantity == 0 then ok (finish order' e') else do
    b ← Book.create_order (own is_buy e') order'
    e'' ← report_change lob_create_order b'N' is_buy order' (set_own is_buy b e')
    ok (finish order' e'')

-- The parameter `LOBOrder &order` of `deleteOrder`: an order of the caller, or an entry of the
-- book, which the deletion changes under the handler.
pub data OrderRef : Type 0 where
  local : LobOrder → OrderRef
  entry : Location → OrderRef

unfoldable pub read_ref : Bool → OrderRef → Engine → Option LobOrder
read_ref is_buy (local order) e = some order
read_ref is_buy (entry l) e = Book.deref (own is_buy e) l

unfoldable pub delete_order : Bool → OrderRef → Engine → Result (ℕ × Engine)
unfolding report_change read_ref
delete_order is_buy ref e = do
  order ← or_fault (read_ref is_buy ref e)
  b ← Book.delete_order (own is_buy e) order.system_id
  order' ← or_fault (read_ref is_buy ref (set_own is_buy b e))
  e' ← report_change lob_delete_order b'D' is_buy order' (set_own is_buy b e)
  ok (now_cycle e', cycle_passed e')

unfoldable pub update_order : ℕ → Bool → LobOrder → Engine → Result (ℕ × LobOrder × Engine)
update_order fuel is_buy order e = elim (Book.peek_order (own is_buy e) order.system_id) [
  | none ↦ ok (0, order, e)
  | some l ↦ do
    previous ← or_fault (Book.deref (own is_buy e) l)
    if float_ne order.price previous.price
        then (do
          (_, e') ← delete_order is_buy (entry l) e
          (_, order', e'') ← create_order fuel is_buy order e'
          ok (finish order' e''))
        else (if order.quantity == previous.quantity then ok (finish order e) else do
          b ← Book.update_order_quantity (own is_buy e) order
          e' ← report_change lob_update_quantity b'U' is_buy order (set_own is_buy b e)
          ok (finish order e'))
]

-- What `readOrder` does before it looks at the request.
unfoldable pub receive : LobOrder → Engine → Engine
receive order e = record e' {
  queue_time = e.queue_time ++ sub64 arrival order.out_cycle_count ∷ [];
  throughput =
      if e.last_order_time == 0
      then e.throughput
      else e.throughput ++ sub64 arrival e.last_order_time ∷ [];
  last_order_time = arrival;
  cycles_read = suc e'.cycles_read;
}
  where
    arrival : ℕ
    arrival = now_cycle e

    e' : Engine
    e' = write_log me_receive_order arrival order (cycle_passed e)

-- The request by its type; any other type does nothing and leaves `processEndTime` at 0.
unfoldable pub dispatch : ℕ → LobOrder → Engine → Result (ℕ × Engine)
dispatch fuel order e =
    let is_buy = order.order_type == b'b' in
    if order.req_type == b'c'
    then (do (t, _, e') ← create_order fuel is_buy order e; ok (t, e'))
    else (if order.req_type == b'u'
        then (do (t, _, e') ← update_order fuel is_buy order e; ok (t, e'))
        else (if order.req_type == b'd' then delete_order is_buy (local order) e else ok (0, e)))

-- `readOrder`, at what `getNextToRead` returned. The slot is released before its last field is
-- read; the order is taken as it was then (LfQueue.Slots is about that slot).
unfoldable pub read_order : ℕ → Option LobOrder → Engine → Result Engine
read_order fuel none e = ok e
read_order fuel (some order) e = do
  (process_end, e') ← dispatch fuel order (receive order e)
  ok (record e' {
    matching_processing_time = e'.matching_processing_time ++ sub64 process_end (now_cycle e) ∷ [];
    tick_to_trade = e'.tick_to_trade ++ sub64 process_end order.arrival_cycle_count ∷ [];
  })

-- The loop of `matchingEngine`: a reading of the order queue for each round.
unfoldable pub matching_engine : ℕ → List (Option LobOrder) → Engine → Result Engine
matching_engine fuel [] e = ok e
matching_engine fuel (slot ∷ slots) e = do
  e' ← read_order fuel slot e
  matching_engine fuel slots e'
