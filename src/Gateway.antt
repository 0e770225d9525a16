-- ===== src/Gateway.antt =====
-- order_gateway/order_gateway.cpp: the order gateway.
--
-- The queues that the gateway reads are the lists of what they hold, oldest first; those that it
-- writes are outboxes. An order id is the 64-bit pattern that `long long` and `uint64_t` share.
pub mod History
pub mod Handle
pub mod Acks
pub mod Take
pub mod Run
pub mod Printed
pub mod Server
pub mod Lookup
mod Tests
use trade_engine.Prelude.{
  ℕ, zero, suc, ◌+◌, ◌-◌, ◌%◌, ◌^◌, ◌≡◌, Bool, true, false, Option, none, some, List, [], ◌∷◌, ◌++◌,
  ◌==◌, ltb, leb, if◌then◌else◌, update, Result, ok, fault, ◌>>=◌,
}
use trade_engine.Structs.{
  LobOrder, LobAck, UserOrder, UserAck, LogElement, LogData, lob_order, user_order, user_ack,
  lob_ack, gateway_receive_user_order, gateway_send_to_me, gateway_receive_me_ack,
  gateway_send_user_ack,
}
use trade_engine.Outbox.{Outbox, offer, has_room, attempted, publish}
use trade_engine.Engine.{sub64}

-- `size_` of this file.
abbrev pub lut_length : ℕ
lut_length = 1_000_005

pub record Gateway : Type 0 where
  pub lob_orders : Outbox LobOrder
  pub lob_acks : List LobAck
  pub sniper_orders : List UserOrder
  pub sniper_acks : Outbox UserAck
  pub maker_orders : List UserOrder
  pub logger : Outbox LogElement
  -- Order id to system id, the newest entry first.
  pub map : List (ℕ × ℕ)
  pub lut : ℕ → ℕ
  pub next_system_id : ℕ
  pub order_gateway_time : List ℕ
  pub cycles : ℕ → ℕ
  pub cycles_read : ℕ
  -- What a slot shows that has been published: the engine may be changing the order in it.
  pub seen : LobOrder → LobOrder

pub init :
    Outbox LobOrder → Outbox UserAck → Outbox LogElement → (ℕ → ℕ) → (LobOrder → LobOrder) → Gateway
init lob_orders sniper_acks logger cycles seen = record {
  lob_orders = lob_orders;
  lob_acks = [];
  sniper_orders = [];
  sniper_acks = sniper_acks;
  maker_orders = [];
  logger = logger;
  map = [];
  lut = λ _. 0;
  next_system_id = 0;
  order_gateway_time = [];
  cycles = cycles;
  cycles_read = 0;
  seen = seen;
}

-- A negative `int` is beyond the length, once it is converted to compare.
pub system_to_order_id : ℕ → Gateway → ℕ
system_to_order_id sys_id g = if ltb sys_id lut_length then g.lut sys_id else 2 ^ 64 - 1

abbrev pub find : ℕ → List (ℕ × ℕ) → Option ℕ
find key [] = none
find key ((k, v) ∷ entries) = if k == key then some v else find key entries

-- `map.insert`, which keeps an entry that is there.
pub insert : ℕ → ℕ → List (ℕ × ℕ) → List (ℕ × ℕ)
insert key value entries = elim (find key entries) [
  | none ↦ (key, value) ∷ entries
  | some _ ↦ entries
]

-- The order under the next system id.
abbrev pub assigned : ℕ → Gateway → Gateway
assigned order_id g = record g {
  next_system_id = suc g.next_system_id;
  map = insert order_id g.next_system_id g.map;
  lut = update g.lut g.next_system_id order_id;
}

-- The assignment to the LUT is out of range from `lut_length` on.
pub assign_system_id : ℕ → Gateway → Result (ℕ × Gateway)
assign_system_id order_id g =
    if leb lut_length g.next_system_id then fault else ok (g.next_system_id, assigned order_id g)

-- `none` is -1.
pub get_system_id : ℕ → Gateway → Option ℕ
get_system_id order_id g = find order_id g.map

abbrev pub now_cycle : Gateway → ℕ
now_cycle g = g.cycles g.cycles_read

abbrev pub cycle_passed : Gateway → Gateway
cycle_passed g = record g { cycles_read = suc g.cycles_read }

-- The log entry with a time that has been read already.
abbrev pub write_log : ℕ → ℕ → LogData → Gateway → Gateway
write_log log_id timestamp entry g = record g {
  logger = offer (record { log_id = log_id; timestamp = timestamp; log_data = entry }) g.logger;
}

-- The log entry whose time is read only when there is room for it.
pub write_log_now : ℕ → LogData → Gateway → Gateway
write_log_now log_id entry g =
    if has_room g.logger
    then cycle_passed (write_log log_id (now_cycle g) entry g)
    else record g { logger = attempted g.logger }

-- The order for the engine, by its two times. `uint64_t` quantities are cut to 32 bits.
abbrev pub lob_order_of : ℕ → ℕ → ℕ → UserOrder → LobOrder
lob_order_of arrival out sys_id order = record {
  arrival_cycle_count = arrival;
  system_id = sys_id;
  price = order.price;
  quantity = order.quantity % 2 ^ 32;
  trade_id = order.trader_id;
  order_type = order.order_type;
  req_type = order.req_type;
  out_cycle_count = out;
}

-- The part of `gatewayOrderProcess` that has found room in the engine's queue.
pub send_order : ℕ → ℕ → UserOrder → Gateway → Gateway
send_order arrival sys_id order g =
    let write = lob_order_of arrival (now_cycle g) sys_id order in
    let g' = cycle_passed (record g { lob_orders = publish write (attempted g.lob_orders) }) in
    write_log_now gateway_send_to_me (lob_order (g.seen write)) (
      cycle_passed (record g' {
        order_gateway_time = g.order_gateway_time ++ sub64 (now_cycle g') arrival ∷ [];
      }))

-- `gatewayOrderProcess`; the order is dropped when the engine's queue is full.
pub process_order : UserOrder → Gateway → Result Gateway
process_order order g = do
  let arrival = now_cycle g
  (sys_id, g') ←
      assign_system_id order.order_id
        (write_log gateway_receive_user_order arrival (user_order order) (cycle_passed g))
  if has_room g'.lob_orders
      then ok (send_order arrival sys_id order g')
      else ok (record g' { lob_orders = attempted g'.lob_orders })

-- `getNextToRead`, `gatewayOrderProcess` and `updateReadIndex` on one of the two queues of orders,
-- which `release` puts back without the order.
pub take_order : (List UserOrder → Gateway → Gateway) → List UserOrder → Gateway → Result Gateway
take_order release [] g = ok g
take_order release (order ∷ rest) g = do g' ← process_order order g; ok (release rest g')

abbrev pub release_sniper : List UserOrder → Gateway → Gateway
release_sniper rest g = record g { sniper_orders = rest }

abbrev pub release_maker : List UserOrder → Gateway → Gateway
release_maker rest g = record g { maker_orders = rest }

pub take_sniper_order : Gateway → Result Gateway
take_sniper_order g = take_order release_sniper g.sniper_orders g

pub take_maker_order : Gateway → Result Gateway
take_maker_order g = take_order release_maker g.maker_orders g

-- The acknowledgement for the trader; the order id is cut to 32 bits, `pad` stays as the slot has it.
abbrev pub user_ack_of : LobAck → Gateway → UserAck
user_ack_of ack g = record {
  order_id = system_to_order_id ack.system_id g % 2 ^ 32;
  price = ack.price;
  quantity = ack.quantity;
  side = ack.side;
  status = ack.status;
  pad = 0;
}

-- The acknowledgement stays in its queue when the trader's is full.
pub pass_ack : LobAck → List LobAck → Gateway → Gateway
pass_ack ack rest g =
    let g' = write_log_now gateway_receive_me_ack (lob_ack ack) g in
    let write = user_ack_of ack g' in
    let claimed = record g' { sniper_acks = attempted g'.sniper_acks } in
    let g'' = write_log_now gateway_send_user_ack (user_ack write) claimed in
    if has_room g'.sniper_acks
    then record g'' { sniper_acks = publish write g''.sniper_acks; lob_acks = rest }
    else claimed

pub take_ack : List LobAck → Gateway → Gateway
take_ack [] g = g
take_ack (ack ∷ rest) g = pass_ack ack rest g

-- The body of the loop of `run`.
pub round : Gateway → Result Gateway
round g = do g₁ ← take_sniper_order g; g₂ ← take_maker_order g₁; ok (take_ack g₂.lob_acks g₂)

-- What happens, in order: the writers of the three queues add to them, and the gateway runs.
pub data Step : Type 0 where
  sniper_sends maker_sends : UserOrder → Step
  engine_acks : LobAck → Step
  rounds : Step

pub step : Gateway → Step → Result Gateway
step g (sniper_sends order) = ok (record g { sniper_orders = g.sniper_orders ++ order ∷ [] })
step g (maker_sends order) = ok (record g { maker_orders = g.maker_orders ++ order ∷ [] })
step g (engine_acks ack) = ok (record g { lob_acks = g.lob_acks ++ ack ∷ [] })
step g rounds = round g

pub run : Gateway → List Step → Result Gateway
run g [] = ok g
run g (s ∷ steps) = do g' ← step g s; run g' steps
