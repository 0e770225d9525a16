-- ===== src/Structs.antt =====
-- The records that pass between the threads (header/order_gateway_struct.h) and the log entries
-- (header/logger.h). Integers are natural numbers within the range of their C++ type, characters
-- are their codes, and prices are float bit patterns.
use trade_engine.Prelude.{ℕ}
use trade_engine.Price.{Float}

pub record LobOrder : Type 0 where
  pub arrival_cycle_count : ℕ
  pub system_id : ℕ
  pub price : Float
  pub quantity : ℕ
  pub trade_id : ℕ
  pub order_type : ℕ
  pub req_type : ℕ
  pub out_cycle_count : ℕ

pub record LobAck : Type 0 where
  pub system_id : ℕ
  pub price : Float
  pub quantity : ℕ
  pub side : ℕ
  pub status : ℕ

pub record UserOrder : Type 0 where
  pub arrived_cycle_count : ℕ
  pub order_id : ℕ
  pub trader_id : ℕ
  pub order_type : ℕ
  pub req_type : ℕ
  pub price : Float
  pub quantity : ℕ
  pub out_cycle_count : ℕ

-- `pad` is never read or written by the program.
pub record UserAck : Type 0 where
  pub order_id : ℕ
  pub price : Float
  pub quantity : ℕ
  pub side : ℕ
  pub status : ℕ
  pub pad : ℕ

pub record BroadCast : Type 0 where
  pub system_id : ℕ
  pub price : Float
  pub quantity : ℕ
  pub side : ℕ
  pub type : ℕ

-- The `log_id` constants.
abbrev pub gateway_receive_user_order : ℕ
gateway_receive_user_order = 1

abbrev pub gateway_send_to_me : ℕ
gateway_send_to_me = 2

abbrev pub me_receive_order : ℕ
me_receive_order = 3

abbrev pub me_aggressive_match : ℕ
me_aggressive_match = 4

abbrev pub lob_create_order : ℕ
lob_create_order = 5

abbrev pub lob_delete_order : ℕ
lob_delete_order = 6

abbrev pub lob_update_quantity : ℕ
lob_update_quantity = 7

abbrev pub me_send_ack : ℕ
me_send_ack = 8

abbrev pub gateway_receive_me_ack : ℕ
gateway_receive_me_ack = 9

abbrev pub gateway_send_user_ack : ℕ
gateway_send_user_ack = 10

-- The `std::variant` of a log entry, by the alternative that it holds.
pub data LogData : Type 0 where
  lob_order : LobOrder → LogData
  user_order : UserOrder → LogData
  user_ack : UserAck → LogData
  lob_ack : LobAck → LogData

pub record LogElement : Type 0 where
  pub log_id : ℕ
  pub timestamp : ℕ
  pub log_data : LogData
