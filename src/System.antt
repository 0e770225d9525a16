-- ===== src/System.antt =====
-- main.cpp: how the program puts its parts together. The threads run until they are told to stop;
-- what each sees of the others' queues is an argument of its model.
pub mod Supply
pub mod Session
mod Tests
use trade_engine.Prelude.{ℕ}
use trade_engine.Structs.{LobOrder, LobAck, UserAck, BroadCast, LogElement}
use trade_engine.Outbox.{Outbox}
use trade_engine.LfQueue.{LfQueue, make}
use trade_engine.Engine
use trade_engine.Engine.{Engine}
use trade_engine.Gateway
use trade_engine.Gateway.{Gateway}

-- `size`, of every queue.
abbrev pub queue_size : ℕ
queue_size = 200_005

abbrev pub max_price_tick : ℕ
max_price_tick = 10_000

-- A queue, whose slots hold default values.
abbrev pub new_queue {ℓ} : {A : Type ℓ} → A → LfQueue A
new_queue default = make queue_size default

-- `matchEngine`.
abbrev pub match_engine :
    Outbox LobAck → Outbox BroadCast → Outbox LogElement → (ℕ → ℕ) → ℕ → Engine
match_engine lob_ack broad_cast match_to_log cycles patience =
    Engine.init max_price_tick lob_ack broad_cast match_to_log cycles patience

-- `orderGateway`.
abbrev pub order_gateway :
    Outbox LobOrder → Outbox UserAck → Outbox LogElement → (ℕ → ℕ) → (LobOrder → LobOrder) → Gateway
order_gateway lob sniper_ack gateway_to_logger cycles seen =
    Gateway.init lob sniper_ack gateway_to_logger cycles seen
