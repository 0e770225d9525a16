-- ===== src/System/Tests.antt =====
-- main.cpp: sessions of two orders.
use trade_engine.Prelude.{
  ℕ, length, ◌-◌, ◌*◌, ◌≡◌, refl, Bool, true, false, List, [], ◌∷◌, ◌++◌, arith, ok, inl,
}
use trade_engine.Structs.{LobOrder, UserOrder}
use trade_engine.Price.{tick}
use trade_engine.Outbox.{Outbox}
use trade_engine.Gateway
use trade_engine.Gateway.{Gateway, Step, sniper_sends, maker_sends, rounds}
use trade_engine.Gateway.Run.{sniper_sent}
use trade_engine.Engine.{Engine}
use trade_engine.Engine.Handlers.{matching_engine}
use trade_engine.Engine.Running.{IsRunning}
use trade_engine.Alpha.Fill.{new_order, prepare_from, prepare}
use trade_engine.System.{max_price_tick, match_engine, order_gateway}
use trade_engine.System.Supply.{IsTradable, polls, ready, found}
use trade_engine.System.Session.{match_engine-IsRunning, match_engine-prepare}

abbrev roomy : (A : Type 0) → Outbox A
roomy A = record { sent = []; room = λ _. true; attempts = 0 }

-- 110.3f.
abbrev order : ℕ → ℕ → UserOrder
order id side = record {
  arrived_cycle_count = 0;
  order_id = id;
  trader_id = 1;
  order_type = side;
  req_type = b'c';
  price = 0x42dc999a;
  quantity = 7;
  out_cycle_count = 0;
}

order-IsTradable : (id side : ℕ) → IsTradable max_price_tick (order id side)
unfolding tick
order-IsTradable id side = record {
  created = refl;
  lots = ground arith;
  price_tick = 1103;
  priced = refl;
  within = ground arith;
  above = λ b. ground arith;
}

abbrev steps : List Step
steps = sniper_sends (order 41 b'b') ∷ maker_sends (order 42 b's') ∷ rounds ∷ []

abbrev readings : List Bool
readings = false ∷ true ∷ true ∷ []

match_engine-IsRunning_example :
    (g : Gateway) × (Gateway.run
        (order_gateway (roomy _) (roomy _) (roomy _) (λ n. n) (λ o. o))
        steps
      ≡ ok g)
    × (e : Engine) × (matching_engine 10_001
          (polls readings g.lob_orders.sent)
          (match_engine (roomy _) (roomy _) (roomy _) (λ n. n) 3)
        ≡ ok e)
    × IsRunning max_price_tick e
    × (rest : List LobOrder) × (found (polls readings g.lob_orders.sent) ++ rest
        ≡ g.lob_orders.sent)
    × (length rest ≡ length g.lob_orders.sent - ready readings)
    × (length e.queue_time ≡ length (found (polls readings g.lob_orders.sent)))
match_engine-IsRunning_example =
    match_engine-IsRunning steps (roomy _) (roomy _) (roomy _) (λ n. n) (λ o. o) readings (roomy _)
      (roomy _) (roomy _) (λ n. n) 3 10_001 refl (ground arith) (order-IsTradable 41 b'b', tt)
      (order-IsTradable 42 b's', tt) (λ o h. inl (rw h refl)) (ground arith)

-- The first two orders that the test trader prepares.
abbrev alpha_steps : List Step
alpha_steps =
    sniper_sends (new_order (λ n. n * n) (λ i. 0) 1)
    ∷ rounds
    ∷ sniper_sends (new_order (λ n. n * n) (λ i. 0) 2)
    ∷ rounds
    ∷ []

abbrev alpha_rest : List UserOrder
unfolding prepare_from
alpha_rest = prepare_from (λ n. n * n) (λ i. 0) 99_997 3

alpha_sent : sniper_sent alpha_steps ++ alpha_rest ≡ prepare (λ n. n * n) (λ i. 0)
unfolding prepare prepare_from alpha_rest
alpha_sent = refl

match_engine-prepare_example :
    (g : Gateway) × (Gateway.run
        (order_gateway (roomy _) (roomy _) (roomy _) (λ n. n) (λ o. o))
        alpha_steps
      ≡ ok g)
    × (e : Engine) × (matching_engine 10_001
          (polls readings g.lob_orders.sent)
          (match_engine (roomy _) (roomy _) (roomy _) (λ n. n) 3)
        ≡ ok e)
    × IsRunning max_price_tick e
match_engine-prepare_example =
    match_engine-prepare (λ n. n * n) (λ i. 0) alpha_rest alpha_steps (roomy _) (roomy _) (roomy _)
      (λ n. n) (λ o. o) readings (roomy _) (roomy _) (roomy _) (λ n. n) 3 10_001 refl alpha_sent
      refl (λ o h. inl (rw h refl)) (ground arith)
