-- ===== src/Examples/Tests.antt =====
-- ExamplesAndTesting/lock_free_queue/lfq_logger.cpp: the prices of its orders.
use trade_engine.Prelude.{◌≡◌, refl}
use trade_engine.Examples.{example_price}

-- 10.0f and 90.0f.
price_tests : (example_price 1 ≡ 0x41200000) × (example_price 9 ≡ 0x42b40000)
unfolding example_price
price_tests = (refl, refl)
