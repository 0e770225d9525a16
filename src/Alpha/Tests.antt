-- ===== src/Alpha/Tests.antt =====
-- alpha_tester.cpp: two orders through a queue that is full at every other attempt.
use trade_engine.Prelude.{
  ℕ, suc, ◌-◌, ◌*◌, false, some, leb, length, get_elem?, refl, ◌%◌, ◌≡◌, [], ◌++◌, ok, ◌==◌,
  Bool-cases, inl, inr, arith,
}
use trade_engine.Structs.{UserOrder}
use trade_engine.Flags.{Behaves}
use trade_engine.Outbox.{Outbox}
use trade_engine.Alpha.{IsDrained}
use trade_engine.Alpha.Fill.{order_num, price_at, prepare, IsPrepared, prepare-IsPrepared}
use trade_engine.Alpha.Server.{alpha_server, alpha_server_lem}

abbrev order : ℕ → UserOrder
order id = record {
  arrived_cycle_count = 0;
  order_id = id;
  trader_id = 1;
  order_type = b'b';
  req_type = b'c';
  price = 0x42dc999a;
  quantity = 7;
  out_cycle_count = 0;
}

abbrev queue : Outbox UserOrder
queue = record { sent = []; room = λ n. n % 2 == 1; attempts = 0 }

queue-IsDrained : IsDrained 2 queue
queue-IsDrained o h = elim (Bool-cases (o.attempts % 2 == 1)) [
  | inl t ↦ inl (rw h t)
  | inr t ↦ inr (inl (rw h (ground arith)))
]

-- 110.0f, 110.3f and 150.0f.
price_tests : (price_at 0 ≡ 0x42dc0000) × (price_at 3 ≡ 0x42dc999a) × (price_at 400 ≡ 0x43160000)
unfolding price_at
price_tests = (refl, refl, refl)

prepare-IsPrepared_example :
    (length (prepare (λ n. n * n) (λ i. 0)) ≡ order_num - 1)
    × ((k : ℕ) (u : UserOrder)
        → get_elem? (prepare (λ n. n * n) (λ i. 0)) k ≡ some u
        → IsPrepared (suc k) u)
prepare-IsPrepared_example = prepare-IsPrepared (λ n. n * n) (λ i. 0)

-- The start flag is up from the third reading on.
alpha_server_lem_example :
    (queue' : Outbox UserOrder) × (queue'.sent ≡ queue.sent ++ prepare (λ n. n * n) (λ i. 0))
    × Behaves 5
        (λ n. leb 2 n)
        (λ n. false)
        (ok queue')
        (ok queue)
        (alpha_server 5 2 (λ n. n * n) (λ i. 0) (λ n. leb 2 n) (λ n. false) queue)
alpha_server_lem_example =
    alpha_server_lem 5 2 (λ n. n * n) (λ i. 0) (λ n. leb 2 n) (λ n. false) queue queue-IsDrained
