-- ===== src/Alpha/Server.antt =====
-- alpha_tester.cpp: the whole of `AlphaRun`. The flags are set by main.cpp: each round of the wait
-- reads `start`, and `terminate` if it must, and the answers are any sequences.
use trade_engine.Prelude.{ℕ, ◌≡◌, Bool, ◌++◌, Result, ok, ◌>>=◌, if◌then◌else◌}
use trade_engine.Structs.{UserOrder}
use trade_engine.Flags.{await_start, Behaves, await_start-Behaves}
use trade_engine.Outbox.{Outbox}
use trade_engine.Alpha.{alpha_run, IsDrained, alpha_run-sent}
use trade_engine.Alpha.Fill.{prepare}

-- `AlphaRun`.
pub alpha_server :
    ℕ
    → ℕ
    → (ℕ → ℕ)
    → (ℕ → ℕ)
    → (ℕ → Bool)
    → (ℕ → Bool)
    → Outbox UserOrder
    → Result (Outbox UserOrder)
alpha_server rounds patience rand out start terminate queue = do
  sends ← await_start rounds start terminate 0
  if sends then alpha_run patience (prepare rand out) queue else ok queue

-- Where the gateway makes room within the patience of each spin, `AlphaRun` ends in one of three
-- ways. If a reading of the start flag is the first of either flag to be up, it returns and has
-- sent all prepared orders, each once and in their order. If a reading of the terminate flag is,
-- it returns and has sent nothing. If none is within the rounds, it still waits.
pub alpha_server_lem :
    (rounds patience : ℕ) (rand out : ℕ → ℕ) (start terminate : ℕ → Bool) (queue : Outbox UserOrder)
    → IsDrained patience queue
    → (queue' : Outbox UserOrder) × (queue'.sent ≡ queue.sent ++ prepare rand out)
      × Behaves rounds start terminate
          (ok queue')
          (ok queue)
          (alpha_server rounds patience rand out start terminate queue)
unfolding alpha_server
alpha_server_lem rounds patience rand out start terminate queue d =
    let (queue', runs, sent) = alpha_run-sent patience (prepare rand out) queue d in
    (queue', sent, rw runs (await_start-Behaves rounds start terminate (ok queue') (ok queue)))
