-- ===== src/Examples.antt =====
-- ExamplesAndTesting/lock_free_queue/lfq_logger.cpp: a producer that logs orders.
mod Tests
use trade_engine.Prelude.{
  ℕ, zero, suc, ◌+◌, ◌*◌, ◌^◌, ◌<◌, ◌≡◌, refl, List, [], ◌∷◌, arith, Result, ok, fault, ◌>>=◌, leb,
  length, false,
}
use trade_engine.Structs.{UserOrder, LogElement, user_order}
use trade_engine.Price.{Float, sign, exponent, fraction, scale}
use trade_engine.Price.Double.{round_double, tenth, float_of_double}
use trade_engine.Logger.{Text, int_part, significand, scale_of, drain_batch}
use trade_engine.Logger.Bounds.{IsPrintable}
use trade_engine.Logger.Batch.{IsWord, IsLogged}
use trade_engine.Logger.Mismatch.{IsLogged-IsWritable, unknown-IsWritable, drain_batch-fault}

abbrev pub example_size : ℕ
example_size = 10

-- `cnt*100*0.1`.
unfoldable pub example_price : ℕ → Float
unfolding round_double float_of_double
example_price cnt = float_of_double (round_double (cnt * 100 * tenth))

-- The entry number `cnt`, at the time `t`: its log id is the number. The producer does not write the
-- timestamp, which is the slot's first value.
abbrev pub example_entry : ℕ → ℕ → LogElement
example_entry t cnt = record {
  log_id = cnt;
  timestamp = 0;
  log_data = user_order (record {
    arrived_cycle_count = t;
    order_id = cnt;
    trader_id = 0;
    order_type = b'b';
    req_type = b'r';
    price = example_price cnt;
    quantity = 10;
    out_cycle_count = t;
  });
}

-- The entries from `cnt` on, by those that are left.
abbrev pub produce : (ℕ → ℕ) → ℕ → ℕ → List LogElement
produce time zero cnt = []
produce time (suc left) cnt = example_entry (time cnt) cnt ∷ produce time left (suc cnt)

price_prints : IsPrintable (example_price 1)
unfolding example_price int_part significand scale_of exponent fraction scale sign
price_prints = (10, refl)

entry-IsLogged : (t : ℕ) → IsWord t → IsLogged (example_entry t 1)
entry-IsLogged t h = record {
  id = ground arith;
  time = ground arith;
  data_fits = (
    refl,
    record {
      arrival = h;
      id = ground arith;
      trader = ground arith;
      price = price_prints;
      quantity = ground arith;
      out = h;
    },
  );
}

-- The producer gives its entries the log ids 0 to 9, and all of them hold a `UserOrder`: whatever
-- the times, the logger writes the first two and is ended by the third.
pub produce-fault :
    (time : ℕ → ℕ) (file : Text)
    → ((cnt : ℕ) → time cnt < 2 ^ 64)
    → drain_batch (produce time example_size 0) file ≡ fault
produce-fault time file h =
    drain_batch-fault (example_entry (time 0) 0 ∷ example_entry (time 1) 1 ∷ []) (produce time 7 3)
      (example_entry (time 2) 2) file
      (
        unknown-IsWritable (example_entry (time 0) 0) (ground arith) (ground arith) refl,
        (IsLogged-IsWritable (example_entry (time 1) 1) (entry-IsLogged (time 1) (h 1)), tt),
      )
      (ground arith) (ground arith) (ground arith, ground arith) (ground arith)
