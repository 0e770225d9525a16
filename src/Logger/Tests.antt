-- ===== src/Logger/Tests.antt =====
-- header/logger.h: an entry for an order.
use trade_engine.Prelude.{
  ◌≤◌, ◌<◌, ◌≡◌, refl, List, [], ◌∷◌, ◌++◌, length, ltb, arith, ok, fault, inr, Interleaves,
}
use trade_engine.Price.{sign, exponent, fraction, scale, round_shift, bit_length}
use trade_engine.Structs.{LogElement, lob_order, me_receive_order}
use trade_engine.Book.Tests.{ask}
use trade_engine.Logger.{
  Text, codes, limit, buffer_size, convert_u64_to_str, int_part, float_to_char, drain_batch,
  fill_temp, until_nul, frac_part, significand, scale_of,
}
use trade_engine.Logger.Digits.{read_from, AllDigits, convert_u64_to_str-read_from}
use trade_engine.Logger.Bounds.{IsPrintable}
use trade_engine.Logger.Batch.{IsLogged}
use trade_engine.Logger.Drain.{texts, drain_batch-fits}
use trade_engine.Logger.Mismatch.{IsLogged-IsWritable, drain_batch-fault}
use trade_engine.Logger.Loop.{AsyncLogger, start, Event, engine_logs, gateway_logs, drains, run}
use trade_engine.Logger.Loop.Complete.{run-texts}

abbrev entry : LogElement
entry = record { log_id = me_receive_order; timestamp = 77; log_data = lob_order (ask 7 4) }

number_test : convert_u64_to_str 2026 (codes "n = ") ≡ ok (codes "n = 2026")
unfolding convert_u64_to_str fill_temp until_nul
number_test = refl

convert_u64_to_str-read_from_example :
    (digits : Text) × (convert_u64_to_str 2026 (codes "n = ") ≡ ok (codes "n = " ++ digits))
    × (read_from 0 digits ≡ 2026)
    × (length digits ≤ 20)
    × AllDigits digits
convert_u64_to_str-read_from_example =
    convert_u64_to_str-read_from 2026 (codes "n = ") (ground arith)

price_prints : IsPrintable 0x3e99999a
unfolding int_part significand scale_of exponent fraction scale sign
price_prints = (0, refl)

-- 110.3f prints as it was written.
price_test : float_to_char 0x42dc999a [] ≡ ok (codes "110.30")
unfolding float_to_char int_part frac_part significand scale_of exponent fraction scale sign
    round_shift bit_length convert_u64_to_str fill_temp until_nul
price_test = refl

entry-IsLogged : IsLogged entry
entry-IsLogged = record {
  id = ground arith;
  time = ground arith;
  data_fits = (
    ground arith,
    ground arith,
    record {
      arrival = ground arith;
      id = ground arith;
      price = price_prints;
      quantity = ground arith;
      trader = ground arith;
      out = ground arith;
    },
  );
}

drain_batch-fits_example :
    (text : Text) × (taken rest : List LogElement) × (drain_batch (entry ∷ []) []
      ≡ ok (ltb 0 (length taken), rest, [] ++ text))
    × (entry ∷ [] ≡ taken ++ rest)
    × (length taken ≤ limit)
    × (length text < buffer_size)
drain_batch-fits_example = drain_batch-fits (entry ∷ []) [] (entry-IsLogged, tt)

-- An entry of each writer, and one that comes too late.
abbrev events : List Event
events = engine_logs entry ∷ gateway_logs entry ∷ drains ∷ engine_logs entry ∷ []

run-texts_example :
    (l : AsyncLogger) × (engine gateway written : List LogElement) × (run start events ≡ ok l)
    × Interleaves engine gateway written
    × (texts written ≡ ok l.file)
    × (entry ∷ entry ∷ [] ≡ engine ++ l.matching_engine_queue)
    × (entry ∷ [] ≡ gateway ++ l.order_gateway_queue)
run-texts_example = run-texts events (entry-IsLogged, (entry-IsLogged, tt)) (entry-IsLogged, tt)

-- An order under the log id of an acknowledgement.
abbrev bad : LogElement
bad = record { log_id = 8; timestamp = 78; log_data = lob_order (ask 7 4) }

drain_batch-fault_example : drain_batch ((entry ∷ []) ++ bad ∷ []) [] ≡ fault
drain_batch-fault_example =
    drain_batch-fault (entry ∷ []) [] bad [] (IsLogged-IsWritable entry entry-IsLogged, tt)
      (ground arith) (ground arith) (inr (ground arith, ground arith)) (ground arith)
