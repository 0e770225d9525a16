-- ===== src/Logger/Loop.antt =====
-- header/logger.h: `run`, which drains the two queues in turn until `stop` has been called.
pub mod Writes
pub mod Complete
use trade_engine.Prelude.{Bool, ◌||◌, List, [], ◌∷◌, ◌++◌, Result, ok, ◌>>=◌, if◌then◌else◌}
use trade_engine.Structs.{LogElement}
use trade_engine.Logger.{Text, drain_batch}

-- The two queues, as the lists of what they hold, and the text of the file.
pub record AsyncLogger : Type 0 where
  pub matching_engine_queue : List LogElement
  pub order_gateway_queue : List LogElement
  pub file : Text

-- The constructor, and the file that `run` opens and cuts to nothing.
abbrev pub start : AsyncLogger
start = record { matching_engine_queue = []; order_gateway_queue = []; file = [] }

-- The body of the loop, and whether it was busy.
pub drain_round : AsyncLogger → Result (Bool × AsyncLogger)
drain_round l = do
  (busy, engine, file) ← drain_batch l.matching_engine_queue l.file
  (busy', gateway, file') ← drain_batch l.order_gateway_queue file
  ok (
    busy || busy',
    record { matching_engine_queue = engine; order_gateway_queue = gateway; file = file' },
  )

-- What happens, in order, until `running` is read as false: the two writers log, and the loop runs.
pub data Event : Type 0 where
  engine_logs gateway_logs : LogElement → Event
  drains : Event

pub event : AsyncLogger → Event → Result AsyncLogger
event l (engine_logs entry) =
    ok (record l { matching_engine_queue = l.matching_engine_queue ++ entry ∷ [] })
event l (gateway_logs entry) =
    ok (record l { order_gateway_queue = l.order_gateway_queue ++ entry ∷ [] })
event l drains = do (busy, l') ← drain_round l; ok l'

pub run : AsyncLogger → List Event → Result AsyncLogger
run l [] = ok l
run l (e ∷ events) = do l' ← event l e; run l' events
