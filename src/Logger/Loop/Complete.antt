-- ===== src/Logger/Loop/Complete.antt =====
-- header/logger.h: the file holds the texts of what has been taken off the two queues.
use trade_engine.Prelude.{
  ◌≡◌, refl, sym, ◌∙◌, ap, List, [], ◌∷◌, ◌++◌, append_assoc, append-nil, Result, ok, ◌>>=◌,
  Interleaves, neither, Each-left, Each-right,
}
use trade_engine.Structs.{LogElement}
use trade_engine.Logger.Batch.{IsLogged}
use trade_engine.Logger.Drain.{texts, AllLogged}
use trade_engine.Logger.Loop.{
  AsyncLogger, start, Event, engine_logs, gateway_logs, drains, event, run,
}
use trade_engine.Logger.Loop.Writes.{Writes, Writes-then, drain_round-Writes}

-- The entries that are logged, by their queue.
abbrev pub engine_logged : List Event → List LogElement
engine_logged [] = []
engine_logged (engine_logs entry ∷ events) = entry ∷ engine_logged events
engine_logged (gateway_logs entry ∷ events) = engine_logged events
engine_logged (drains ∷ events) = engine_logged events

abbrev pub gateway_logged : List Event → List LogElement
gateway_logged [] = []
gateway_logged (engine_logs entry ∷ events) = gateway_logged events
gateway_logged (gateway_logs entry ∷ events) = entry ∷ gateway_logged events
gateway_logged (drains ∷ events) = gateway_logged events

-- The logger with all entries of the events in its queues from the start.
abbrev ahead_of_time : List Event → AsyncLogger → AsyncLogger
ahead_of_time events l = record l {
  matching_engine_queue = l.matching_engine_queue ++ engine_logged events;
  order_gateway_queue = l.order_gateway_queue ++ gateway_logged events;
}

with_more :
    (l l' : AsyncLogger) (r r' : Result AsyncLogger)
    → Writes l r
    → l.matching_engine_queue ≡ l'.matching_engine_queue
    → l.order_gateway_queue ≡ l'.order_gateway_queue
    → l.file ≡ l'.file
    → r' ≡ r
    → Writes l' r'
with_more l l' r r' w m g f e = record {
  state = w.state;
  engine = w.engine;
  gateway = w.gateway;
  written = w.written;
  added = w.added;
  runs = e ∙ w.runs;
  merged = w.merged;
  printed = w.printed;
  appended = w.appended ∙ ap (λ t. t ++ w.added) f;
  from_engine = sym m ∙ w.from_engine;
  from_gateway = sym g ∙ w.from_gateway;
}

run-Writes :
    (events : List Event) (l : AsyncLogger)
    → AllLogged (l.matching_engine_queue ++ engine_logged events)
    → AllLogged (l.order_gateway_queue ++ gateway_logged events)
    → Writes (ahead_of_time events l) (run l events)
unfolding run event
run-Writes [] l h k = record {
  state = l;
  engine = [];
  gateway = [];
  written = [];
  added = [];
  runs = refl;
  merged = neither;
  printed = refl;
  appended = sym (append-nil l.file);
  from_engine = append-nil l.matching_engine_queue;
  from_gateway = append-nil l.order_gateway_queue;
}
run-Writes (engine_logs entry ∷ events) l h k =
    let l' = record l { matching_engine_queue = l.matching_engine_queue ++ entry ∷ [] } in
    let moved = append_assoc l.matching_engine_queue (entry ∷ []) (engine_logged events) in
    with_more (ahead_of_time events l') _ (run l' events) _ (run-Writes events l' (rw moved h) k)
      moved refl refl refl
run-Writes (gateway_logs entry ∷ events) l h k =
    let l' = record l { order_gateway_queue = l.order_gateway_queue ++ entry ∷ [] } in
    let moved = append_assoc l.order_gateway_queue (entry ∷ []) (gateway_logged events) in
    with_more (ahead_of_time events l') _ (run l' events) _ (run-Writes events l' h (rw moved k))
      refl moved refl refl
run-Writes (drains ∷ events) l h k =
    let w =
      drain_round-Writes l (Each-left IsLogged l.matching_engine_queue (engine_logged events) h)
        (Each-left IsLogged l.order_gateway_queue (gateway_logged events) k) in
    let engine_moved =
      ap (λ q. q ++ engine_logged events) w.from_engine
      ∙ append_assoc w.engine w.state.matching_engine_queue (engine_logged events) in
    let gateway_moved =
      ap (λ q. q ++ gateway_logged events) w.from_gateway
      ∙ append_assoc w.gateway w.state.order_gateway_queue (gateway_logged events) in
    let later : Writes (ahead_of_time events l) (ok (ahead_of_time events w.state)) = record {
      state = ahead_of_time events w.state;
      engine = w.engine;
      gateway = w.gateway;
      written = w.written;
      added = w.added;
      runs = refl;
      merged = w.merged;
      printed = w.printed;
      appended = w.appended;
      from_engine = engine_moved;
      from_gateway = gateway_moved;
    } in
    Writes-then (ahead_of_time events l) (ok (ahead_of_time events w.state)) (run w.state events) _
      later
      (run-Writes events w.state (Each-right IsLogged w.engine _ (rw engine_moved at h))
        (Each-right IsLogged w.gateway _ (rw gateway_moved at k)))
      (rw (w.runs, ◌>>=◌))

-- Whatever the order in which the engine and the gateway log and the loop drains their queues, and
-- where every entry holds the record of its log id, with fields in range and a price that can be
-- cast, the loop returns. Its file is the texts of the entries that it has taken off the two
-- queues, each written once, as on its own, and those of each queue in the order in which they
-- were logged; the entries that it has not taken are still in the queues, so that those are not
-- in the file when the logger is stopped.
pub run-texts :
    (events : List Event)
    → AllLogged (engine_logged events)
    → AllLogged (gateway_logged events)
    → (l : AsyncLogger) × (engine gateway written : List LogElement) × (run start events ≡ ok l)
      × Interleaves engine gateway written
      × (texts written ≡ ok l.file)
      × (engine_logged events ≡ engine ++ l.matching_engine_queue)
      × (gateway_logged events ≡ gateway ++ l.order_gateway_queue)
run-texts events h k =
    let w = run-Writes events start h k in
    (
      w.state,
      w.engine,
      w.gateway,
      w.written,
      w.runs,
      w.merged,
      w.printed ∙ ap ok (sym w.appended),
      w.from_engine,
      w.from_gateway,
    )
