-- ===== src/Logger/Loop/Writes.antt =====
-- header/logger.h: what the loop has written and what it has left, from one state to another.
use trade_engine.Prelude.{
  ◌≡◌, refl, sym, ◌∙◌, ap, List, [], ◌∷◌, ◌++◌, append_assoc, Result, ok, fault, waiting, ◌>>=◌,
  Interleaves, Interleaves-append, Interleaves-blocks,
}
use trade_engine.Structs.{LogElement}
use trade_engine.Logger.{Text, write_element}
use trade_engine.Logger.Drain.{texts, AllLogged, join, drain_batch_lem}
use trade_engine.Logger.Loop.{AsyncLogger, drain_round, drains, event}

join_assoc : (r s t : Result Text) → join r (join s t) ≡ join (join r s) t
join_assoc fault s t = refl
join_assoc waiting s t = refl
join_assoc (ok a) fault t = refl
join_assoc (ok a) waiting t = refl
join_assoc (ok a) (ok b) fault = refl
join_assoc (ok a) (ok b) waiting = refl
join_assoc (ok a) (ok b) (ok c) = ap ok (sym (append_assoc a b c))

join_nil : (r : Result Text) → r ≡ join (ok []) r
join_nil fault = refl
join_nil waiting = refl
join_nil (ok a) = refl

texts-append : (xs ys : List LogElement) → texts (xs ++ ys) ≡ join (texts xs) (texts ys)
texts-append [] ys = join_nil (texts ys)
texts-append (x ∷ xs) ys =
    ap (join (write_element x [])) (texts-append xs ys)
    ∙ join_assoc (write_element x []) (texts xs) (texts ys)

-- The loop has come from `l` to `state`: the entries off the front of the two queues, merged, are
-- what it has written behind the file.
pub record Writes (l : AsyncLogger) (r : Result AsyncLogger) : Type 0 where
  pub state : AsyncLogger
  pub engine : List LogElement
  pub gateway : List LogElement
  pub written : List LogElement
  pub added : Text
  pub runs : r ≡ ok state
  pub merged : Interleaves engine gateway written
  pub printed : texts written ≡ ok added
  pub appended : state.file ≡ l.file ++ added
  pub from_engine : l.matching_engine_queue ≡ engine ++ state.matching_engine_queue
  pub from_gateway : l.order_gateway_queue ≡ gateway ++ state.order_gateway_queue

pub Writes-then :
    (l : AsyncLogger) (r r' r'' : Result AsyncLogger) (w : Writes l r)
    → Writes w.state r'
    → r'' ≡ r'
    → Writes l r''
Writes-then l r r' r'' w v e = record {
  state = v.state;
  engine = w.engine ++ v.engine;
  gateway = w.gateway ++ v.gateway;
  written = w.written ++ v.written;
  added = w.added ++ v.added;
  runs = e ∙ v.runs;
  merged = Interleaves-append w.merged v.merged;
  printed = rw (texts-append w.written v.written, w.printed, v.printed, ◌>>=◌) refl;
  appended = v.appended ∙ ap (λ t. t ++ v.added) w.appended ∙ append_assoc l.file w.added v.added;
  from_engine =
      w.from_engine
      ∙ ap (λ q. w.engine ++ q) v.from_engine
      ∙ sym (append_assoc w.engine v.engine v.state.matching_engine_queue);
  from_gateway =
      w.from_gateway
      ∙ ap (λ q. w.gateway ++ q) v.from_gateway
      ∙ sym (append_assoc w.gateway v.gateway v.state.order_gateway_queue);
}

pub drain_round-Writes :
    (l : AsyncLogger)
    → AllLogged l.matching_engine_queue
    → AllLogged l.order_gateway_queue
    → Writes l (event l drains)
unfolding event drain_round
drain_round-Writes l h k =
    let (busy, added, taken, rest, runs, split, printed) =
      drain_batch_lem l.matching_engine_queue l.file h in
    let (busy', added', taken', rest', runs', split', printed') =
      drain_batch_lem l.order_gateway_queue (l.file ++ added) k in
    record {
      state = record {
        matching_engine_queue = rest;
        order_gateway_queue = rest';
        file = (l.file ++ added) ++ added';
      };
      engine = taken;
      gateway = taken';
      written = taken ++ taken';
      added = added ++ added';
      runs = rw (runs, ◌>>=◌, runs');
      merged = Interleaves-blocks taken taken';
      printed = rw (texts-append taken taken', printed, printed', ◌>>=◌) refl;
      appended = append_assoc l.file added added';
      from_engine = split;
      from_gateway = split';
    }
