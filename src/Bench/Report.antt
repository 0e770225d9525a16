-- ===== src/Bench/Report.antt =====
-- header/bench.h: what `showBenchmark` prints, and the calls of it in matching/matching.cpp and
-- order_gateway/order_gateway.cpp, when their loops have ended.
use trade_engine.Prelude.{
  ℕ, ◌*◌, ◌/◌, ◌^◌, ◌≤◌, ◌<◌, ◌≡◌, refl, ◌∙◌, ap, none, some, List, [], ◌∷◌, length, get_elem?,
  get_elem?_total, replicate, arith, Result, ok, fault, ◌>>=◌,
}
use mathlib.Core.List.{Perm}
use trade_engine.Structs.{LobAck, BroadCast, LogElement}
use trade_engine.Outbox.{Outbox}
use trade_engine.Engine.{Engine, init}
use trade_engine.Engine.Handlers.{matching_engine}
use trade_engine.Engine.Requests.{matching_engine-none}
use trade_engine.Engine.Running.{init-queue_time}
use trade_engine.Gateway.{Gateway}
use trade_engine.Bench.{
  sort, double_75, double_95, double_99, index, quarter, Percentiles, show_benchmark,
}
use trade_engine.Bench.Order.{IsSorted, IsSorted-le, sort-IsSorted, sort-Perm, length-sort}
use trade_engine.Bench.Index.{index-hundredths}

-- The printing at the end of `matchingEngine`: queue time, throughput, processing, tick to trade.
unfoldable pub engine_report : Engine → Result (List Percentiles)
engine_report e = do
  queue ← show_benchmark e.queue_time
  through ← show_benchmark e.throughput
  processing ← show_benchmark e.matching_processing_time
  tick ← show_benchmark e.tick_to_trade
  ok (queue ∷ through ∷ processing ∷ tick ∷ [])

-- The printing at the end of the gateway's `run`.
unfoldable pub gateway_report : Gateway → Result Percentiles
gateway_report g = show_benchmark g.order_gateway_time

-- The four times are those of the sorted vector at 25, 75, 95 and 99 hundredths.
pub record Reports (times : List ℕ) (p : Percentiles) : Type 0 where
  pub sorted : List ℕ
  pub same : Perm sorted times
  pub ascending : IsSorted sorted
  pub at_25 : get_elem? sorted (25 * length times / 100) ≡ some p.p50
  pub at_75 : get_elem? sorted (75 * length times / 100) ≡ some p.p75
  pub at_95 : get_elem? sorted (95 * length times / 100) ≡ some p.p95
  pub at_99 : get_elem? sorted (99 * length times / 100) ≡ some p.p99
  pub ordered : (p.p50 ≤ p.p75) × (p.p75 ≤ p.p95) × (p.p95 ≤ p.p99)

shows :
    (times : List ℕ) (a b c d : ℕ)
    → get_elem? (sort times) (quarter (length times)) ≡ some a
    → get_elem? (sort times) (index (length times) double_75) ≡ some b
    → get_elem? (sort times) (index (length times) double_95) ≡ some c
    → get_elem? (sort times) (index (length times) double_99) ≡ some d
    → show_benchmark times ≡ ok (record { p50 = a; p75 = b; p95 = c; p99 = d })
unfolding show_benchmark
shows times a b c d ea eb ec ed = rw (ea, ◌>>=◌, eb, ec, ed)

-- `showBenchmark` of at least one time, and of fewer than 2^31, stays within the vector. What it
-- prints are the times that stand at 25 (as P50), 75, 95 and 99 hundredths of the length, in an
-- ascending permutation of the vector; the four are in ascending order.
pub show_benchmark-Reports :
    (times : List ℕ)
    → 0 < length times
    → length times < 2 ^ 31
    → (p : Percentiles) × (show_benchmark times ≡ ok p) × Reports times p
show_benchmark-Reports times h k =
    let n = length times in
    let (i25, i75, i95, i99) = index-hundredths n h k in
    let at : (i : ℕ) → i < n → (a : ℕ) × (get_elem? (sort times) i ≡ some a) =
      λ i below. get_elem?_total (sort times) i (omega (arith, below, length-sort times)) in
    let near : (i j : ℕ) → i ≡ j → get_elem? (sort times) i ≡ get_elem? (sort times) j =
      λ i j same. ap (get_elem? (sort times)) same in
    let (a, ea) = at (25 * n / 100) (omega arith) in
    let (b, eb) = at (75 * n / 100) (omega arith) in
    let (c, ec) = at (95 * n / 100) (omega arith) in
    let (d, ed) = at (99 * n / 100) (omega arith) in
    let up : (i j x y : ℕ)
        → i ≤ j
        → get_elem? (sort times) i ≡ some x
        → get_elem? (sort times) j ≡ some y
        → x ≤ y =
      λ i j x y. IsSorted-le (sort times) i j x y (sort-IsSorted times) in
    (
      record { p50 = a; p75 = b; p95 = c; p99 = d },
      shows times a b c d (near _ _ i25 ∙ ea) (near _ _ i75 ∙ eb) (near _ _ i95 ∙ ec)
          (near _ _ i99 ∙ ed),
      record {
        sorted = sort times;
        same = sort-Perm times;
        ascending = sort-IsSorted times;
        at_25 = ea;
        at_75 = eb;
        at_95 = ec;
        at_99 = ed;
        ordered = (
          up _ _ a b (omega arith) ea eb,
          up _ _ b c (omega arith) eb ec,
          up _ _ c d (omega arith) ec ed,
        );
      },
    )

-- The first access to an empty vector is out of range.
pub show_benchmark-empty : show_benchmark [] ≡ fault
unfolding show_benchmark
show_benchmark-empty = refl

-- An engine that finds no order, however often it looks, ends with an access out of range when it
-- prints its benchmarks.
pub engine_report-fault :
    (rounds fuel max : ℕ) (acks : Outbox LobAck) (broadcast : Outbox BroadCast)
    (log : Outbox LogElement) (cycles : ℕ → ℕ) (patience : ℕ)
    → (matching_engine fuel (replicate rounds none) (init max acks broadcast log cycles patience)
        >>= engine_report)
      ≡ fault
unfolding engine_report
engine_report-fault rounds fuel max acks broadcast log cycles patience = rw (
  matching_engine-none rounds fuel (init max acks broadcast log cycles patience),
  ◌>>=◌,
  init-queue_time max acks broadcast log cycles patience,
  show_benchmark-empty,
)
