-- ===== src/Engine/Printed.antt =====
-- matching/matching.cpp, header/bench.h: the benchmarks that the engine prints when its loop ends.
use trade_engine.Prelude.{
  ◌+◌, ℕ, zero, suc, ◌<◌, ◌≡◌, refl, Option, List, [], ◌∷◌, length, arith, ok, fault, ◌>>=◌, ◌^◌,
  ◌⊎◌, inl, inr,
}
use native.Mathlib.Decide.{dec_lt}
use trade_engine.Structs.{LobOrder, LobAck, BroadCast, LogElement}
use trade_engine.Outbox.{Outbox}
use trade_engine.Engine.{Engine, init}
use trade_engine.Engine.Handlers.{matching_engine}
use trade_engine.Bench.{Percentiles}
use trade_engine.Bench.Report.{Reports, show_benchmark-Reports, show_benchmark-empty, engine_report}
use trade_engine.Engine.Measured.{served, IsMeasured, matching_engine-IsMeasured, init-IsMeasured}

-- What is printed of a run in which two orders have been measured or more.
pub record AllReports (e : Engine) (printed : List Percentiles) : Type 0 where
  pub queue : Percentiles
  pub through : Percentiles
  pub processing : Percentiles
  pub to_trade : Percentiles
  pub four : printed ≡ queue ∷ through ∷ processing ∷ to_trade ∷ []
  pub queue_reports : Reports e.queue_time queue
  pub through_reports : Reports e.throughput through
  pub processing_reports : Reports e.matching_processing_time processing
  pub tick_reports : Reports e.tick_to_trade to_trade

engine_report-AllReports :
    (k : ℕ) (e : Engine)
    → IsMeasured k e
    → 1 < k
    → k < 2 ^ 31
    → (printed : List Percentiles) × (engine_report e ≡ ok printed) × AllReports e printed
unfolding engine_report
engine_report-AllReports k e m h n =
    let (q, ran_q, rq) =
      show_benchmark-Reports e.queue_time (omega (arith, m.queued)) (omega (arith, m.queued)) in
    let (t, ran_t, rt) =
      show_benchmark-Reports e.throughput (omega (arith, m.through)) (omega (arith, m.through)) in
    let (p, ran_p, rp) =
      show_benchmark-Reports e.matching_processing_time (omega (arith, m.processed))
        (omega (arith, m.processed)) in
    let (d, ran_d, rd) =
      show_benchmark-Reports e.tick_to_trade (omega (arith, m.traded)) (omega (arith, m.traded)) in
    (
      q ∷ t ∷ p ∷ d ∷ [],
      rw (ran_q, ◌>>=◌, ran_t, ran_p, ran_d) refl,
      record {
        queue = q;
        through = t;
        processing = p;
        to_trade = d;
        four = refl;
        queue_reports = rq;
        through_reports = rt;
        processing_reports = rp;
        tick_reports = rd;
      },
    )

no_throughput : (times : List ℕ) → length times ≡ 0 → times ≡ []
no_throughput [] h = refl
no_throughput (t ∷ times) h = absurd (omega (arith, h))

engine_report-few : (k : ℕ) (e : Engine) → IsMeasured k e → k < 2 → engine_report e ≡ fault
unfolding engine_report
engine_report-few zero e m h =
    rw (no_throughput e.queue_time m.queued, show_benchmark-empty, ◌>>=◌) refl
engine_report-few (suc k) e m h =
    let (q, ran, _) =
      show_benchmark-Reports e.queue_time (omega (arith, m.queued)) (omega (arith, m.queued)) in
    rw (ran, ◌>>=◌, no_throughput e.throughput (omega (arith, m.through)), show_benchmark-empty)
      refl

-- Of the constructor's engine, with a cycle counter that never shows 0: when its loop has returned
-- from readings that found fewer than 2^31 orders, the printing of the benchmarks shows the
-- percentiles of all four measures where there were two orders or more, and is an access out of
-- range where there were fewer.
pub matching_engine-engine_report :
    (max fuel : ℕ) (acks : Outbox LobAck) (broadcast : Outbox BroadCast) (log : Outbox LogElement)
    (cycles : ℕ → ℕ) (patience : ℕ) (slots : List (Option LobOrder)) (e : Engine)
    → ((j : ℕ) → 0 < cycles j)
    → served slots < 2 ^ 31
    → matching_engine fuel slots (init max acks broadcast log cycles patience) ≡ ok e
    → ((1 < served slots)
        × (printed : List Percentiles) × (engine_report e ≡ ok printed)
        × AllReports e printed)
      ⊎ ((served slots < 2) × (engine_report e ≡ fault))
matching_engine-engine_report max fuel acks broadcast log cycles patience slots e ticks few runs =
    let all : 0 + served slots ≡ served slots = omega arith in
    let m : IsMeasured (served slots) e = rw all at (
      matching_engine-IsMeasured 0 fuel slots (init max acks broadcast log cycles patience) e
        (init-IsMeasured max acks broadcast log cycles patience ticks) runs) in
    elim (dec_lt 1 (served slots)) [
      | yes h ↦
          let (printed, ran, reports) = engine_report-AllReports (served slots) e m h few in
          inl (h, printed, ran, reports)
      | no h ↦
          let less : served slots < 2 = omega arith in
          inr (less, engine_report-few (served slots) e m less)
    ]
