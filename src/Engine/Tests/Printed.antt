-- ===== src/Engine/Tests/Printed.antt =====
-- matching/matching.cpp, header/bench.h: an engine that two requests reach, and its benchmarks.
use trade_engine.Prelude.{
  suc, ◌<◌, ◌≡◌, refl, Option, none, some, List, [], ◌∷◌, arith, ok, fault, ◌⊎◌, inl,
}
use trade_engine.Structs.{LobOrder, LobAck, BroadCast, LogElement}
use trade_engine.Book
use trade_engine.Book.{create_at}
use trade_engine.Book.Tests.{ask_tick}
use trade_engine.Bench.{Percentiles}
use trade_engine.Bench.Report.{engine_report}
use trade_engine.Engine.{Engine, init}
use trade_engine.Engine.Handlers.{matching_engine}
use trade_engine.Engine.Running.{IsRunning, init-IsRunning}
use trade_engine.Engine.Requests.{creates, ignored, IsSession, matching_engine-IsRunning}
use trade_engine.Engine.Measured.{served}
use trade_engine.Engine.Printed.{AllReports, matching_engine-engine_report}
use trade_engine.Engine.Tests.{roomy, bid}

abbrev fresh : Engine
fresh = init 5 (roomy LobAck) (roomy BroadCast) (roomy LogElement) (λ n. suc n) 1

fresh-IsRunning : IsRunning 5 fresh
fresh-IsRunning =
    init-IsRunning 5 (roomy LobAck) (roomy BroadCast) (roomy LogElement) (λ n. suc n) 1
      (ground arith) (λ o h. inl (rw h refl))

-- A bid that rests, an empty queue, and a request of an unknown type.
abbrev slots : List (Option LobOrder)
slots = some (bid 9) ∷ none ∷ some (record (bid 2) { req_type = b'x' }) ∷ []

slots-IsSession : IsSession 5 6 slots fresh
unfolding init Book.init
slots-IsSession = (
  creates 3 refl
      (record {
        fresh = refl;
        id_in = ground arith;
        priced = ask_tick;
        price_in = ground arith;
        positive = ground arith;
      })
      (λ _. ground arith),
  λ e' _. (ignored (λ h. ground arith) (λ h. ground arith) (λ h. ground arith), λ _ _. tt),
)

served_slots : (e : Engine) × (matching_engine 6 slots fresh ≡ ok e) × IsRunning 5 e
served_slots =
    matching_engine-IsRunning 5 6 slots fresh (ground arith) fresh-IsRunning slots-IsSession

matching_engine-engine_report_example :
    ((1 < served slots)
      × (printed : List Percentiles) × (engine_report served_slots.0 ≡ ok printed)
      × AllReports served_slots.0 printed)
    ⊎ ((served slots < 2) × (engine_report served_slots.0 ≡ fault))
matching_engine-engine_report_example =
    matching_engine-engine_report 5 6 (roomy LobAck) (roomy BroadCast) (roomy LogElement)
      (λ n. suc n) 1 slots served_slots.0 (λ j. ground arith) (ground arith) served_slots.1
