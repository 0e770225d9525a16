-- ===== src/Engine/Server.antt =====
-- matching/matching.cpp: the whole of `matchingEngine`, from the flags to the printing. `slots k` is
-- what the reading of the order queue finds in round `k`, and `stop k` what that round's reading of
-- `terminate_engine` answers; `start` and `terminate` are the readings before the loop.
use trade_engine.Prelude.{
  ℕ, zero, suc, ◌<◌, ◌≡◌, refl, ◌∙◌, Bool, Option, none, some, List, [], ◌∷◌, arith, Result, ok,
  ◌>>=◌, if◌then◌else◌,
}
use trade_engine.Structs.{LobOrder}
use trade_engine.Flags.{
  await_start, until_terminated, times, IsFirst, bind_ext, until_terminated_lem, Behaves,
  await_start-Behaves,
}
use trade_engine.Bench.{Percentiles}
use trade_engine.Bench.Report.{engine_report}
use trade_engine.Engine.{Engine}
use trade_engine.Engine.Handlers.{read_order, matching_engine}
use trade_engine.Engine.Running.{IsRunning}
use trade_engine.Engine.Requests.{IsSession, matching_engine-IsRunning}

-- The report at the end: what is printed, and the engine that is left.
abbrev pub reported : Engine → Result (Option (List Percentiles) × Engine)
reported e = engine_report e >>= λ report. ok (some report, e)

-- `matchingEngine`; a thread that is told to stop before it is started prints nothing.
pub engine_server :
    ℕ
    → ℕ
    → ℕ
    → (ℕ → Bool)
    → (ℕ → Bool)
    → (ℕ → Bool)
    → (ℕ → Option LobOrder)
    → Engine
    → Result (Option (List Percentiles) × Engine)
engine_server fuel waits rounds start terminate stop slots e = do
  runs ← await_start waits start terminate 0
  if runs
      then until_terminated rounds stop (λ k. read_order fuel (slots k)) 0 e >>= reported
      else ok (none, e)

-- What the `n` readings from `k` on find.
abbrev pub readings : ℕ → (ℕ → Option LobOrder) → ℕ → List (Option LobOrder)
readings zero slots k = []
readings (suc n) slots k = slots k ∷ readings n slots (suc k)

times-read_order :
    (n fuel : ℕ) (slots : ℕ → Option LobOrder) (k : ℕ) (e : Engine)
    → times n (λ j. read_order fuel (slots j)) k e ≡ matching_engine fuel (readings n slots k) e
unfolding times matching_engine
times-read_order zero fuel slots k e = refl
times-read_order (suc n) fuel slots k e =
    bind_ext (read_order fuel (slots k) e) _ _ (λ e'. times-read_order n fuel slots (suc k) e')

-- On a sound engine whose broadcast queue is drained, with more rounds for matching than there are
-- prices, let the flag be up first in reading `n` of the loop, and let the requests that the `n`
-- rounds before it find be ones that can be taken one after the other. Then those rounds return,
-- and leave a sound engine. If a reading of the start flag is the first of the two flags to be up,
-- `matchingEngine` is these rounds and the report of that engine. If a reading of the terminate
-- flag is, it returns and has done nothing. If none is, it still waits.
pub engine_server_lem :
    (max fuel waits rounds n : ℕ) (start terminate stop : ℕ → Bool) (slots : ℕ → Option LobOrder)
    (e : Engine)
    → max < fuel
    → IsRunning max e
    → n < rounds
    → IsFirst stop 0 n
    → IsSession max fuel (readings n slots 0) e
    → (e' : Engine) × (matching_engine fuel (readings n slots 0) e ≡ ok e')
      × IsRunning max e'
      × Behaves waits start terminate
          (reported e')
          (ok (none, e))
          (engine_server fuel waits rounds start terminate stop slots e)
unfolding engine_server
engine_server_lem max fuel waits rounds n start terminate stop slots e enough r h first session =
    let (e', runs, r') =
      matching_engine-IsRunning max fuel (readings n slots 0) e enough r session in
    let loop : until_terminated rounds stop (λ k. read_order fuel (slots k)) 0 e ≡ ok e' =
      until_terminated_lem n rounds stop (λ k. read_order fuel (slots k)) 0 n e h (omega arith)
        first
      ∙ times-read_order n fuel slots 0 e
      ∙ runs in
    (
      e',
      runs,
      r',
      rw (loop, ◌>>=◌) (await_start-Behaves waits start terminate (reported e') (ok (none, e))),
    )
