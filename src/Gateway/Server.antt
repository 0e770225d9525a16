-- ===== src/Gateway/Server.antt =====
-- order_gateway/order_gateway.cpp: the whole of `run`, from the flags to the printing. `arrivals k`
-- is what the writers of the queues add before round `k`, and `stop k` what that round's reading of
-- `terminate_order_gateway` answers; `start` and `terminate` are the readings before the loop.
use trade_engine.Prelude.{
  ℕ, zero, suc, ◌<◌, ◌≤◌, ◌≡◌, refl, ◌∙◌, Bool, Option, none, some, List, [], ◌∷◌, ◌++◌, arith,
  Result, ok, fault, waiting, ◌>>=◌, if◌then◌else◌, Interleaves,
}
use trade_engine.Structs.{LobOrder, UserOrder, LobAck, UserAck, LogElement}
use trade_engine.Outbox.{Outbox}
use trade_engine.Flags.{
  await_start, until_terminated, times, IsFirst, bind_ext, until_terminated_lem, Behaves,
  await_start-Behaves,
}
use trade_engine.Bench.{Percentiles}
use trade_engine.Bench.Report.{gateway_report}
use trade_engine.Gateway.{
  Gateway, init, lut_length, Step, sniper_sends, maker_sends, engine_acks, rounds, step, run,
}
use trade_engine.Gateway.History.{IsFaithful}
use trade_engine.Gateway.Run.{sends, sniper_sent, maker_sent, run-Interleaves}

-- What a writer of a queue adds to it.
pub data Arrival : Type 0 where
  from_sniper from_maker : UserOrder → Arrival
  from_engine : LobAck → Arrival

abbrev pub step_of : Arrival → Step
step_of (from_sniper order) = sniper_sends order
step_of (from_maker order) = maker_sends order
step_of (from_engine ack) = engine_acks ack

-- The arrivals, then the steps `after`.
abbrev pub then_steps : List Arrival → List Step → List Step
then_steps [] after = after
then_steps (a ∷ arrivals) after = step_of a ∷ then_steps arrivals after

-- The steps of the `n` rounds from `k` on.
abbrev pub schedule : ℕ → (ℕ → List Arrival) → ℕ → List Step
schedule zero arrivals k = []
schedule (suc n) arrivals k = then_steps (arrivals k) (rounds ∷ schedule n arrivals (suc k))

-- The report at the end: what is printed, and the gateway that is left.
abbrev pub reported : Gateway → Result (Option Percentiles × Gateway)
reported g = gateway_report g >>= λ report. ok (some report, g)

-- A round of the loop, after what arrives before it.
abbrev pub round_at : (ℕ → List Arrival) → ℕ → Gateway → Result Gateway
round_at arrivals k g = run g (then_steps (arrivals k) (rounds ∷ []))

-- `run`; a thread that is told to stop before it is started prints nothing.
pub gateway_server :
    ℕ
    → ℕ
    → (ℕ → Bool)
    → (ℕ → Bool)
    → (ℕ → Bool)
    → (ℕ → List Arrival)
    → Gateway
    → Result (Option Percentiles × Gateway)
gateway_server waits turns start terminate stop arrivals g = do
  runs ← await_start waits start terminate 0
  if runs then until_terminated turns stop (round_at arrivals) 0 g >>= reported else ok (none, g)

bind_assoc {ℓ} :
    {S : Type ℓ} (r : Result S) (f h : S → Result S) → (r >>= f >>= h) ≡ (r >>= λ s. f s >>= h)
bind_assoc fault f h = refl
bind_assoc waiting f h = refl
bind_assoc (ok s) f h = refl

run-then_steps :
    (arrivals : List Arrival) (after : List Step) (g : Gateway)
    → (run g (then_steps arrivals (rounds ∷ [])) >>= λ g'. run g' after)
      ≡ run g (then_steps arrivals (rounds ∷ after))
unfolding run
run-then_steps [] after g = bind_assoc (step g rounds) (λ g'. ok g') (λ g'. run g' after)
run-then_steps (a ∷ arrivals) after g =
    bind_assoc (step g (step_of a)) _ _
    ∙ bind_ext (step g (step_of a)) _ _ (λ g'. run-then_steps arrivals after g')

times-schedule :
    (n : ℕ) (arrivals : ℕ → List Arrival) (k : ℕ) (g : Gateway)
    → times n (round_at arrivals) k g ≡ run g (schedule n arrivals k)
unfolding times run
times-schedule zero arrivals k g = refl
times-schedule (suc n) arrivals k g =
    bind_ext (round_at arrivals k g) _ _ (λ g'. times-schedule n arrivals (suc k) g')
    ∙ run-then_steps (arrivals k) (schedule n arrivals (suc k)) g

-- Let the flag be up first in reading `n` of the loop, and let at most `lut_length` orders arrive
-- before the `n` rounds before it. Then those rounds return from the constructor's gateway: it has
-- handled the orders of each queue in the order in which they were sent, each once, and the rest of
-- each queue still waits. If a reading of the start flag is the first of the two flags to be up,
-- `run` is these rounds and the report of the gateway that they leave. If a reading of the
-- terminate flag is, it returns and has done nothing. If none is, it still waits.
pub gateway_server_lem :
    (waits turns n : ℕ) (start terminate stop : ℕ → Bool) (arrivals : ℕ → List Arrival)
    (lob_orders : Outbox LobOrder) (sniper_acks : Outbox UserAck) (logger : Outbox LogElement)
    (cycles : ℕ → ℕ) (seen : LobOrder → LobOrder)
    → lob_orders.sent ≡ []
    → sends (schedule n arrivals 0) ≤ lut_length
    → n < turns
    → IsFirst stop 0 n
    → (g : Gateway) × (sniper maker history : List UserOrder) × (run
          (init lob_orders sniper_acks logger cycles seen)
          (schedule n arrivals 0)
        ≡ ok g)
      × IsFaithful history g
      × Interleaves sniper maker history
      × (sniper_sent (schedule n arrivals 0) ≡ sniper ++ g.sniper_orders)
      × (maker_sent (schedule n arrivals 0) ≡ maker ++ g.maker_orders)
      × Behaves waits start terminate
          (reported g)
          (ok (none, init lob_orders sniper_acks logger cycles seen))
          (gateway_server waits turns start terminate stop arrivals
            (init lob_orders sniper_acks logger cycles seen))
unfolding gateway_server
gateway_server_lem waits turns n start terminate stop arrivals lob_orders sniper_acks logger cycles
      seen none_sent few h first =
    let g₀ = init lob_orders sniper_acks logger cycles seen in
    let (g, sniper, maker, history, runs, faithful, merged, sniper_part, maker_part) =
      run-Interleaves (schedule n arrivals 0) lob_orders sniper_acks logger cycles seen none_sent
        few in
    let loop : until_terminated turns stop (round_at arrivals) 0 g₀ ≡ ok g =
      until_terminated_lem n turns stop (round_at arrivals) 0 n g₀ h (omega arith) first
      ∙ times-schedule n arrivals 0 g₀
      ∙ runs in
    (
      g,
      sniper,
      maker,
      history,
      runs,
      faithful,
      merged,
      sniper_part,
      maker_part,
      rw (loop, ◌>>=◌) (await_start-Behaves waits start terminate (reported g) (ok (none, g₀))),
    )
