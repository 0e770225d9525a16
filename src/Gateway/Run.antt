-- ===== src/Gateway/Run.antt =====
-- order_gateway/order_gateway.cpp: `run`, with the traders and the engine that write its queues.
use trade_engine.Prelude.{
  ℕ, suc, ◌+◌, ◌≤◌, ◌≡◌, refl, sym, ◌∙◌, ap, List, [], ◌∷◌, ◌++◌, length, length-append, arith,
  Result, ok, ◌>>=◌, Interleaves, neither, append_assoc, append-nil,
}
use trade_engine.Structs.{LobOrder, UserOrder, UserAck, LogElement}
use trade_engine.Outbox.{Outbox}
use trade_engine.Gateway.{
  Gateway, init, lut_length, round, Step, sniper_sends, maker_sends, engine_acks, rounds, step, run,
}
use trade_engine.Gateway.History.{IsFaithful}
use trade_engine.Gateway.Handle.{same-IsFaithful}
use trade_engine.Gateway.Acks.{with_acks-IsSame}
use trade_engine.Gateway.Take.{
  pending, Advances, Advances-balance, Advances-then, with_queues-IsFaithful, round_lem,
}

-- The orders that the steps bring, by their queue.
abbrev pub sniper_sent : List Step → List UserOrder
sniper_sent [] = []
sniper_sent (sniper_sends u ∷ steps) = u ∷ sniper_sent steps
sniper_sent (maker_sends u ∷ steps) = sniper_sent steps
sniper_sent (engine_acks a ∷ steps) = sniper_sent steps
sniper_sent (rounds ∷ steps) = sniper_sent steps

abbrev pub maker_sent : List Step → List UserOrder
maker_sent [] = []
maker_sent (sniper_sends u ∷ steps) = maker_sent steps
maker_sent (maker_sends u ∷ steps) = u ∷ maker_sent steps
maker_sent (engine_acks a ∷ steps) = maker_sent steps
maker_sent (rounds ∷ steps) = maker_sent steps

abbrev pub sends : List Step → ℕ
sends [] = 0
sends (sniper_sends u ∷ steps) = suc (sends steps)
sends (maker_sends u ∷ steps) = suc (sends steps)
sends (engine_acks a ∷ steps) = sends steps
sends (rounds ∷ steps) = sends steps

pub sends_lem :
    (steps : List Step) → sends steps ≡ length (sniper_sent steps) + length (maker_sent steps)
sends_lem [] = omega arith
sends_lem (sniper_sends u ∷ steps) = omega (arith, sends_lem steps)
sends_lem (maker_sends u ∷ steps) = omega (arith, sends_lem steps)
sends_lem (engine_acks a ∷ steps) = sends_lem steps
sends_lem (rounds ∷ steps) = sends_lem steps

-- The gateway with all orders of the steps in its queues from the start.
abbrev ahead_of_time : List Step → Gateway → Gateway
ahead_of_time steps g = record g {
  sniper_orders = g.sniper_orders ++ sniper_sent steps;
  maker_orders = g.maker_orders ++ maker_sent steps;
}

with_more :
    (history : List UserOrder) (g g' : Gateway) (r r' : Result Gateway)
    → Advances history g r
    → g.sniper_orders ≡ g'.sniper_orders
    → g.maker_orders ≡ g'.maker_orders
    → r' ≡ r
    → Advances history g' r'
with_more history g g' r r' a s m e = record {
  state = a.state;
  sniper = a.sniper;
  maker = a.maker;
  added = a.added;
  runs = e ∙ a.runs;
  faithful = a.faithful;
  merged = a.merged;
  from_sniper = sym s ∙ a.from_sniper;
  from_maker = sym m ∙ a.from_maker;
}

run_from :
    (steps : List Step) (history : List UserOrder) (g : Gateway)
    → IsFaithful history g
    → length history + pending g + sends steps ≤ lut_length
    → Advances history (ahead_of_time steps g) (run g steps)
unfolding run step
run_from [] history g f h = record {
  state = g;
  sniper = [];
  maker = [];
  added = [];
  runs = refl;
  faithful = rw (append-nil history) f;
  merged = neither;
  from_sniper = append-nil g.sniper_orders;
  from_maker = append-nil g.maker_orders;
}
run_from (sniper_sends u ∷ steps) history g f h =
    let g₁ = record g { sniper_orders = g.sniper_orders ++ u ∷ [] } in
    with_more history (ahead_of_time steps g₁) _ (run g₁ steps) _
      (run_from steps history g₁ (with_queues-IsFaithful history _ g.maker_orders g f)
        (omega (arith, h, length-append g.sniper_orders (u ∷ []))))
      (append_assoc g.sniper_orders (u ∷ []) (sniper_sent steps)) refl refl
run_from (maker_sends u ∷ steps) history g f h =
    let g₁ = record g { maker_orders = g.maker_orders ++ u ∷ [] } in
    with_more history (ahead_of_time steps g₁) _ (run g₁ steps) _
      (run_from steps history g₁ (with_queues-IsFaithful history g.sniper_orders _ g f)
        (omega (arith, h, length-append g.maker_orders (u ∷ []))))
      refl (append_assoc g.maker_orders (u ∷ []) (maker_sent steps)) refl
run_from (engine_acks a ∷ steps) history g f h =
    let g₁ = record g { lob_acks = g.lob_acks ++ a ∷ [] } in
    with_more history (ahead_of_time steps g₁) _ (run g₁ steps) _
      (run_from steps history g₁
        (same-IsFaithful history g _ (with_acks-IsSame _ g.sniper_acks g) f) h)
      refl refl refl
run_from (rounds ∷ steps) history g f h =
    let a = round_lem history g f (omega arith) in
    let later : Advances history (ahead_of_time steps g) (ok (ahead_of_time steps a.state)) =
      record {
        state = ahead_of_time steps a.state;
        sniper = a.sniper;
        maker = a.maker;
        added = a.added;
        runs = refl;
        faithful = with_queues-IsFaithful (history ++ a.added) _ _ a.state a.faithful;
        merged = a.merged;
        from_sniper =
            ap (λ q. q ++ sniper_sent steps) a.from_sniper
            ∙ append_assoc a.sniper a.state.sniper_orders (sniper_sent steps);
        from_maker =
            ap (λ q. q ++ maker_sent steps) a.from_maker
            ∙ append_assoc a.maker a.state.maker_orders (maker_sent steps);
      } in
    Advances-then history (ahead_of_time steps g) (ok (ahead_of_time steps a.state))
      (run a.state steps) _ later
      (run_from steps (history ++ a.added) a.state a.faithful
        (omega (arith, h, Advances-balance history g (round g) a)))
      (rw (a.runs, ◌>>=◌))

-- The constructor's gateway has no history.
pub init-IsFaithful :
    (lob_orders : Outbox LobOrder) (sniper_acks : Outbox UserAck) (logger : Outbox LogElement)
    (cycles : ℕ → ℕ) (seen : LobOrder → LobOrder)
    → lob_orders.sent ≡ []
    → IsFaithful [] (init lob_orders sniper_acks logger cycles seen)
unfolding init
init-IsFaithful lob_orders sniper_acks logger cycles seen h = record {
  counted = refl;
  within = omega arith;
  named = λ k u e. cc;
  mapped = λ id. refl;
  sent = rw h tt;
  ascending = rw h tt;
}

run_init :
    (steps : List Step) (lob_orders : Outbox LobOrder) (sniper_acks : Outbox UserAck)
    (logger : Outbox LogElement) (cycles : ℕ → ℕ) (seen : LobOrder → LobOrder)
    → lob_orders.sent ≡ []
    → sends steps ≤ lut_length
    → Advances []
        (ahead_of_time steps (init lob_orders sniper_acks logger cycles seen))
        (run (init lob_orders sniper_acks logger cycles seen) steps)
unfolding init
run_init steps lob_orders sniper_acks logger cycles seen e h =
    run_from steps [] (init lob_orders sniper_acks logger cycles seen)
      (init-IsFaithful lob_orders sniper_acks logger cycles seen e) (omega (arith, h))

-- From the start, in whatever order the traders and the engine write and the gateway runs, and
-- while at most `lut_length` orders are sent to it, the gateway returns. The orders that it has
-- handled are a list in which the position of each is its system id; the LUT and the map say so;
-- what the engine is sent are requests of that list, with its fields and under its system id,
-- each under a higher id than those before; and every order sent was handled or is waiting.
pub run-IsFaithful :
    (steps : List Step) (lob_orders : Outbox LobOrder) (sniper_acks : Outbox UserAck)
    (logger : Outbox LogElement) (cycles : ℕ → ℕ) (seen : LobOrder → LobOrder)
    → lob_orders.sent ≡ []
    → sends steps ≤ lut_length
    → (history : List UserOrder) × (g : Gateway) × (run
          (init lob_orders sniper_acks logger cycles seen)
          steps
        ≡ ok g)
      × IsFaithful history g
      × (length history + pending g ≡ sends steps)
unfolding init
run-IsFaithful steps lob_orders sniper_acks logger cycles seen e h =
    let a = run_init steps lob_orders sniper_acks logger cycles seen e h in
    let balance = Advances-balance [] _ _ a in
    (a.added, a.state, a.runs, a.faithful, omega (arith, balance, sends_lem steps))

-- From the start, in whatever order the traders and the engine write and the gateway runs, and
-- while at most `lut_length` orders are sent to it, the gateway handles the orders of each queue
-- in the order in which they were sent, each once: what it has handled of the two queues,
-- merged, is the list by whose positions it numbers them, and the rest of each queue still waits.
pub run-Interleaves :
    (steps : List Step) (lob_orders : Outbox LobOrder) (sniper_acks : Outbox UserAck)
    (logger : Outbox LogElement) (cycles : ℕ → ℕ) (seen : LobOrder → LobOrder)
    → lob_orders.sent ≡ []
    → sends steps ≤ lut_length
    → (g : Gateway) × (sniper maker history : List UserOrder) × (run
          (init lob_orders sniper_acks logger cycles seen)
          steps
        ≡ ok g)
      × IsFaithful history g
      × Interleaves sniper maker history
      × (sniper_sent steps ≡ sniper ++ g.sniper_orders)
      × (maker_sent steps ≡ maker ++ g.maker_orders)
unfolding init
run-Interleaves steps lob_orders sniper_acks logger cycles seen e h =
    let a = run_init steps lob_orders sniper_acks logger cycles seen e h in
    (a.state, a.sniper, a.maker, a.added, a.runs, a.faithful, a.merged, a.from_sniper, a.from_maker)
