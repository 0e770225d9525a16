-- ===== src/Gateway/Printed.antt =====
-- order_gateway/order_gateway.cpp, header/bench.h: the benchmark that the gateway prints when its
-- loop ends. It has noted one time for each order that it has sent to the engine.
use trade_engine.Prelude.{
  ℕ, ◌^◌, ◌<◌, ◌≡◌, refl, List, [], ◌∷◌, length, length-append, arith, ok, fault, ◌>>=◌, bind_ok,
  ◌⊎◌, inl, inr,
}
use native.Mathlib.Decide.{dec_lt}
use trade_engine.Structs.{LobOrder, UserOrder, LobAck, UserAck, LogElement}
use trade_engine.Outbox.{Outbox}
use trade_engine.Bench.{Percentiles}
use trade_engine.Bench.Report.{
  Reports, show_benchmark-Reports, show_benchmark-empty, gateway_report,
}
use trade_engine.Gateway.{
  Gateway, init, write_log_now, send_order, assign_system_id, process_order, take_order,
  take_sniper_order, take_maker_order, pass_ack, take_ack, round, Step, sniper_sends, maker_sends,
  engine_acks, rounds, step, run,
}

-- As many times have been noted as orders have been sent.
abbrev IsTimed : Gateway → Type 0
IsTimed g = length g.order_gateway_time ≡ length g.lob_orders.sent

send_order-IsTimed :
    (arrival sys_id : ℕ) (order : UserOrder) (g : Gateway)
    → IsTimed g
    → IsTimed (send_order arrival sys_id order g)
unfolding send_order write_log_now
send_order-IsTimed arrival sys_id order g h = grind (arith, length-append)

process_order-IsTimed :
    (order : UserOrder) (g g' : Gateway) → IsTimed g → process_order order g ≡ ok g' → IsTimed g'
unfolding process_order assign_system_id
process_order-IsTimed order g g' h runs = grind (arith, send_order-IsTimed)

take_sniper_order-IsTimed : (g g' : Gateway) → IsTimed g → take_sniper_order g ≡ ok g' → IsTimed g'
unfolding take_sniper_order take_order
take_sniper_order-IsTimed g g' h runs = grind (arith, process_order-IsTimed)

take_maker_order-IsTimed : (g g' : Gateway) → IsTimed g → take_maker_order g ≡ ok g' → IsTimed g'
unfolding take_maker_order take_order
take_maker_order-IsTimed g g' h runs = grind (arith, process_order-IsTimed)

take_ack-IsTimed : (acks : List LobAck) (g : Gateway) → IsTimed g → IsTimed (take_ack acks g)
unfolding take_ack pass_ack write_log_now
take_ack-IsTimed [] g h = h
take_ack-IsTimed (ack ∷ rest) g h = ground arith

step-IsTimed : (s : Step) (g g' : Gateway) → IsTimed g → step g s ≡ ok g' → IsTimed g'
unfolding step round
step-IsTimed (sniper_sends order) g g' h runs = ground arith
step-IsTimed (maker_sends order) g g' h runs = ground arith
step-IsTimed (engine_acks ack) g g' h runs = ground arith
step-IsTimed rounds g g' h runs =
    let (g₁, first, rest) =
      bind_ok (take_sniper_order g) (λ x. take_maker_order x >>= λ y. ok (take_ack y.lob_acks y)) g'
        runs in
    let (g₂, second, last) =
      bind_ok (take_maker_order g₁) (λ y. ok (take_ack y.lob_acks y)) g' rest in
    let timed : IsTimed g₂ =
      take_maker_order-IsTimed g₁ g₂ (take_sniper_order-IsTimed g g₁ h first) second in
    let all : IsTimed (take_ack g₂.lob_acks g₂) = take_ack-IsTimed g₂.lob_acks g₂ timed in
    ground arith

run-IsTimed : (steps : List Step) (g g' : Gateway) → IsTimed g → run g steps ≡ ok g' → IsTimed g'
unfolding run
run-IsTimed [] g g' h runs = ground arith
run-IsTimed (s ∷ steps) g g' h runs =
    let (g₁, first, rest) = bind_ok (step g s) (λ x. run x steps) g' runs in
    run-IsTimed steps g₁ g' (step-IsTimed s g g₁ h first) rest

no_times : (times : List ℕ) → length times ≡ 0 → times ≡ []
no_times [] h = refl
no_times (t ∷ times) h = absurd (omega (arith, h))

-- When the constructor's gateway has run through any steps, and has sent fewer than 2^31 orders to
-- the engine, the printing of its benchmark shows the percentiles of the times of the orders sent
-- where there is one or more, and is an access out of range where none has been sent.
pub run-gateway_report :
    (steps : List Step) (lob_orders : Outbox LobOrder) (sniper_acks : Outbox UserAck)
    (logger : Outbox LogElement) (cycles : ℕ → ℕ) (seen : LobOrder → LobOrder) (g : Gateway)
    → lob_orders.sent ≡ []
    → run (init lob_orders sniper_acks logger cycles seen) steps ≡ ok g
    → length g.lob_orders.sent < 2 ^ 31
    → (length g.order_gateway_time ≡ length g.lob_orders.sent)
      × (((0 < length g.lob_orders.sent)
            × (printed : Percentiles) × (gateway_report g ≡ ok printed)
            × Reports g.order_gateway_time printed)
          ⊎ ((length g.lob_orders.sent ≡ 0) × (gateway_report g ≡ fault)))
unfolding init gateway_report
run-gateway_report steps lob_orders sniper_acks logger cycles seen g none_sent runs few =
    let timed : IsTimed g =
      run-IsTimed steps (init lob_orders sniper_acks logger cycles seen) g (rw none_sent refl)
        runs in
    (
      timed,
      elim (dec_lt 0 (length g.lob_orders.sent)) [
        | yes h ↦
            let (printed, ran, reports) =
              show_benchmark-Reports g.order_gateway_time (omega (arith, timed))
                (omega (arith, timed)) in
            inl (h, printed, ran, reports)
        | no h ↦ inr (
          omega arith,
          rw (no_times g.order_gateway_time (omega (arith, timed))) show_benchmark-empty,
        )
      ],
    )
