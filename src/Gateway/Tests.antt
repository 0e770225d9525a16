-- ===== src/Gateway/Tests.antt =====
-- order_gateway/order_gateway.cpp: a trader sends two orders, and the second is acknowledged.
use trade_engine.Prelude.{
  zero, suc, ◌<◌, leb, ◌≤◌, none, ℕ, ◌%◌, ◌^◌, ◌≡◌, refl, true, false, some, List, [], ◌∷◌, ◌++◌,
  length, arith, ok, fault, ◌⊎◌, Interleaves,
}
use trade_engine.Flags.{IsFirst, Behaves}
use trade_engine.Structs.{gateway_receive_user_order, user_order, LobAck, UserOrder}
use trade_engine.Outbox.{offer, Outbox, has_room}
use trade_engine.Bench.{Percentiles}
use trade_engine.Bench.Report.{Reports, gateway_report}
use trade_engine.Gateway.Printed.{run-gateway_report}
use trade_engine.Gateway.{
  send_order, write_log, cycle_passed, step, round, take_sniper_order, take_maker_order, take_order,
  assign_system_id, write_log_now, Gateway, init, lut_length, assigned, get_system_id,
  system_to_order_id, process_order, take_ack, run, Step, sniper_sends, maker_sends, engine_acks,
  rounds, insert,
}
use trade_engine.Gateway.History.{IsFaithful, assigned-IsFaithful}
use trade_engine.Gateway.Run.{sends, sniper_sent, maker_sent, init-IsFaithful, run-Interleaves}
use trade_engine.Gateway.Server.{
  Arrival, from_sniper, from_maker, from_engine, schedule, reported, gateway_server,
  gateway_server_lem,
}
use trade_engine.Gateway.Lookup.{
  system_to_order_id-get_system_id, take_ack-known, process_order-cases,
}

abbrev roomy : (A : Type 0) → Outbox A
roomy A = record { sent = []; room = λ _. true; attempts = 0 }

abbrev order : ℕ → UserOrder
order id = record {
  arrived_cycle_count = 0;
  order_id = id;
  trader_id = 1;
  order_type = b'b';
  req_type = b'c';
  price = 0x3e99999a;
  quantity = 7;
  out_cycle_count = 0;
}

abbrev ack : LobAck
ack = record { system_id = 0; price = 0x40400000; quantity = 7; side = b'b'; status = b'N' }

abbrev steps : List Step
steps = sniper_sends (order 41) ∷ maker_sends (order 42) ∷ rounds ∷ engine_acks ack ∷ rounds ∷ []

abbrev start : Gateway
start = init (roomy _) (roomy _) (roomy _) (λ n. n) (λ o. o)

-- The gateway that has given the order 41 its system id.
abbrev known : Gateway
known = record (assigned 41 start) { lob_acks = ack ∷ [] }

known-IsFaithful : IsFaithful (order 41 ∷ []) known
known-IsFaithful = record {
  counted = f.counted;
  within = f.within;
  named = f.named;
  mapped = f.mapped;
  sent = f.sent;
  ascending = f.ascending;
}
  where
    f : IsFaithful (order 41 ∷ []) (assigned 41 start)
    f =
        assigned-IsFaithful [] (order 41) start
          (init-IsFaithful (roomy _) (roomy _) (roomy _) (λ n. n) (λ o. o) refl) (ground arith)

known_id : get_system_id 41 known ≡ some 0
unfolding get_system_id insert init
known_id = refl

system_to_order_id-get_system_id_example : system_to_order_id 0 known ≡ 41
system_to_order_id-get_system_id_example =
    system_to_order_id-get_system_id (order 41 ∷ []) 41 0 known known-IsFaithful known_id

take_ack-known_example :
    let g' = take_ack (ack ∷ []) known in
    (has_room known.sniper_acks ≡ true)
      × (g'.sniper_acks.sent
          ≡ known.sniper_acks.sent
            ++ record {
              order_id = 41 % 2 ^ 32;
              price = 0x40400000;
              quantity = 7;
              side = b'b';
              status = b'N';
              pad = 0;
            }
              ∷ [])
      × (g'.lob_acks ≡ [])
    ⊎ (has_room known.sniper_acks ≡ false)
      × (g'.sniper_acks.sent ≡ known.sniper_acks.sent)
      × (g'.lob_acks ≡ ack ∷ [])
take_ack-known_example =
    take_ack-known (order 41 ∷ []) (order 41) ack [] known known-IsFaithful refl refl

process_order-cases_example :
    ((1 < lut_length)
      × (g' : Gateway) × (process_order (order 42) known ≡ ok g')
      × IsFaithful (order 41 ∷ order 42 ∷ []) g')
    ⊎ ((1 ≡ lut_length) × (process_order (order 42) known ≡ fault))
process_order-cases_example = process_order-cases (order 41 ∷ []) (order 42) known known-IsFaithful

run-Interleaves_example :
    (g : Gateway) × (sniper maker history : List UserOrder) × (run start steps ≡ ok g)
    × IsFaithful history g
    × Interleaves sniper maker history
    × (order 41 ∷ [] ≡ sniper ++ g.sniper_orders)
    × (order 42 ∷ [] ≡ maker ++ g.maker_orders)
run-Interleaves_example =
    run-Interleaves steps (roomy _) (roomy _) (roomy _) (λ n. n) (λ o. o) refl (ground arith)

-- The same steps, by the round before which they arrive.
arrives_at : ℕ → List Arrival
arrives_at zero = from_sniper (order 41) ∷ from_maker (order 42) ∷ []
arrives_at (suc zero) = from_engine ack ∷ []
arrives_at (suc (suc k)) = []

few_arrive : sends (schedule 2 arrives_at 0) ≤ lut_length
unfolding arrives_at
few_arrive = ground arith

second-IsFirst : IsFirst (λ k. leb 2 k) 0 2
second-IsFirst = record { down = λ j low high. ground arith; up = refl }

-- The gateway is started at the first reading, and stopped after two rounds.
gateway_server_lem_example :
    (g : Gateway) × (sniper maker history : List UserOrder) × (run start (schedule 2 arrives_at 0)
      ≡ ok g)
    × IsFaithful history g
    × Interleaves sniper maker history
    × (sniper_sent (schedule 2 arrives_at 0) ≡ sniper ++ g.sniper_orders)
    × (maker_sent (schedule 2 arrives_at 0) ≡ maker ++ g.maker_orders)
    × Behaves 1
        (λ n. true)
        (λ n. false)
        (reported g)
        (ok (none, start))
        (gateway_server 1 3 (λ n. true) (λ n. false) (λ k. leb 2 k) arrives_at start)
gateway_server_lem_example =
    gateway_server_lem 1 3 2 (λ n. true) (λ n. false) (λ k. leb 2 k) arrives_at (roomy _) (roomy _)
      (roomy _) (λ n. n) (λ o. o) refl few_arrive (ground arith) second-IsFirst

-- One order that has been sent to the engine.
abbrev sent_one : Gateway
sent_one =
    record (send_order 0 0 (order 41) (
      assigned 41
        (write_log gateway_receive_user_order 0 (user_order (order 41)) (cycle_passed start)))) {
          sniper_orders = [];
        }

run-sent_one : run start (sniper_sends (order 41) ∷ rounds ∷ []) ≡ ok sent_one
unfolding run step round take_sniper_order take_maker_order take_order take_ack process_order
    assign_system_id send_order write_log_now init insert system_to_order_id offer
run-sent_one = refl

one_sent : length sent_one.lob_orders.sent ≡ 1
unfolding send_order write_log_now init offer
one_sent = refl

run-gateway_report_example :
    (length sent_one.order_gateway_time ≡ length sent_one.lob_orders.sent)
    × (((0 < length sent_one.lob_orders.sent)
          × (printed : Percentiles) × (gateway_report sent_one ≡ ok printed)
          × Reports sent_one.order_gateway_time printed)
        ⊎ ((length sent_one.lob_orders.sent ≡ 0) × (gateway_report sent_one ≡ fault)))
run-gateway_report_example =
    run-gateway_report (sniper_sends (order 41) ∷ rounds ∷ []) (roomy _) (roomy _) (roomy _)
      (λ n. n) (λ o. o) sent_one refl run-sent_one (omega (arith, one_sent))
