-- ===== src/System/Session.antt =====
-- main.cpp: a session. The traders' orders pass the gateway, and the engine takes what it sends.
use trade_engine.Prelude.{
  ℕ, Bool, ◌+◌, suc, ◌-◌, ◌≤◌, ◌<◌, ◌≡◌, sym, ◌∙◌, ap, List, [], ◌++◌, length, length-append, arith,
  ok, Each, Each-left, get_elem?-Each_all, Each-Interleaves,
}
use trade_engine.Structs.{LobOrder, LobAck, UserOrder, UserAck, BroadCast, LogElement}
use trade_engine.Outbox.{Outbox, HasRoom}
use trade_engine.Gateway
use trade_engine.Gateway.{Gateway, Step, lut_length}
use trade_engine.Gateway.Run.{sniper_sent, maker_sent, sends, sends_lem, run-Interleaves}
use trade_engine.Engine.{Engine}
use trade_engine.Engine.Handlers.{matching_engine}
use trade_engine.Engine.Running.{IsRunning, init-IsRunning, init-queue_time}
use trade_engine.Engine.Measured.{served, matching_engine-queue_time}
use trade_engine.Engine.Fresh.{init-IsBelow, matching_engine-AreCreations}
use trade_engine.Alpha.Fill.{order_num, prepare, IsPrepared, prepare-IsPrepared}
use trade_engine.System.{max_price_tick, match_engine, order_gateway}
use trade_engine.System.Supply.{
  IsTradable, polls, ready, found, length-found, found-polls, IsFaithful-AreCreations,
}

-- Where every order of the two traders is tradable (a creation of lots at a price of the book, not
-- its first one for a buy order), where the broadcast queue is drained, and with more rounds for
-- matching than there are prices, a session that starts with nothing sent and in which at most
-- `lut_length` orders are sent goes through: the gateway returns, in whatever order
-- the traders write and it runs, and the engine that main.cpp starts returns at whatever readings
-- of its queue. It takes what the gateway has sent from the front, one order at each reading that
-- comes after the next one has been published and there is one, so that all are taken where there
-- are as many such readings; it has noted a waiting time for each order taken; and its books are
-- sound then, so that no live bid reaches a live ask.
pub match_engine-IsRunning :
    (steps : List Step) (lob : Outbox LobOrder) (sniper_ack : Outbox UserAck)
    (gateway_to_logger : Outbox LogElement) (gateway_cycles : ℕ → ℕ) (seen : LobOrder → LobOrder)
    (readings : List Bool) (lob_ack : Outbox LobAck) (broad_cast : Outbox BroadCast)
    (match_to_log : Outbox LogElement) (cycles : ℕ → ℕ) (patience fuel : ℕ)
    → lob.sent ≡ []
    → sends steps ≤ lut_length
    → Each (IsTradable max_price_tick) (sniper_sent steps)
    → Each (IsTradable max_price_tick) (maker_sent steps)
    → ((o : Outbox BroadCast) → o.room ≡ broad_cast.room → HasRoom patience o)
    → max_price_tick < fuel
    → (g : Gateway) × (Gateway.run
          (order_gateway lob sniper_ack gateway_to_logger gateway_cycles seen)
          steps
        ≡ ok g)
      × (e : Engine) × (matching_engine fuel
            (polls readings g.lob_orders.sent)
            (match_engine lob_ack broad_cast match_to_log cycles patience)
          ≡ ok e)
      × IsRunning max_price_tick e
      × (rest : List LobOrder) × (found (polls readings g.lob_orders.sent) ++ rest
          ≡ g.lob_orders.sent)
      × (length rest ≡ length g.lob_orders.sent - ready readings)
      × (length e.queue_time ≡ length (found (polls readings g.lob_orders.sent)))
match_engine-IsRunning steps lob sniper_ack gateway_to_logger gateway_cycles seen readings lob_ack
      broad_cast match_to_log cycles patience fuel empty few tradable tradable' drained enough =
    let (g, sniper, maker, history, runs, faithful, merged, from_sniper, from_maker) =
      run-Interleaves steps lob sniper_ack gateway_to_logger gateway_cycles seen empty few in
    let all : Each (IsTradable max_price_tick) history =
      Each-Interleaves (IsTradable max_price_tick) merged
        (Each-left (IsTradable max_price_tick) sniper g.sniper_orders (rw from_sniper at tradable))
        (Each-left (IsTradable max_price_tick) maker g.maker_orders (rw from_maker at tradable')) in
    let (e, runs', running) =
      matching_engine-AreCreations max_price_tick fuel 0 (polls readings g.lob_orders.sent) _ enough
        (init-IsRunning max_price_tick lob_ack broad_cast match_to_log cycles patience (omega arith)
          drained)
        (init-IsBelow max_price_tick lob_ack broad_cast match_to_log cycles patience)
        (IsFaithful-AreCreations max_price_tick history g readings faithful all) in
    let slots = polls readings g.lob_orders.sent in
    let (rest, parts, left) = found-polls readings g.lob_orders.sent in
    let noted : length e.queue_time ≡ length (found slots) =
      matching_engine-queue_time fuel slots _ e runs'
      ∙ ap (λ times. length times + served slots)
          (init-queue_time max_price_tick lob_ack broad_cast match_to_log cycles patience)
      ∙ omega (arith, length-found slots) in
    (g, runs, e, runs', running, rest, parts, left, noted)

IsPrepared-IsTradable : (i : ℕ) (u : UserOrder) → IsPrepared i u → IsTradable max_price_tick u
IsPrepared-IsTradable i u p = record {
  created = p.created;
  lots = omega (arith, p.positive, p.small);
  price_tick = p.price_tick;
  priced = p.priced;
  within = omega (arith, p.ceiling);
  above = λ b. omega (arith, p.floor);
}

-- With the test trader alone, nothing is asked of the orders: whatever `rand` gives, and however
-- many of the prepared orders have been sent, in whatever order it sends and the gateway runs, and
-- at whatever readings of its queue, the gateway and the engine that main.cpp starts return, and
-- the books are sound, provided that nothing has been sent to the engine before, that the
-- broadcast queue is drained, and that there are more rounds for matching than prices.
pub match_engine-prepare :
    (rand out : ℕ → ℕ) (rest : List UserOrder) (steps : List Step) (lob : Outbox LobOrder)
    (sniper_ack : Outbox UserAck) (gateway_to_logger : Outbox LogElement) (gateway_cycles : ℕ → ℕ)
    (seen : LobOrder → LobOrder) (readings : List Bool) (lob_ack : Outbox LobAck)
    (broad_cast : Outbox BroadCast) (match_to_log : Outbox LogElement) (cycles : ℕ → ℕ)
    (patience fuel : ℕ)
    → lob.sent ≡ []
    → sniper_sent steps ++ rest ≡ prepare rand out
    → maker_sent steps ≡ []
    → ((o : Outbox BroadCast) → o.room ≡ broad_cast.room → HasRoom patience o)
    → max_price_tick < fuel
    → (g : Gateway) × (Gateway.run
          (order_gateway lob sniper_ack gateway_to_logger gateway_cycles seen)
          steps
        ≡ ok g)
      × (e : Engine) × (matching_engine fuel
            (polls readings g.lob_orders.sent)
            (match_engine lob_ack broad_cast match_to_log cycles patience)
          ≡ ok e)
      × IsRunning max_price_tick e
match_engine-prepare rand out rest steps lob sniper_ack gateway_to_logger gateway_cycles seen
      readings lob_ack broad_cast match_to_log cycles patience fuel empty sent none_made drained
      enough =
    let (long, each) = prepare-IsPrepared rand out in
    let all : Each (IsTradable max_price_tick) (prepare rand out) =
      get_elem?-Each_all (IsTradable max_price_tick) (prepare rand out)
        (λ k u h. IsPrepared-IsTradable (suc k) u (each k u h)) in
    let few : length (sniper_sent steps) + length rest ≡ order_num - 1 =
      sym (length-append (sniper_sent steps) rest) ∙ ap length sent ∙ long in
    let (g, runs, e, runs', running, _, _, _, _) =
      match_engine-IsRunning steps lob sniper_ack gateway_to_logger gateway_cycles seen readings
        lob_ack broad_cast match_to_log cycles patience fuel empty
        (omega (arith, few, sends_lem steps, ap length none_made))
        (Each-left (IsTradable max_price_tick) (sniper_sent steps) rest (rw (← sent) at all))
        (rw none_made tt) drained enough in
    (g, runs, e, runs', running)
