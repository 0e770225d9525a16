-- ===== src/Engine/Priority.antt =====
-- matching/matching.cpp: consequences of the sweep for the prices that an order has reached.
use trade_engine.Prelude.{
  ℕ, ◌+◌, ◌-◌, ◌≤◌, ◌<◌, ◌≡◌, ◌∙◌, Bool, true, false, some, List, [], arith, ◌==◌, if◌then◌else◌,
  ok, ==_refl, Each, ◌++◌,
}
use trade_engine.Structs.{LobOrder}
use trade_engine.Price.{tick}
use trade_engine.Book.Rows.{live_count, total}
use trade_engine.Book.Depth.{
  sum_below, sum_below-change, sum_below_mono, better, ahead, depth, live-empty, live_count-live,
}
use trade_engine.Engine.{Engine, own, opposite, beyond, aggressive_match}
use trade_engine.Engine.Consume.{consume, consume-nil, consume-all}
use trade_engine.Engine.Sweep.{IsReady, Swept}
use trade_engine.Engine.Progress.{measure}
use trade_engine.Engine.Fills.{Fill, AlwaysRoom, IsFillWithin, lots_of, acks_of}
use trade_engine.Engine.Filled.{AreFills}
use trade_engine.Engine.Match.{aggressive_match_lem}

module _ (is_buy : Bool) (price p max : ℕ) (rows : ℕ → List LobOrder) where
  reaches_better :
      (q : ℕ)
      → better is_buy q p ≡ true
      → beyond is_buy price p ≡ false
      → beyond is_buy price q ≡ false
  reaches_better q b h = elim_side is_buy b h
    where
      elim_side :
          (s : Bool) → better s q p ≡ true → beyond s price p ≡ false → beyond s price q ≡ false
      elim_side true b h = ground arith
      elim_side false b h = ground arith

  not_before_itself : better is_buy p p ≡ false
  not_before_itself = self is_buy
    where
      self : (s : Bool) → better s p p ≡ false
      self true = ground arith
      self false = ground arith

  -- What stands at a price in reach, with all that stands before it, is within the depth.
  ahead-depth :
      p < max
      → beyond is_buy price p ≡ false
      → ahead is_buy rows max p + total (rows p) ≤ depth (beyond is_buy price) rows max
  ahead-depth h k = omega (arith, counted, bounded)
    where
      upto : ℕ → ℕ
      upto q = if p == q then total (rows q) else (if better is_buy q p then total (rows q) else 0)

      counted : sum_below upto max + 0 ≡ ahead is_buy rows max p + total (rows p)
      counted =
          rw (not_before_itself, ==_refl p) at
            (sum_below-change upto (λ q. if better is_buy q p then total (rows q) else 0) max p h
              (λ q l n. ground arith))

      bounded : sum_below upto max ≤ depth (beyond is_buy price) rows max
      bounded =
          sum_below_mono upto (λ q. if beyond is_buy price q then 0 else total (rows q)) max
            λ q l. ground (arith, reaches_better q, k)

module _ (is_buy : Bool) (price q left max : ℕ) (rows rows' : ℕ → List LobOrder)
    (s : Swept is_buy price q left max rows rows') where
  -- No price gains live orders.
  pub Swept-shrinks : (p : ℕ) → p < max → live_count (rows p) ≡ 0 → live_count (rows' p) ≡ 0
  Swept-shrinks p h z =
      live_count-live (rows' p) (rw (live-empty (rows p) z) at (s.levels p h) ∙ either)
    where
      either : (if beyond is_buy price p then [] else consume (q - ahead is_buy rows max p) []) ≡ []
      either = ground (arith, consume-nil (q - ahead is_buy rows max p))

  -- While lots are left, every price in reach is used up.
  pub Swept-uncrossed :
      0 < left → (p : ℕ) → p < max → beyond is_buy price p ≡ false → live_count (rows' p) ≡ 0
  Swept-uncrossed l p h b = live_count-live (rows' p) (
      rw b at (s.levels p h)
      ∙ consume-all (q - ahead is_buy rows max p) (rows p)
          (omega (arith, s.rest, ahead-depth is_buy price p max rows h b)))

-- On a valid opposite book, which is of the other side and which for a sell order has no entry at
-- price index 0, not even a used up one (a buy book takes that price also for "no best bid"), `aggresiveMatch` of an order whose
-- price has a tick returns within more rounds than the measure of the best price, which is at most
-- the number of prices. It keeps the opposite book so, and the order's own book, the size of the
-- book and the broadcast
-- queue as they are. The order keeps all but its quantity; `left` and the queues at all prices are
-- those of the sweep in price and time priority; and lots are left only if no live order of the
-- other side is in reach.
pub aggressive_match_priority :
    (is_buy : Bool) (price fuel : ℕ) (order : LobOrder) (e : Engine)
    → IsReady is_buy e
    → tick order.price ≡ some price
    → measure is_buy (opposite is_buy e).best_price (opposite is_buy e).max_price_possible < fuel
    → (e' : Engine) × (left : ℕ) × (aggressive_match fuel is_buy order e
        ≡ ok (record order { quantity = left }, e'))
      × IsReady is_buy e'
      × (own is_buy e' ≡ own is_buy e)
      × ((opposite is_buy e').max_price_possible ≡ (opposite is_buy e).max_price_possible)
      × (e'.broadcast ≡ e.broadcast)
      × Swept is_buy price order.quantity left
          (opposite is_buy e).max_price_possible
          (opposite is_buy e).book
          (opposite is_buy e').book
      × (0 < left
          → (p : ℕ) → p < (opposite is_buy e).max_price_possible
          → beyond is_buy price p ≡ false
          → live_count ((opposite is_buy e').book p) ≡ 0)
aggressive_match_priority is_buy price fuel order e ready priced f =
    let m = aggressive_match_lem is_buy price fuel order e ready priced f in
    (
      m.state,
      m.left,
      m.runs,
      m.ready,
      m.same_own,
      m.same_max,
      m.same_broadcast,
      m.swept,
      Swept-uncrossed is_buy price order.quantity m.left (opposite is_buy e).max_price_possible
          (opposite is_buy e).book (opposite is_buy m.state).book m.swept,
    )

-- On an opposite book as for the priority of `aggresiveMatch` (valid, of the other side, and for a
-- sell order without entries at price index 0), for an order whose price has a tick, with more rounds than the measure
-- of the best price, and where the queue of acknowledgements always has room: all that
-- `aggresiveMatch` sends on it are the acknowledgements of its fills, fill by fill, to the incoming
-- order and to the resting one, of each where its trader is trader 1. The fills at each price of
-- the book that the order reaches are those of the live orders that stood there, from the front
-- of their queue: each with all its lots, and the last with as many as are still wanted behind
-- the better prices. No fill is at another price or without lots, and together they have the lots
-- that the order has lost.
pub aggressive_match-acks :
    (is_buy : Bool) (price fuel : ℕ) (order : LobOrder) (e : Engine)
    → IsReady is_buy e
    → tick order.price ≡ some price
    → measure is_buy (opposite is_buy e).best_price (opposite is_buy e).max_price_possible < fuel
    → AlwaysRoom e.lob_ack
    → (e' : Engine) × (left : ℕ) × (fills : List Fill) × (aggressive_match fuel is_buy order e
        ≡ ok (record order { quantity = left }, e'))
      × Each (IsFillWithin is_buy price (opposite is_buy e).max_price_possible) fills
      × AreFills is_buy price order.quantity
          (opposite is_buy e).max_price_possible
          (opposite is_buy e).book
          fills
      × (lots_of fills + left ≡ order.quantity)
      × (e'.lob_ack.sent ≡ e.lob_ack.sent ++ acks_of order fills)
aggressive_match-acks is_buy price fuel order e ready priced f room =
    let m = aggressive_match_lem is_buy price fuel order e ready priced f in
    (
      m.state,
      m.left,
      m.fills,
      m.runs,
      m.acked.each,
      m.filled,
      omega (arith, m.acked.counted, m.swept.rest),
      m.acked.sent room,
    )
