-- ===== src/Engine/Match.antt =====
-- matching/matching.cpp: `aggresiveMatch` returns, and serves the other side in price and time
-- priority.
use trade_engine.Prelude.{
  ◌++◌, ℕ, zero, suc, ◌-◌, ◌≤◌, ◌<◌, ◌≡◌, ◌≢◌, inl, inr, refl, sym, ◌∙◌, ap, Bool, true, false, not,
  some, List, [], ◌∷◌, arith, Bool-cases, List-cases, ◌==◌, le→leb, lt→leb, ◌>>=◌,
}
use native.Mathlib.Decide.{dec_lt, dec_le}
use trade_engine.Structs.{LobOrder}
use trade_engine.Price.{tick}
use trade_engine.Book
use trade_engine.Book.{Book}
use trade_engine.Book.Rows.{live, total}
use trade_engine.Book.Inv.{IsBest}
use trade_engine.Book.Depth.{live_count-live}
use trade_engine.Engine.{Engine, opposite, beyond, aggressive_match}
use trade_engine.Engine.Consume.{consume, consume-all}
use trade_engine.Engine.Fills.{
  IsFillWithin, IsFillAt, IsFillAt-IsFillWithin, Acked-then, Acked-mono, Fill, fills_at,
}
use trade_engine.Engine.Filled.{AreFills-step}
use trade_engine.Engine.Row.{Served, trade_row_lem}
use trade_engine.Engine.Sweep.{IsReady, Swept-stopped, Swept-step}
use trade_engine.Engine.Progress.{
  measure, out_of_reach, no_better, row_missing, row_empty, measure-falls, measure_pos,
}
use trade_engine.Engine.Matched.{Matched, IsBest-of, stays, Matched-filled}

module _ (is_buy : Bool) (price : ℕ) where
  module _ (order : LobOrder) (e : Engine) (ready : IsReady is_buy e)
      (priced : tick order.price ≡ some price) (wanted : (order.quantity == 0) ≡ false) where
    abbrev b : Book
    b = opposite is_buy e

    is_best : IsBest (not is_buy) b.best_price b.book b.max_price_possible
    is_best = IsBest-of is_buy price e ready

    Matched-beyond :
        (fuel : ℕ)
        → beyond is_buy price b.best_price ≡ true
        → Matched is_buy price (suc fuel) order e
    unfolding aggressive_match Book.get_optimal_price
    Matched-beyond fuel t =
        stays is_buy price (suc fuel) order e ready (rw (wanted, priced, ◌>>=◌, t)) (
          Swept-stopped is_buy price _ _ order.quantity
            (out_of_reach b.best_price b.max_price_possible b.book is_buy price is_best t))

    module _ (reach : beyond is_buy price b.best_price ≡ false) where
      Matched-missing :
          (fuel : ℕ) → b.max_price_possible ≤ b.best_price → Matched is_buy price (suc fuel) order e
      unfolding aggressive_match Book.get_optimal_price Book.get_order_at_price
      Matched-missing fuel t =
          stays is_buy price (suc fuel) order e ready
            (rw (wanted, priced, ◌>>=◌, reach, le→leb _ _ t))
            (Swept-stopped is_buy price _ _ order.quantity
              (λ p h k. row_missing b.best_price b.max_price_possible b.book is_buy is_best t p h))

      Matched-empty :
          (fuel : ℕ)
          → b.best_price < b.max_price_possible
          → b.book b.best_price ≡ []
          → Matched is_buy price (suc fuel) order e
      unfolding aggressive_match Book.get_optimal_price Book.get_order_at_price
      Matched-empty fuel h t =
          stays is_buy price (suc fuel) order e ready
            (rw (wanted, priced, ◌>>=◌, reach, lt→leb _ _ h, t))
            (Swept-stopped is_buy price _ _ order.quantity
              (λ p k l. row_empty b.best_price b.max_price_possible b.book is_buy is_best h t p k))

      module _ (x : LobOrder) (row : List LobOrder) (best_in : b.best_price < b.max_price_possible)
          (here : b.book b.best_price ≡ x ∷ row) where
        wanted_pos : 0 < order.quantity
        wanted_pos = ground arith

        round : Served is_buy b.best_price 0 order (x ∷ row) e
        round =
            trade_row_lem is_buy b.best_price order e (x ∷ row) ready.valid best_in here wanted_pos

        nonempty : b.book b.best_price ≢ []
        nonempty t = cc (here, t)

        abbrev after : LobOrder
        after = record order { quantity = order.quantity - total (x ∷ row) }

        round_runs :
            (fuel : ℕ)
            → aggressive_match (suc fuel) is_buy order e
              ≡ aggressive_match fuel is_buy after round.state
        unfolding aggressive_match Book.get_optimal_price Book.get_order_at_price
        round_runs fuel = rw (wanted, priced, ◌>>=◌, reach, lt→leb _ _ best_in, here, round.runs)

        round-IsReady : IsReady is_buy round.state
        round-IsReady = record {
          valid = round.valid;
          side = round.frame.same_side ∙ ready.side;
          floor = λ s.
              round.frame.elsewhere 0 (λ z. nonempty (ap b.book z ∙ ready.floor s)) ∙ ready.floor s;
        }

        -- The rest of the loop, from the state after the round.
        Matched-round :
            (fuel : ℕ)
            → Matched is_buy price fuel after round.state
            → Matched is_buy price (suc fuel) order e
        Matched-round fuel m = record {
          state = m.state;
          left = m.left;
          runs = round_runs fuel ∙ m.runs;
          ready = m.ready;
          same_own = m.same_own ∙ round.frame.same_own;
          same_max = m.same_max ∙ round.frame.same_max;
          same_patience = m.same_patience ∙ round.frame.same_patience;
          same_broadcast = m.same_broadcast ∙ round.frame.same_broadcast;
          swept =
              Swept-step is_buy price order.quantity m.left b.max_price_possible b.best_price b.book
                (opposite is_buy round.state).book (opposite is_buy m.state).book best_in reach
                (no_better b.best_price b.max_price_possible b.book is_buy is_best)
                (λ p n. round.frame.elsewhere p n)
                (round.queue ∙ ap (λ r. consume order.quantity (live r)) (sym here))
                (rw here (rw round.frame.same_max at m.swept));
          fills = fills_at b.best_price order.quantity (live (x ∷ row)) ++ m.fills;
          filled = rw (ap live here) at (
              AreFills-step is_buy price order.quantity m.left b.max_price_possible b.best_price
                b.book (opposite is_buy round.state).book (opposite is_buy m.state).book best_in
                reach (no_better b.best_price b.max_price_possible b.book is_buy is_best)
                (λ p n. round.frame.elsewhere p n)
                (round.queue ∙ ap (λ r. consume order.quantity (live r)) (sym here))
                (rw here (rw round.frame.same_max at m.swept)) m.fills
                (rw here (rw round.frame.same_max at m.filled)));
          acked =
              Acked-mono within within
                (fills_at b.best_price order.quantity (live (x ∷ row)) ++ m.fills) order _ _ e
                m.state (λ f h. h) (omega (arith, m.swept.rest))
                (Acked-then within (fills_at b.best_price order.quantity (live (x ∷ row))) m.fills
                  order after.quantity _ _ e round.state m.state
                  (Acked-mono (IsFillAt b.best_price) within _ order _ _ e round.state
                    (λ f.
                      IsFillAt-IsFillWithin is_buy price b.max_price_possible b.best_price f reach
                        best_in)
                    refl round.acked)
                  (rw round.frame.same_max at m.acked));
        }
          where
            within : Fill → Type 0
            within = IsFillWithin is_buy price b.max_price_possible

        round_falls :
            total (x ∷ row) ≤ order.quantity
            → measure is_buy (opposite is_buy round.state).best_price b.max_price_possible
              < measure is_buy b.best_price b.max_price_possible
        round_falls many =
            measure-falls b.best_price b.max_price_possible b.book
              (opposite is_buy round.state).best_price (opposite is_buy round.state).book is_buy
              is_best
              (rw round.frame.same_max at (IsBest-of is_buy price round.state round-IsReady))
              best_in nonempty ready.floor
              (live_count-live ((opposite is_buy round.state).book b.best_price)
                (round.queue ∙ consume-all order.quantity (x ∷ row) many))
              (λ p n. round.frame.elsewhere p n)

  -- With more rounds than the measure of the best price, the loop returns.
  pub aggressive_match_lem :
      (fuel : ℕ) (order : LobOrder) (e : Engine)
      → IsReady is_buy e
      → tick order.price ≡ some price
      → measure is_buy (opposite is_buy e).best_price (opposite is_buy e).max_price_possible < fuel
      → Matched is_buy price fuel order e
  aggressive_match_lem zero order e ready priced f = absurd (omega arith)
  aggressive_match_lem (suc fuel) order e ready priced f = elim (Bool-cases (order.quantity == 0)) [
    | inl z ↦ Matched-filled is_buy price (suc fuel) order e ready (ground arith) (omega arith)
    | inr wanted ↦ elim (Bool-cases (beyond is_buy price (opposite is_buy e).best_price)) [
      | inl t ↦ Matched-beyond order e ready priced wanted fuel t
      | inr reach ↦
          elim (dec_lt (opposite is_buy e).best_price (opposite is_buy e).max_price_possible) [
            | no missing ↦ Matched-missing order e ready priced wanted reach fuel (omega arith)
            | yes best_in ↦
                elim (List-cases ((opposite is_buy e).book (opposite is_buy e).best_price)) [
                  | inl here ↦ Matched-empty order e ready priced wanted reach fuel best_in here
                  | inr (x, row, here) ↦
                      let go_on =
                        Matched-round order e ready priced wanted reach x row best_in here fuel in
                      let r = round order e ready priced wanted reach x row best_in here in
                      let ready' =
                        round-IsReady order e ready priced wanted reach x row best_in here in
                      elim (dec_le order.quantity (total (x ∷ row))) [
                        | yes few ↦ go_on (
                            Matched-filled is_buy price fuel _ r.state ready' (omega arith) (
                              omega (
                                arith,
                                measure_pos (opposite is_buy e).best_price
                                    (opposite is_buy e).max_price_possible (opposite is_buy e).book
                                    is_buy best_in (λ t. cc (here, t)) ready.floor,
                              )))
                        | no many ↦ go_on (
                            aggressive_match_lem fuel _ r.state ready' priced (
                              rw r.frame.same_max (
                                omega (
                                  arith,
                                  round_falls order e ready priced wanted reach x row best_in here
                                      (omega arith),
                                ))))
                      ]
                ]
          ]
    ]
  ]
