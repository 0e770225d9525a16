-- ===== src/Engine/Tests/Running.antt =====
-- matching/matching.cpp: requests to an engine in whose book one sell order rests.
use trade_engine.Prelude.{
  zero, suc, leb, true, false, ◌<◌, ℕ, ◌<◌, ◌≡◌, refl, false, Option, none, some, List, [], ◌∷◌,
  ◌++◌, arith, ok, inl,
}
use trade_engine.Flags.{IsFirst, Behaves}
use trade_engine.Structs.{LobOrder}
use trade_engine.Price.{tick, float_ne}
use trade_engine.Book
use trade_engine.Book.{Book, create_at, peek_order, deref}
use trade_engine.Book.Levels.{level, without}
use trade_engine.Book.Spec.{updated_level}
use trade_engine.Book.Tests.{ask, ask_tick}
use trade_engine.Engine.{Engine, init, own, opposite, change_of, side_char}
use trade_engine.Engine.Running.{IsRunning}
use trade_engine.Engine.Delete.{delete_order-IsRunning}
use trade_engine.Engine.Update.{IsChange}
use trade_engine.Engine.Amend.{update_order-IsRunning, update_order-levels}
use trade_engine.Engine.Fresh.{IsBelow, AreCreations, matching_engine-AreCreations}
use trade_engine.Engine.Requests.{IsRequest, creates, ignored, IsSession, matching_engine-IsRunning}
use trade_engine.Engine.Server.{engine_server, readings, reported, engine_server_lem}
use trade_engine.Engine.Handlers.{local, delete_order, update_order, matching_engine}
use trade_engine.Engine.Tests.{offered, offered-IsSound, bid}

offered-IsRunning : IsRunning 5 offered
unfolding init
offered-IsRunning = record { sound = offered-IsSound; drained = λ o h. inl (rw h refl) }

offered_at : (own false offered).lut 7 ≡ some (3, 0)
unfolding init create_at Book.init
offered_at = refl

offered_peek : peek_order (own false offered) 7 ≡ some (3, 0)
unfolding init create_at Book.init peek_order
offered_peek = refl

offered_order : deref (own false offered) (3, 0) ≡ some (ask 7 4)
unfolding init create_at Book.init deref
offered_order = refl

delete_order-IsRunning_example :
    (t : ℕ) × (e' : Engine) × (delete_order false (local (ask 7 4)) offered ≡ ok (t, e'))
    × IsRunning 5 e'
    × (opposite false e' ≡ opposite false offered)
    × ((q : ℕ) → q < 5 → level (own false e') q ≡ without 7 (level (own false offered) q))
    × (e'.broadcast.sent
        ≡ offered.broadcast.sent ++ change_of (ask 7 4) b'D' (side_char false) ∷ [])
delete_order-IsRunning_example =
    delete_order-IsRunning false 5 3 0 3 (ask 7 4) offered offered-IsRunning offered_at ask_tick

-- The order moved to 0.2f, and the order with 9 lots.
abbrev cheaper : LobOrder
cheaper = record (ask 7 6) { price = 0x3e4ccccd }

cheaper-IsChange : IsChange false 5 2 cheaper
unfolding tick
cheaper-IsChange = record {
  priced = refl;
  price_in = ground arith;
  above = λ s. cc;
  positive = ground arith;
}

larger-IsChange : IsChange false 5 3 (ask 7 9)
larger-IsChange = record {
  priced = ask_tick;
  price_in = ground arith;
  above = λ s. cc;
  positive = ground arith;
}

update_order-IsRunning_example :
    (t : ℕ) × (order' : LobOrder) × (e' : Engine) × (update_order 6 false cheaper offered
      ≡ ok (t, order', e'))
    × IsRunning 5 e'
update_order-IsRunning_example =
    update_order-IsRunning false 5 3 0 2 3 6 cheaper (ask 7 4) offered offered-IsRunning
      offered_peek offered_order ask_tick cheaper-IsChange (ground arith)

same_price : float_ne 0x3e99999a 0x3e99999a ≡ false
unfolding float_ne
same_price = refl

update_order-levels_example :
    (t : ℕ) × (e' : Engine) × (update_order 6 false (ask 7 9) offered ≡ ok (t, ask 7 9, e'))
    × IsRunning 5 e'
    × (opposite false e' ≡ opposite false offered)
    × ((q : ℕ)
        → q < 5
        → level (own false e') q ≡ updated_level (ask 7 9) 3 4 q (level (own false offered) q))
    × (e'.broadcast.sent
        ≡ offered.broadcast.sent ++ change_of (ask 7 9) b'U' (side_char false) ∷ [])
update_order-levels_example =
    update_order-levels false 5 3 0 3 6 (ask 7 9) (ask 7 4) offered offered-IsRunning offered_peek
      offered_order larger-IsChange same_price (λ h. ground arith)

bid-IsRequest : IsRequest 5 offered (bid 9)
unfolding init create_at Book.init
bid-IsRequest =
    creates 3 refl
      (record {
        fresh = refl;
        id_in = ground arith;
        priced = ask_tick;
        price_in = ground arith;
        positive = ground arith;
      })
      (λ _. ground arith)

-- A bid that matches, an empty queue, and a request of an unknown type.
abbrev slots : List (Option LobOrder)
slots = some (bid 9) ∷ none ∷ some (record (bid 2) { req_type = b'x' }) ∷ []

slots-IsSession : IsSession 5 6 slots offered
slots-IsSession = (
  bid-IsRequest,
  λ e' _. (ignored (λ h. ground arith) (λ h. ground arith) (λ h. ground arith), λ _ _. tt),
)

matching_engine-IsRunning_example :
    (e' : Engine) × (matching_engine 6 slots offered ≡ ok e') × IsRunning 5 e'
matching_engine-IsRunning_example =
    matching_engine-IsRunning 5 6 slots offered (ground arith) offered-IsRunning slots-IsSession

offered-IsBelow : IsBelow 8 offered
unfolding init create_at Book.init
offered-IsBelow true id h = refl
offered-IsBelow false id h = ground arith

-- Two bids under the next ids, with an empty queue between them.
abbrev bids : List (Option LobOrder)
bids = some (bid 9) ∷ none ∷ some (record (bid 2) { system_id = 9 }) ∷ []

bids-AreCreations : AreCreations 5 8 bids
bids-AreCreations = (
  refl,
  ground arith,
  ground arith,
  ground arith,
  (3, ask_tick, ground arith, λ _. ground arith),
  (
    refl,
    ground arith,
    ground arith,
    ground arith,
    (3, ask_tick, ground arith, λ _. ground arith),
    tt,
  ),
)

matching_engine-AreCreations_example :
    (e' : Engine) × (matching_engine 6 bids offered ≡ ok e') × IsRunning 5 e'
matching_engine-AreCreations_example =
    matching_engine-AreCreations 5 6 8 bids offered (ground arith) offered-IsRunning offered-IsBelow
      bids-AreCreations

-- The same requests, by the round that finds them.
slot_at : ℕ → Option LobOrder
slot_at zero = some (bid 9)
slot_at (suc zero) = none
slot_at (suc (suc k)) = some (record (bid 2) { req_type = b'x' })

slot_at-IsSession : IsSession 5 6 (readings 3 slot_at 0) offered
unfolding slot_at
slot_at-IsSession = slots-IsSession

third-IsFirst : IsFirst (λ k. leb 3 k) 0 3
third-IsFirst = record { down = λ j low high. ground arith; up = refl }

-- The engine is started at the third reading, and stopped after three rounds.
engine_server_lem_example :
    (e' : Engine) × (matching_engine 6 (readings 3 slot_at 0) offered ≡ ok e')
    × IsRunning 5 e'
    × Behaves 4
        (λ n. leb 2 n)
        (λ n. false)
        (reported e')
        (ok (none, offered))
        (engine_server 6 4 5 (λ n. leb 2 n) (λ n. false) (λ k. leb 3 k) slot_at offered)
engine_server_lem_example =
    engine_server_lem 5 6 4 5 3 (λ n. leb 2 n) (λ n. false) (λ k. leb 3 k) slot_at offered
      (ground arith) offered-IsRunning (ground arith) third-IsFirst slot_at-IsSession
