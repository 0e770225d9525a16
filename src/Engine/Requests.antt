-- ===== src/Engine/Requests.antt =====
-- matching/matching.cpp: `readOrder` and the engine's loop, on requests that the books can take.
use trade_engine.Prelude.{
  ℕ, ◌<◌, ◌≡◌, replicate, zero, suc, [], ◌≢◌, refl, Bool, true, false, Option, none, some, List, [],
  ◌∷◌, ◌++◌, arith, ok, ◌>>=◌, ◌==◌,
}
use trade_engine.Structs.{LobOrder}
use trade_engine.Price.{tick}
use trade_engine.Book.{deref, peek_order}
use trade_engine.Book.Valid.{IsNew}
use trade_engine.Engine.{Engine, own, sub64, now_cycle}
use trade_engine.Engine.Own.{own-cong}
use trade_engine.Engine.Running.{IsRunning, IsRunning-after, create_order-IsRunning}
use trade_engine.Engine.Delete.{delete_order-IsRunning}
use trade_engine.Engine.Update.{IsChange}
use trade_engine.Engine.Amend.{update_order_missing, update_order-IsRunning}
use trade_engine.Engine.Handlers.{create_order, receive, dispatch, read_order, matching_engine}

abbrev pub is_buy : LobOrder → Bool
is_buy order = order.order_type == b'b'

-- A request that finds its order, or a new order, or one that the engine ignores.
pub data IsRequest (max : ℕ) (e : Engine) (order : LobOrder) : Type 0 where
  creates :
      (p : ℕ)
      → order.req_type ≡ b'c'
      → IsNew (own (is_buy order) e) order p
      → (is_buy order ≡ true → 0 < p)
      → IsRequest max e order
  updates :
      (p c p' was : ℕ) (previous : LobOrder)
      → order.req_type ≡ b'u'
      → peek_order (own (is_buy order) e) order.system_id ≡ some (p, c)
      → deref (own (is_buy order) e) (p, c) ≡ some previous
      → tick previous.price ≡ some was
      → IsChange (is_buy order) max p' order
      → IsRequest max e order
  misses :
      order.req_type ≡ b'u'
      → peek_order (own (is_buy order) e) order.system_id ≡ none
      → IsRequest max e order
  deletes :
      (p c p' : ℕ)
      → order.req_type ≡ b'd'
      → (own (is_buy order) e).lut order.system_id ≡ some (p, c)
      → tick order.price ≡ some p'
      → IsRequest max e order
  ignored :
      order.req_type ≢ b'c' → order.req_type ≢ b'u' → order.req_type ≢ b'd' → IsRequest max e order

module _ (max fuel : ℕ) (order : LobOrder) (e : Engine) (enough : max < fuel)
    (r : IsRunning max e) where
  pub received : IsRunning max (receive order e)
  unfolding receive
  received = IsRunning-after max e (receive order e) r r.sound refl refl

  pub same_own : (s : Bool) → own s (receive order e) ≡ own s e
  unfolding receive
  same_own s = own-cong s (receive order e) e refl refl

  dispatch-IsRunning :
      IsRequest max e order
      → (t : ℕ) × (e' : Engine) × (dispatch fuel order (receive order e) ≡ ok (t, e'))
        × IsRunning max e'
  unfolding dispatch
  dispatch-IsRunning (creates p t new above) =
      let (u, order', e', runs, running) =
        create_order-IsRunning (is_buy order) max p fuel order (receive order e) received
          (rw (same_own (is_buy order)) new) above enough in
      let c : (order.req_type == b'c') ≡ true = ground arith in (u, e', rw (c, runs), running)
  dispatch-IsRunning (updates p c p' was previous t peeked shown priced change) =
      let (u, order', e', runs, running) =
        update_order-IsRunning (is_buy order) max p c p' was fuel order previous (receive order e)
          received (rw (same_own (is_buy order)) peeked) (rw (same_own (is_buy order)) shown) priced
          change enough in
      let c : (order.req_type == b'c') ≡ false = ground arith in
      let u_ : (order.req_type == b'u') ≡ true = ground arith in (u, e', rw (c, u_, runs), running)
  dispatch-IsRunning (misses t missing) =
      let c : (order.req_type == b'c') ≡ false = ground arith in
      let u : (order.req_type == b'u') ≡ true = ground arith in
      (
        0,
        receive order e,
        rw (
          c,
          u,
          update_order_missing (is_buy order) fuel order (receive order e)
              (rw (same_own (is_buy order)) missing),
        ),
        received,
      )
  dispatch-IsRunning (deletes p c p' t at priced) =
      let (u, e', runs, running, other, queues, sent) =
        delete_order-IsRunning (is_buy order) max p c p' order (receive order e) received
          (rw (same_own (is_buy order)) at) priced in
      let c : (order.req_type == b'c') ≡ false = ground arith in
      let u_ : (order.req_type == b'u') ≡ false = ground arith in
      let d : (order.req_type == b'd') ≡ true = ground arith in
      (u, e', rw (c, u_, d, runs), running)
  dispatch-IsRunning (ignored c u d) = (0, receive order e, ground arith, received)

-- The two times of a request noted, in `e'`; `e` is the engine before it.
abbrev pub booked : LobOrder → Engine → ℕ → Engine → Engine
booked order e t e' = record e' {
  matching_processing_time = e'.matching_processing_time ++ sub64 t (now_cycle e) ∷ [];
  tick_to_trade = e'.tick_to_trade ++ sub64 t order.arrival_cycle_count ∷ [];
}

pub read_none : (fuel : ℕ) (e : Engine) → read_order fuel none e ≡ ok e
unfolding read_order
read_none fuel e = refl

-- Readings that find nothing change nothing.
pub matching_engine-none :
    (rounds fuel : ℕ) (e : Engine) → matching_engine fuel (replicate rounds none) e ≡ ok e
unfolding matching_engine
matching_engine-none zero fuel e = refl
matching_engine-none (suc rounds) fuel e =
    rw (read_none fuel e, ◌>>=◌) (matching_engine-none rounds fuel e)

pub read_order-creates :
    (fuel t : ℕ) (order order' : LobOrder) (e e' : Engine)
    → order.req_type ≡ b'c'
    → create_order fuel (is_buy order) order (receive order e) ≡ ok (t, order', e')
    → read_order fuel (some order) e ≡ ok (booked order e t e')
unfolding read_order dispatch
read_order-creates fuel t order order' e e' h runs =
    let c : (order.req_type == b'c') ≡ true = ground arith in rw (c, runs, ◌>>=◌)

-- On a sound engine whose broadcast queue is drained, with more rounds for matching than there are
-- prices, `readOrder` of a request that the books can take returns: a new order, an update or a
-- deletion that finds its order, an update of an unknown id, or an unknown type. The engine is
-- sound again: both books are valid and no live bid reaches a live ask.
pub read_order-IsRunning :
    (max fuel : ℕ) (order : LobOrder) (e : Engine)
    → max < fuel
    → IsRunning max e
    → IsRequest max e order
    → (e' : Engine) × (read_order fuel (some order) e ≡ ok e') × IsRunning max e'
unfolding read_order
read_order-IsRunning max fuel order e enough r request =
    let (t, e', runs, running) = dispatch-IsRunning max fuel order e enough r request in
    (
      booked order e t e',
      rw (runs, ◌>>=◌),
      IsRunning-after max e' (booked order e t e') running running.sound refl refl,
    )

-- Requests that can be taken one after the other, each in the state that the ones before it leave.
abbrev pub IsSession : ℕ → ℕ → List (Option LobOrder) → Engine → Type 0
IsSession max fuel [] e = Unit {0}
IsSession max fuel (none ∷ slots) e = IsSession max fuel slots e
IsSession max fuel (some order ∷ slots) e =
    IsRequest max e order
    × ((e' : Engine) → read_order fuel (some order) e ≡ ok e' → IsSession max fuel slots e')

-- On a sound engine whose broadcast queue is drained, with more rounds for matching than there are
-- prices, the loop returns on every list of requests that can be taken one after the other,
-- however often it finds its queue empty; and the engine that it leaves is sound again, its
-- broadcast queue drained still.
pub matching_engine-IsRunning :
    (max fuel : ℕ) (slots : List (Option LobOrder)) (e : Engine)
    → max < fuel
    → IsRunning max e
    → IsSession max fuel slots e
    → (e' : Engine) × (matching_engine fuel slots e ≡ ok e') × IsRunning max e'
unfolding matching_engine
matching_engine-IsRunning max fuel [] e enough r s = (e, refl, r)
matching_engine-IsRunning max fuel (none ∷ slots) e enough r s =
    rw (read_none fuel e, ◌>>=◌) (matching_engine-IsRunning max fuel slots e enough r s)
matching_engine-IsRunning max fuel (some order ∷ slots) e enough r (request, rest) =
    let (e₁, runs, r₁) = read_order-IsRunning max fuel order e enough r request in
    let (e₂, runs', r₂) = matching_engine-IsRunning max fuel slots e₁ enough r₁ (rest e₁ runs) in
    (e₂, rw runs runs', r₂)
