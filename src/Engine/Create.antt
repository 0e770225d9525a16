-- ===== src/Engine/Create.antt =====
-- matching/matching.cpp: `create_order`.
use trade_engine.Prelude.{
  ℕ, ◌≤◌, ◌<◌, ◌≡◌, ◌≢◌, inl, inr, refl, ◌∙◌, ap, Bool, true, false, not, List, [], ◌∷◌, ◌++◌,
  arith, Bool-cases, ◌==◌, if◌then◌else◌, ok,
}
use trade_engine.Structs.{LobOrder, lob_create_order}
use trade_engine.Outbox.{HasRoom}
use trade_engine.Book.{Book, create_at}
use native.Mathlib.Decide.{dec_lt}
use trade_engine.Book.Rows.{live_count}
use trade_engine.Book.Inv.{IsValid, IsBest}
use trade_engine.Book.Valid.{IsNew, create_at-IsValid, create_order_ok, frame-create_at}
use trade_engine.Book.Levels.{level}
use trade_engine.Book.Spec.{level-create_at}
use trade_engine.Engine.{Engine, own, opposite, set_own, beyond, cycle_passed, now_cycle}
use trade_engine.Engine.Sweep.{Swept}
use trade_engine.Engine.Progress.{measure}
use trade_engine.Engine.Matched.{Matched, IsBest-of}
use trade_engine.Engine.Match.{aggressive_match_lem}
use trade_engine.Engine.Priority.{Swept-shrinks, Swept-uncrossed}
use trade_engine.Engine.Sound.{Apart, IsSound, IsSoundFor, sound_for, IsSound-from}
use trade_engine.Engine.Own.{
  own-set_own, opposite-set_own, own-cong, opposite-cong, patience-set_own, broadcast-set_own,
}
use trade_engine.Engine.Report.{report_change_ok}
use trade_engine.Engine.Handlers.{create_order}

measure_le :
    (is_buy : Bool) (best max : ℕ) (rows : ℕ → List LobOrder)
    → IsBest (not is_buy) best rows max
    → measure is_buy best max ≤ max
measure_le true best max rows (a, b, c) = omega arith
measure_le false best max rows (a, b, c) = omega arith

module _ (is_buy : Bool) (max p fuel : ℕ) (order : LobOrder) (e : Engine) (sound : IsSound max e)
    (new : IsNew (own is_buy e) order p) (above : is_buy ≡ true → 0 < p) (enough : max < fuel) where
  s : IsSoundFor is_buy max (own is_buy e) (opposite is_buy e)
  s = sound_for is_buy max e sound

  m : Matched is_buy p fuel order e
  m = aggressive_match_lem is_buy p fuel order e s.ready new.priced (
      rw s.opposite_max (
        omega (
          arith,
          measure_le is_buy (opposite is_buy e).best_price max (opposite is_buy e).book is_best,
        )))
    where
      is_best : IsBest (not is_buy) (opposite is_buy e).best_price (opposite is_buy e).book max
      is_best = rw s.opposite_max at (IsBest-of is_buy p e s.ready)

  other_max : (opposite is_buy m.state).max_price_possible ≡ max
  other_max = m.same_max ∙ s.opposite_max

  swept :
      Swept is_buy p order.quantity m.left max
        (opposite is_buy e).book
        (opposite is_buy m.state).book
  swept = rw s.opposite_max at m.swept

  -- Matching alone keeps the sides apart.
  Apart-matched : Apart is_buy (own is_buy e).book (opposite is_buy m.state).book max
  Apart-matched a b h k l n =
      s.apart a b h k l (still (dec_lt 0 (live_count ((opposite is_buy e).book b))))
    where
      still :
          Dec (0 < live_count ((opposite is_buy e).book b))
          → 0 < live_count ((opposite is_buy e).book b)
      still (yes t) = t
      still (no t) = absurd (
          omega
            (arith, Swept-shrinks is_buy p order.quantity m.left max _ _ swept b k (omega arith)))

  matched-IsSound : IsSound max m.state
  matched-IsSound = IsSound-from is_buy max m.state (record {
    valid = rw m.same_own s.valid;
    side = rw m.same_own s.side;
    own_max = rw m.same_own s.own_max;
    opposite_max = other_max;
    own_floor = λ t. rw m.same_own (s.own_floor t);
    ready = m.ready;
    apart = rw m.same_own Apart-matched;
  })

  module _ (some_left : 0 < m.left) where
    abbrev rest : LobOrder
    rest = record order { quantity = m.left }

    rest-IsNew : IsNew (own is_buy m.state) rest p
    rest-IsNew = rw m.same_own (record {
      fresh = new.fresh;
      id_in = new.id_in;
      priced = new.priced;
      price_in = new.price_in;
      positive = some_left;
    })

    abbrev book' : Book
    book' = create_at (own is_buy m.state) rest p

    abbrev state' : Engine
    state' = set_own is_buy book' m.state

    frame :
        (book'.is_buy ≡ (own is_buy m.state).is_buy)
        × (book'.max_price_possible ≡ (own is_buy m.state).max_price_possible)
        × ((q : ℕ) → p ≢ q → book'.book q ≡ (own is_buy m.state).book q)
    frame = frame-create_at (own is_buy m.state) (rw m.same_own s.valid) rest p

    Apart-created : Apart is_buy book'.book (opposite is_buy m.state).book max
    Apart-created a b h k l n = elim (Bool-cases (p == a)) [
      | inl t ↦ let same : p ≡ a = ground arith in rw (← same) (reached (beyond is_buy p b) refl)
      | inr t ↦
          Apart-matched a b h k (rw (frame.2 a (ground arith) ∙ ap (λ r. r.book a) m.same_own) at l)
            n
    ]
      where
        reached : (c : Bool) → beyond is_buy p b ≡ c → beyond is_buy p b ≡ true
        reached true t = t
        reached false t = absurd (
            omega
              (arith, Swept-uncrossed is_buy p order.quantity m.left max _ _ swept some_left b k t))

    created-IsSound : IsSound max state'
    created-IsSound = IsSound-from is_buy max state' (
        rw (own-set_own is_buy book' m.state, opposite-set_own is_buy book' m.state)
          (record {
            valid =
                create_at-IsValid (own is_buy m.state) (rw m.same_own s.valid) rest p rest-IsNew;
            side = frame.0 ∙ ap (λ r. r.is_buy) m.same_own ∙ s.side;
            own_max = frame.1 ∙ ap (λ r. r.max_price_possible) m.same_own ∙ s.own_max;
            opposite_max = other_max;
            own_floor = λ t.
                frame.2 0 (λ z. omega (arith, above t))
                ∙ ap (λ r. r.book 0) m.same_own
                ∙ s.own_floor t;
            ready = m.ready;
            apart = Apart-created;
          }))

  -- What is left of the order after its report.
  record Done (e' : Engine) : Type 0 where
    runs :
        create_order fuel is_buy order e
        ≡ ok (now_cycle e', record order { quantity = m.left }, cycle_passed e')
    kept : IsSound max e'
    same_patience : e'.patience ≡ e.patience
    same_room : e'.broadcast.room ≡ e.broadcast.room
    other : opposite is_buy e' ≡ opposite is_buy m.state
    queues :
        (q : ℕ)
        → level (own is_buy e') q ≡ (
            if m.left == 0
            then level (own is_buy e) q
            else (if p == q
                then level (own is_buy e) q ++ record order { quantity = m.left } ∷ []
                else level (own is_buy e) q))

  Done-filled : m.left ≡ 0 → Done m.state
  unfolding create_order
  Done-filled z = record {
    runs = rw m.runs (rw z refl);
    kept = matched-IsSound;
    same_patience = m.same_patience;
    same_room = ap (λ o. o.room) m.same_broadcast;
    other = refl;
    queues = λ q. rw (z, m.same_own);
  }

  Done-rest : HasRoom e.patience e.broadcast → 0 < m.left → (e' : Engine) × Done e'
  unfolding create_order
  Done-rest room l =
      let (e', reported, r) =
        report_change_ok lob_create_order b'N' is_buy (rest l) p (state' l)
          (rw
            (
              patience-set_own is_buy (book' l) m.state,
              broadcast-set_own is_buy (book' l) m.state,
              m.same_patience,
              m.same_broadcast,
            )
            room)
          new.priced in
      (
        e',
        record {
          runs = rw m.runs (
              rw (
                nonzero,
                create_order_ok (own is_buy m.state) valid (rest l) p (rest-IsNew l),
                reported,
              ));
          kept = rw (r.same_buys, r.same_sells) (created-IsSound l);
          same_patience =
              r.same_patience ∙ patience-set_own is_buy (book' l) m.state ∙ m.same_patience;
          same_room =
              r.same_room
              ∙ ap (λ o. o.room) (broadcast-set_own is_buy (book' l) m.state ∙ m.same_broadcast);
          other =
              opposite-cong is_buy e' (state' l) r.same_buys r.same_sells
              ∙ opposite-set_own is_buy (book' l) m.state;
          queues = λ q.
              rw
                (
                  own-cong is_buy e' (state' l) r.same_buys r.same_sells,
                  own-set_own is_buy (book' l) m.state,
                  nonzero,
                )
                (level-create_at (own is_buy m.state) valid (rest l) p (rest-IsNew l) q
                  ∙ ap (λ b. if p == q then level b q ++ rest l ∷ [] else level b q) m.same_own);
        },
      )
    where
      nonzero : (m.left == 0) ≡ false
      nonzero = ground arith

      valid : IsValid (own is_buy m.state)
      valid = rw m.same_own s.valid

  done : HasRoom e.patience e.broadcast → (e' : Engine) × Done e'
  done room = elim (dec_lt 0 m.left) [
    | yes l ↦ Done-rest room l
    | no z ↦ (m.state, Done-filled (omega arith))
  ]

-- The result alone, with what the next request needs of the engine.
pub create_order_kept :
    (is_buy : Bool) (max p fuel : ℕ) (order : LobOrder) (e : Engine)
    → IsSound max e
    → IsNew (own is_buy e) order p
    → (is_buy ≡ true → 0 < p)
    → max < fuel
    → HasRoom e.patience e.broadcast
    → (t : ℕ) × (order' : LobOrder) × (e' : Engine) × (create_order fuel is_buy order e
        ≡ ok (t, order', e'))
      × IsSound max e'
      × (e'.patience ≡ e.patience)
      × (e'.broadcast.room ≡ e.broadcast.room)
create_order_kept is_buy max p fuel order e sound new above enough room =
    let m = m is_buy max p fuel order e sound new above enough in
    let (e', d) = done is_buy max p fuel order e sound new above enough room in
    (
      now_cycle e',
      record order { quantity = m.left },
      cycle_passed e',
      d.runs,
      d.kept,
      d.same_patience,
      d.same_room,
    )

-- `create_order` of a new order on a sound engine returns, within more rounds than there are
-- prices, where a buy order is not at price index 0, which a buy book also takes for "no best
-- bid", and where the broadcast queue has room within the engine's patience. New is an order with
-- lots, at a price with a tick of the book, and under an id that fits the LUT and is not in use on
-- its side. The engine stays sound,
-- so no live bid reaches a live ask; the other side is swept as by the reference; and what is left
-- of the order, if anything, is the last in the queue at its price, the other queues of its side
-- being as they were.
pub create_order-IsSound :
    (is_buy : Bool) (max p fuel : ℕ) (order : LobOrder) (e : Engine)
    → IsSound max e
    → IsNew (own is_buy e) order p
    → (is_buy ≡ true → 0 < p)
    → max < fuel
    → HasRoom e.patience e.broadcast
    → (t left : ℕ) × (e' : Engine) × (create_order fuel is_buy order e
        ≡ ok (t, record order { quantity = left }, e'))
      × IsSound max e'
      × Swept is_buy p order.quantity left max (opposite is_buy e).book (opposite is_buy e').book
      × ((q : ℕ)
          → level (own is_buy e') q ≡ (
              if left == 0
              then level (own is_buy e) q
              else (if p == q
                  then level (own is_buy e) q ++ record order { quantity = left } ∷ []
                  else level (own is_buy e) q)))
create_order-IsSound is_buy max p fuel order e sound new above enough room =
    let m = m is_buy max p fuel order e sound new above enough in
    let (e', d) = done is_buy max p fuel order e sound new above enough room in
    (
      now_cycle e',
      m.left,
      cycle_passed e',
      d.runs,
      d.kept,
      rw (opposite-cong is_buy (cycle_passed e') e' refl refl, d.other)
          (swept is_buy max p fuel order e sound new above enough),
      λ q. rw (own-cong is_buy (cycle_passed e') e' refl refl) (d.queues q),
    )
