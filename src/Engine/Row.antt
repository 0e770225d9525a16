-- ===== src/Engine/Row.antt =====
-- matching/matching.cpp: the `for` loops of `aggresiveMatch` serve a price level in time priority.
use trade_engine.Prelude.{
  ℕ, suc, ◌-◌, ◌<◌, ◌≡◌, inl, inr, refl, sym, ◌∙◌, ap, ap₂, Bool, true, false, List, [], ◌∷◌, ◌++◌,
  length, length-append, append_assoc, arith, Bool-cases, ◌==◌, if◌then◌else◌, ok, ltb,
  get_elem?-middle,
}
use trade_engine.Structs.{LobOrder}
use trade_engine.Book.Rows.{live, total, live-append}
use trade_engine.Book.Inv.{IsValid}
use trade_engine.Engine.{Engine, opposite, trade_entry, trade_row}
use trade_engine.Engine.Consume.{consume, consume-none}
use trade_engine.Engine.Fills.{
  Acked, IsFillAt, fills_at, fills_at-none, Acked-refl, Acked-then, Acked-mono,
}
use trade_engine.Engine.Round.{Round, round}
use trade_engine.Engine.Trade.{Frame, Frame-refl, Frame-trans, trade_entry-dead}

module _ (is_buy : Bool) (p : ℕ) where
  -- A round that goes on, and one that leaves the loop.
  row_goes_on :
      (n c : ℕ) (order order' : LobOrder) (e e' : Engine)
      → trade_entry is_buy p c order e ≡ ok (false, order', e')
      → trade_row is_buy p (suc n) c order e ≡ trade_row is_buy p n (suc c) order' e'
  unfolding trade_row
  row_goes_on n c order order' e e' r = rw r

  row_ends :
      (n c : ℕ) (order order' : LobOrder) (e e' : Engine)
      → trade_entry is_buy p c order e ≡ ok (true, order', e')
      → trade_row is_buy p (suc n) c order e ≡ ok (order', e')
  unfolding trade_row
  row_ends n c order order' e e' r = rw r

  -- What the loop does to the rest `suffix` of the row, from column `c` on.
  pub record Served (c : ℕ) (order : LobOrder) (suffix : List LobOrder) (e : Engine) : Type 0 where
    pub state : Engine
    pub runs :
        trade_row is_buy p (length suffix) c order e
        ≡ ok (record order { quantity = order.quantity - total suffix }, state)
    pub valid : IsValid (opposite is_buy state)
    pub frame : Frame is_buy p e state
    pub queue : live ((opposite is_buy state).book p) ≡ consume order.quantity (live suffix)
    pub acked :
        Acked
          (IsFillAt p)
          (fills_at p order.quantity (live suffix))
          order
          (order.quantity - (order.quantity - total suffix))
          e
          state

  -- The order is filled by the entry `x`.
  filled-Served :
      (order x : LobOrder) (before suffix : List LobOrder) (e : Engine)
      → Round is_buy p order x before suffix e
      → live before ≡ []
      → 0 < order.quantity
      → 0 < x.quantity
      → ltb x.quantity order.quantity ≡ false
      → Served (length before) order (x ∷ suffix) e
  unfolding consume fills_at
  filled-Served order x before suffix e r dead q k t = record {
    state = r.state;
    runs = row_ends (length suffix) (length before) order _ e r.state (
        r.runs
        ∙ ap₂ (λ f n. ok (f, record order { quantity = n }, r.state)) (ground arith)
            (ground arith));
    valid = r.valid;
    frame = r.frame;
    queue =
        rw (r.row, live-append before (record x { quantity = left } ∷ suffix), dead)
          (ground (arith, consume-none (order.quantity - x.quantity) suffix));
    acked =
        rw
          (
            nonzero,
            wanted,
            fills_at-none p (order.quantity - x.quantity) (live suffix) (ground arith),
          )
          (Acked-mono (IsFillAt p) (IsFillAt p) _ order _ _ e r.state (λ f h. h) (ground arith)
            (r.acked (ground arith)));
  }
    where
      nonzero : (x.quantity == 0) ≡ false
      nonzero = ground arith

      wanted : (order.quantity == 0) ≡ false
      wanted = ground arith

      left : ℕ
      left = x.quantity - (if ltb x.quantity order.quantity then x.quantity else order.quantity)

  -- The entry `x` is used up, and the rest of the row is served.
  emptied-Served :
      (order x : LobOrder) (before suffix : List LobOrder) (e : Engine)
      → (r : Round is_buy p order x before suffix e)
      → Served
          (suc (length before))
          (record order { quantity = order.quantity - x.quantity })
          suffix
          r.state
      → 0 < x.quantity
      → ltb x.quantity order.quantity ≡ true
      → Served (length before) order (x ∷ suffix) e
  unfolding consume fills_at
  emptied-Served order x before suffix e r s k t = record {
    state = s.state;
    runs =
        row_goes_on (length suffix) (length before) order
          (record order { quantity = order.quantity - x.quantity }) e r.state
          (r.runs
            ∙ ap₂ (λ f n. ok (f, record order { quantity = n }, r.state)) (ground arith)
                (ground arith))
        ∙ s.runs
        ∙ ap (λ n. ok (record order { quantity = n }, s.state)) (omega arith);
    valid = s.valid;
    frame = Frame-trans is_buy p r.frame s.frame;
    queue = s.queue ∙ ground arith;
    acked =
        rw (nonzero, wanted)
          (Acked-mono (IsFillAt p) (IsFillAt p) _ order _ _ e s.state (λ f h. h) (ground arith)
            (Acked-then (IsFillAt p) _ (fills_at p (order.quantity - x.quantity) (live suffix))
              order (order.quantity - x.quantity) _ _ e r.state s.state (r.acked (ground arith))
              s.acked));
  }
    where
      nonzero : (x.quantity == 0) ≡ false
      nonzero = ground arith

      wanted : (order.quantity == 0) ≡ false
      wanted = ground arith

  -- The entry `x` holds nothing.
  passed-Served :
      (order x : LobOrder) (c : ℕ) (suffix : List LobOrder) (e : Engine)
      → trade_entry is_buy p c order e ≡ ok (false, order, e)
      → Served (suc c) order suffix e
      → x.quantity ≡ 0
      → Served c order (x ∷ suffix) e
  passed-Served order x c suffix e r s z = record {
    state = s.state;
    runs =
        row_goes_on (length suffix) c order order e e r
        ∙ s.runs
        ∙ ap (λ n. ok (record order { quantity = n }, s.state)) (omega arith);
    valid = s.valid;
    frame = s.frame;
    queue = s.queue ∙ ground arith;
    acked = rw z (
        Acked-mono (IsFillAt p) (IsFillAt p) _ order _ _ e s.state (λ f h. h) (omega arith)
          s.acked);
  }

  -- Behind dead entries, the loop takes what the order still wants from the front of the queue,
  -- and leaves the order with the rest of its quantity.
  serve :
      (suffix before : List LobOrder) (c : ℕ) (order : LobOrder) (e : Engine)
      → IsValid (opposite is_buy e)
      → p < (opposite is_buy e).max_price_possible
      → (opposite is_buy e).book p ≡ before ++ suffix
      → c ≡ length before
      → live before ≡ []
      → 0 < order.quantity
      → Served c order suffix e
  unfolding trade_row consume fills_at
  serve [] before c order e v h row l dead q = record {
    state = e;
    runs = ap (λ n. ok (record order { quantity = n }, e)) (omega arith);
    valid = v;
    frame = Frame-refl is_buy p e;
    queue = rw (row, live-append before [], dead);
    acked = Acked-refl (IsFillAt p) order e _ (omega arith);
  }
  serve (x ∷ suffix) before c order e v h row l dead q = elim (Bool-cases (x.quantity == 0)) [
    | inl z ↦
        let zero_quantity : x.quantity ≡ 0 = ground arith in
        passed-Served order x c suffix e
          (trade_entry-dead is_buy p c order x e h (rw (row, l) (get_elem?-middle before suffix x))
            zero_quantity)
          (serve suffix (before ++ x ∷ []) (suc c) order e v h
            (row ∙ sym (append_assoc before (x ∷ []) suffix))
            (omega (arith, length-append before (x ∷ [])))
            (rw (live-append before (x ∷ []), dead, z)) q)
          zero_quantity
    | inr z ↦
        let positive : 0 < x.quantity = ground arith in
        let r = round is_buy p order x before suffix e v h row positive in
        rw l (elim (Bool-cases (ltb x.quantity order.quantity)) [
          | inl t ↦
              emptied-Served order x before suffix e r
                (serve suffix (before ++ used ∷ []) (suc (length before))
                  (record order { quantity = order.quantity - x.quantity }) r.state r.valid
                  (rw r.frame.same_max h) (r.row ∙ sym (append_assoc before (used ∷ []) suffix))
                  (omega (arith, length-append before (used ∷ [])))
                  (rw (live-append before (used ∷ []), dead) (ground arith)) (ground arith))
                positive t
          | inr t ↦ filled-Served order x before suffix e r dead q positive t
        ])
  ]
    where
      used : LobOrder
      used = record x {
        quantity =
            x.quantity - (if ltb x.quantity order.quantity then x.quantity else order.quantity);
      }

  -- The loop over the whole row.
  pub trade_row_lem :
      (order : LobOrder) (e : Engine) (row : List LobOrder)
      → IsValid (opposite is_buy e)
      → p < (opposite is_buy e).max_price_possible
      → (opposite is_buy e).book p ≡ row
      → 0 < order.quantity
      → Served 0 order row e
  trade_row_lem order e row v h r q = serve row [] 0 order e v h r refl refl q
