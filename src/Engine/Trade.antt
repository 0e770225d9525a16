-- ===== src/Engine/Trade.antt =====
-- matching/matching.cpp: one round of the `for` loops of `aggresiveMatch`.
use trade_engine.Prelude.{
  ℕ, ◌-◌, ◌<◌, ◌≡◌, ◌≢◌, [], ◌∷◌, inl, inr, refl, ◌∙◌, Bool, true, false, some, get_elem?, arith,
  Bool-cases, ◌==◌, if◌then◌else◌, ok, ltb, lt→ltb,
}
use trade_engine.Structs.{LobOrder}
use trade_engine.Book.{Book, set_quantity, deref}
use trade_engine.Book.Inv.{IsValid}
use trade_engine.Book.Take.{taken, delete_order-emptied}
use trade_engine.Engine.Fills.{Acked, IsFillAt, Acked-report_trade}
use trade_engine.Engine.{Engine, own, opposite, set_opposite, trade_entry, report_trade}

-- What matching with row `p` of the opposite book leaves as it is.
pub record Frame (is_buy : Bool) (p : ℕ) (e e' : Engine) : Type 0 where
  pub same_own : own is_buy e' ≡ own is_buy e
  pub same_side : (opposite is_buy e').is_buy ≡ (opposite is_buy e).is_buy
  pub same_max : (opposite is_buy e').max_price_possible ≡ (opposite is_buy e).max_price_possible
  pub elsewhere : (q : ℕ) → p ≢ q → (opposite is_buy e').book q ≡ (opposite is_buy e).book q
  pub same_patience : e'.patience ≡ e.patience
  pub same_broadcast : e'.broadcast ≡ e.broadcast

pub Frame-refl : (is_buy : Bool) (p : ℕ) (e : Engine) → Frame is_buy p e e
Frame-refl is_buy p e = record {
  same_own = refl;
  same_side = refl;
  same_max = refl;
  elsewhere = λ q n. refl;
  same_patience = refl;
  same_broadcast = refl;
}

pub Frame-trans :
    (is_buy : Bool) (p : ℕ) {e e' e'' : Engine}
    → Frame is_buy p e e'
    → Frame is_buy p e' e''
    → Frame is_buy p e e''
Frame-trans is_buy p f g = record {
  same_own = g.same_own ∙ f.same_own;
  same_side = g.same_side ∙ f.same_side;
  same_max = g.same_max ∙ f.same_max;
  elsewhere = λ q n. g.elsewhere q n ∙ f.elsewhere q n;
  same_patience = g.same_patience ∙ f.same_patience;
  same_broadcast = g.same_broadcast ∙ f.same_broadcast;
}

-- An entry without quantity is passed over.
pub trade_entry-dead :
    (is_buy : Bool) (p c : ℕ) (order x : LobOrder) (e : Engine)
    → p < (opposite is_buy e).max_price_possible
    → get_elem? ((opposite is_buy e).book p) c ≡ some x
    → x.quantity ≡ 0
    → trade_entry is_buy p c order e ≡ ok (false, order, e)
unfolding trade_entry deref
trade_entry-dead is_buy p c order x e h k z = rw (lt→ltb _ _ h, k, z)

-- The state after a fill that leaves `left` of the resting order.
pub filled : Bool → ℕ → ℕ → ℕ → ℕ → LobOrder → LobOrder → Book → Engine → Engine
filled is_buy p c trade left order x b e = set_opposite is_buy b (
    report_trade p trade (record order { quantity = order.quantity - trade })
      (record x { quantity = left })
      (set_opposite is_buy (set_quantity (opposite is_buy e) (p, c) x left) e))

module _ (p c : ℕ) (order x : LobOrder) (trade : ℕ) where
  pub trade_entry-live :
      (is_buy : Bool) (e : Engine) (v : IsValid (opposite is_buy e))
      (h : p < (opposite is_buy e).max_price_possible)
      (here : get_elem? ((opposite is_buy e).book p) c ≡ some x) (positive : 0 < x.quantity)
      → trade ≡ (if ltb x.quantity order.quantity then x.quantity else order.quantity)
      → trade_entry is_buy p c order e
        ≡ ok (
          order.quantity - trade == 0,
          record order { quantity = order.quantity - trade },
          filled is_buy p c trade
              (x.quantity - trade)
              order
              x
              (taken
                (opposite is_buy e)
                v
                x.system_id
                p
                c
                x
                (v.index.indexed p c x h here positive)
                here
                (x.quantity - trade))
              e,
        )
  unfolding trade_entry filled report_trade deref
  trade_entry-live true e v h here positive t =
      let at = v.index.indexed p c x h here positive in
      let nonzero : (x.quantity == 0) ≡ false = ground arith in
      elim (Bool-cases (x.quantity - trade == 0)) [
        | inl z ↦
            let zero_left : x.quantity - trade ≡ 0 = ground arith in
            rw (
              lt→ltb _ _ h,
              here,
              ← t,
              nonzero,
              zero_left,
              delete_order-emptied (opposite true e) v x.system_id p c x at here,
            )
        | inr z ↦ rw (lt→ltb _ _ h, here, ← t, nonzero, z)
      ]
  trade_entry-live false e v h here positive t =
      let at = v.index.indexed p c x h here positive in
      let nonzero : (x.quantity == 0) ≡ false = ground arith in
      elim (Bool-cases (x.quantity - trade == 0)) [
        | inl z ↦
            let zero_left : x.quantity - trade ≡ 0 = ground arith in
            rw (
              lt→ltb _ _ h,
              here,
              ← t,
              nonzero,
              zero_left,
              delete_order-emptied (opposite false e) v x.system_id p c x at here,
            )
        | inr z ↦ rw (lt→ltb _ _ h, here, ← t, nonzero, z)
      ]

-- The fill changes the opposite book as `taken` does, and no other.
module _ (p c trade left : ℕ) (order x : LobOrder) (b : Book) where
  pub opposite-filled :
      (is_buy : Bool) (e : Engine) → opposite is_buy (filled is_buy p c trade left order x b e) ≡ b
  unfolding filled report_trade
  opposite-filled true e = refl
  opposite-filled false e = refl

  pub own-filled :
      (is_buy : Bool) (e : Engine)
      → own is_buy (filled is_buy p c trade left order x b e) ≡ own is_buy e
  unfolding filled report_trade
  own-filled true e = refl
  own-filled false e = refl

  pub patience-filled :
      (is_buy : Bool) (e : Engine)
      → (filled is_buy p c trade left order x b e).patience ≡ e.patience
  unfolding filled report_trade
  patience-filled true e = refl
  patience-filled false e = refl

  pub broadcast-filled :
      (is_buy : Bool) (e : Engine)
      → (filled is_buy p c trade left order x b e).broadcast ≡ e.broadcast
  unfolding filled report_trade
  broadcast-filled true e = refl
  broadcast-filled false e = refl

  -- The fill is acknowledged to both traders.
  pub Acked-filled :
      (is_buy : Bool) (e : Engine)
      → 0 < trade
      → Acked
          (IsFillAt p)
          (record { price = p; resting = x; lots = trade } ∷ [])
          order
          trade
          e
          (filled is_buy p c trade left order x b e)
  unfolding filled
  Acked-filled true e h =
      let e' = set_opposite true (set_quantity (opposite true e) (p, c) x left) e in
      let a = Acked-report_trade p trade left order x e' h in
      record { each = a.each; counted = a.counted; same_room = a.same_room; sent = a.sent }
  Acked-filled false e h =
      let e' = set_opposite false (set_quantity (opposite false e) (p, c) x left) e in
      let a = Acked-report_trade p trade left order x e' h in
      record { each = a.each; counted = a.counted; same_room = a.same_room; sent = a.sent }
