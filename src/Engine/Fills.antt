-- ===== src/Engine/Fills.antt =====
-- matching/matching.cpp: the fills of an incoming order, and how they are acknowledged.
use trade_engine.Prelude.{
  ltb, ℕ, ◌+◌, ◌-◌, ◌<◌, ◌≡◌, refl, sym, Each, Each-join, Each-mono, ◌∙◌, ap, Bool, true, false,
  List, [], ◌∷◌, ◌++◌, append_assoc, append-nil, arith, ◌==◌, if◌then◌else◌,
}
use trade_engine.Structs.{LobOrder, LobAck}
use trade_engine.Outbox.{Outbox, offer, offer_twice}
use trade_engine.Engine.{Engine, ack_of, beyond, report_trade}

-- So many lots of the order, against a resting order at a price index.
pub record Fill : Type 0 where
  pub price : ℕ
  pub resting : LobOrder
  pub lots : ℕ

abbrev pub lots_of : List Fill → ℕ
lots_of [] = 0
lots_of (f ∷ fs) = f.lots + lots_of fs

-- Trader 1 is told of its own orders.
abbrev pub told : LobOrder → ℕ → ℕ → List LobAck
told order price lots = if order.trade_id == 1 then ack_of order price b'T' lots ∷ [] else []

-- The acknowledgements of fills: of the order and then of the one that it met, fill by fill.
abbrev pub acks_of : LobOrder → List Fill → List LobAck
acks_of order [] = []
acks_of order (f ∷ fs) =
    told order f.price f.lots ++ told f.resting f.price f.lots ++ acks_of order fs

abbrev pub AlwaysRoom : Outbox LobAck → Type 0
AlwaysRoom o = (n : ℕ) → o.room n ≡ true

offer_twice-room : (a : LobAck) (o : Outbox LobAck) → (offer_twice a o).room ≡ o.room
unfolding offer_twice offer
offer_twice-room a o = ground arith

offer_twice-sent :
    (a : LobAck) (o : Outbox LobAck) → AlwaysRoom o → (offer_twice a o).sent ≡ o.sent ++ a ∷ []
unfolding offer_twice
offer_twice-sent a o h = rw (h o.attempts)

tell-room :
    (t : Bool) (a : LobAck) (o : Outbox LobAck) → (if t then offer_twice a o else o).room ≡ o.room
tell-room true a o = offer_twice-room a o
tell-room false a o = refl

tell-sent :
    (t : Bool) (a : LobAck) (o : Outbox LobAck)
    → AlwaysRoom o
    → (if t then offer_twice a o else o).sent ≡ o.sent ++ (if t then a ∷ [] else [])
tell-sent true a o h = offer_twice-sent a o h
tell-sent false a o h = sym (append-nil o.sent)

-- What an order of `q` lots takes from a queue: all lots of the first, and so on, and of the one
-- that fills it as many as it still wants.
unfoldable pub fills_at : ℕ → ℕ → List LobOrder → List Fill
fills_at p q [] = []
fills_at p q (o ∷ os) =
    let rest = fills_at p (q - o.quantity) os in
    if q == 0
    then []
    else record { price = p; resting = o; lots = if ltb o.quantity q then o.quantity else q } ∷ rest

pub fills_at-none : (p q : ℕ) (os : List LobOrder) → q ≡ 0 → fills_at p q os ≡ []
unfolding fills_at
fills_at-none p q [] z = refl
fills_at-none p q (o ∷ os) z = rw z

-- Between two states: the fills, which have the property, have been acknowledged, and have so
-- many lots.
pub record Acked (P : Fill → Type 0) (fills : List Fill) (order : LobOrder) (lots : ℕ)
    (e e' : Engine) : Type 0 where
  pub each : Each P fills
  pub counted : lots_of fills ≡ lots
  pub same_room : e'.lob_ack.room ≡ e.lob_ack.room
  pub sent : AlwaysRoom e.lob_ack → e'.lob_ack.sent ≡ e.lob_ack.sent ++ acks_of order fills

pub Acked-refl :
    (P : Fill → Type 0) (order : LobOrder) (e : Engine) (lots : ℕ)
    → lots ≡ 0
    → Acked P [] order lots e e
Acked-refl P order e lots z = record {
  each = tt;
  counted = sym z;
  same_room = refl;
  sent = λ h. sym (append-nil e.lob_ack.sent);
}

lots_of-append : (fs gs : List Fill) → lots_of (fs ++ gs) ≡ lots_of fs + lots_of gs
lots_of-append [] gs = omega arith
lots_of-append (f ∷ fs) gs = omega (arith, lots_of-append fs gs)

acks_of-append :
    (order : LobOrder) (fs gs : List Fill)
    → acks_of order (fs ++ gs) ≡ acks_of order fs ++ acks_of order gs
acks_of-append order [] gs = refl
acks_of-append order (f ∷ fs) gs =
    let both = told order f.price f.lots ++ told f.resting f.price f.lots in
    ap (λ t. both ++ t) (acks_of-append order fs gs)
    ∙ sym (append_assoc both (acks_of order fs) (acks_of order gs))

-- The order's quantity is not in its acknowledgements.
acks_of-quantity :
    (order : LobOrder) (n : ℕ) (fs : List Fill)
    → acks_of (record order { quantity = n }) fs ≡ acks_of order fs
unfolding ack_of
acks_of-quantity order n [] = refl
acks_of-quantity order n (f ∷ fs) =
    ap (λ t. told order f.price f.lots ++ told f.resting f.price f.lots ++ t)
      (acks_of-quantity order n fs)

-- One stretch after another, the second of which the order meets with `n` lots.
pub Acked-then :
    (P : Fill → Type 0) (fs gs : List Fill) (order : LobOrder) (n lots lots' : ℕ)
    (e e' e'' : Engine)
    → Acked P fs order lots e e'
    → Acked P gs (record order { quantity = n }) lots' e' e''
    → Acked P (fs ++ gs) order (lots + lots') e e''
Acked-then P fs gs order n lots lots' e e' e'' a b = record {
  each = Each-join P fs gs a.each b.each;
  counted = omega (arith, lots_of-append fs gs, a.counted, b.counted);
  same_room = b.same_room ∙ a.same_room;
  sent = λ h.
      b.sent (λ k. ap (λ r. r k) a.same_room ∙ h k)
      ∙ ap (λ t. t ++ acks_of (record order { quantity = n }) gs) (a.sent h)
      ∙ append_assoc e.lob_ack.sent (acks_of order fs) (acks_of (record order { quantity = n }) gs)
      ∙ ap (λ t. e.lob_ack.sent ++ (acks_of order fs ++ t)) (acks_of-quantity order n gs)
      ∙ ap (λ t. e.lob_ack.sent ++ t) (sym (acks_of-append order fs gs));
}

pub Acked-mono :
    (P Q : Fill → Type 0) (fs : List Fill) (order : LobOrder) (lots lots' : ℕ) (e e' : Engine)
    → ((f : Fill) → P f → Q f)
    → lots ≡ lots'
    → Acked P fs order lots e e'
    → Acked Q fs order lots' e e'
Acked-mono P Q fs order lots lots' e e' mono same a = record {
  each = Each-mono P Q fs mono a.each;
  counted = a.counted ∙ same;
  same_room = a.same_room;
  sent = a.sent;
}

-- Some lots, at this price.
abbrev pub IsFillAt : ℕ → Fill → Type 0
IsFillAt p f = (f.price ≡ p) × (0 < f.lots)

-- The acknowledgements of one fill.
pub Acked-report_trade :
    (p trade left : ℕ) (order x : LobOrder) (e : Engine)
    → 0 < trade
    → Acked (IsFillAt p) (record { price = p; resting = x; lots = trade } ∷ []) order trade e (
        report_trade p trade
          (record order { quantity = order.quantity - trade })
          (record x { quantity = left })
          e)
unfolding report_trade ack_of
Acked-report_trade p trade left order x e positive = record {
  each = ((refl, positive), tt);
  counted = omega arith;
  same_room = tell-room (x.trade_id == 1) _ between ∙ tell-room (order.trade_id == 1) _ e.lob_ack;
  sent = λ h.
      tell-sent (x.trade_id == 1) _ between
        (λ k. ap (λ r. r k) (tell-room (order.trade_id == 1) _ e.lob_ack) ∙ h k)
      ∙ ap (λ t. t ++ told x p trade) (tell-sent (order.trade_id == 1) _ e.lob_ack h)
      ∙ append_assoc e.lob_ack.sent (told order p trade) (told x p trade)
      ∙ ap (λ t. e.lob_ack.sent ++ t) (sym (append-nil (told order p trade ++ told x p trade)));
}
  where
    between : Outbox LobAck
    between =
        if order.trade_id == 1 then offer_twice (ack_of order p b'T' trade) e.lob_ack else e.lob_ack

-- Some lots, at a price of the book that an order with this limit accepts.
abbrev pub IsFillWithin : Bool → ℕ → ℕ → Fill → Type 0
IsFillWithin is_buy price max f =
    (beyond is_buy price f.price ≡ false) × (f.price < max) × (0 < f.lots)

pub IsFillAt-IsFillWithin :
    (is_buy : Bool) (price max p : ℕ) (f : Fill)
    → beyond is_buy price p ≡ false
    → p < max
    → IsFillAt p f
    → IsFillWithin is_buy price max f
IsFillAt-IsFillWithin is_buy price max p f h l (e, k) = (ap (beyond is_buy price) e ∙ h, rw e l, k)
