-- ===== src/Engine/Fresh.antt =====
-- matching/matching.cpp: new orders under ascending system ids, as the gateway gives them.
use trade_engine.Prelude.{
  ℕ, suc, ◌-◌, ◌≤◌, ◌<◌, ◌≡◌, refl, Bool, true, false, Option, none, some, List, [], ◌∷◌, ◌++◌,
  arith, ok, ◌>>=◌, ◌==◌, if◌then◌else◌, Bool-cases, inl, inr,
}
use trade_engine.Structs.{LobOrder, LobAck, BroadCast, LogElement}
use trade_engine.Price.{tick}
use trade_engine.Book.{Book, lut_size}
use trade_engine.Book.Valid.{IsNew}
use trade_engine.Book.Levels.{level}
use trade_engine.Outbox.{Outbox}
use trade_engine.Book
use trade_engine.Engine.{Engine, init, own, opposite, beyond}
use trade_engine.Engine.Sound.{IsSound, IsSoundFor, sound_for}
use trade_engine.Engine.Create.{create_order-IsSound}
use trade_engine.Engine.Running.{IsRunning, IsRunning-after, create_order-IsRunning}
use trade_engine.Engine.Own.{own-cong}
use trade_engine.Engine.Consume.{consume}
use trade_engine.Book.Depth.{ahead}
use trade_engine.Engine.Sweep.{Swept}
use trade_engine.Engine.Ids.{has_id, has_id-consume, has_id-append, unknown-level, level-unknown}
use trade_engine.Engine.Requests.{is_buy, received, same_own, booked, read_none, read_order-creates}
use trade_engine.Engine.Handlers.{receive, create_order, matching_engine}

-- Neither book knows an id from `n` on.
abbrev pub IsBelow : ℕ → Engine → Type 0
IsBelow n e = (s : Bool) (id : ℕ) → n ≤ id → (own s e).lut id ≡ none

pub init-IsBelow :
    (max : ℕ) (acks : Outbox LobAck) (broadcast : Outbox BroadCast) (log : Outbox LogElement)
    (cycles : ℕ → ℕ) (patience : ℕ)
    → IsBelow 0 (init max acks broadcast log cycles patience)
unfolding init Book.init
init-IsBelow max acks broadcast log cycles patience true id h = refl
init-IsBelow max acks broadcast log cycles patience false id h = refl

both_sides :
    (P : Book → Type 0) (side s : Bool) (e : Engine)
    → P (own side e)
    → P (opposite side e)
    → P (own s e)
both_sides P true true e a b = a
both_sides P true false e a b = b
both_sides P false true e a b = b
both_sides P false false e a b = a

opposite_unknown :
    (side : Bool) (n : ℕ) (e : Engine)
    → IsBelow n e
    → (id : ℕ) → n ≤ id
    → (opposite side e).lut id ≡ none
opposite_unknown true n e b id h = b false id h
opposite_unknown false n e b id h = b true id h

module _ (side : Bool) (max p fuel n : ℕ) (order : LobOrder) (e : Engine) (r : IsRunning max e)
    (new : IsNew (own side e) order p) (above : side ≡ true → 0 < p) (enough : max < fuel)
    (below : IsBelow n e) (next : n ≤ order.system_id) where
  own_after :
      (left : ℕ) (e' : Engine)
      → IsSound max e'
      → ((q : ℕ)
          → level (own side e') q ≡ (
              if left == 0
              then level (own side e) q
              else (if p == q
                  then level (own side e) q ++ record order { quantity = left } ∷ []
                  else level (own side e) q)))
      → (id : ℕ) → suc order.system_id ≤ id
      → (own side e').lut id ≡ none
  own_after left e' sound queues id h = level-unknown (own side e') id s'.valid λ q k t.
      unknown-level (own side e) id q s.valid (below side id (omega arith))
        (rw (s.own_max, ← s'.own_max) k) (older q (rw (queues q) at t))
    where
      s : IsSoundFor side max (own side e) (opposite side e)
      s = sound_for side max e r.sound

      s' : IsSoundFor side max (own side e') (opposite side e')
      s' = sound_for side max e' sound

      older :
          (q : ℕ)
          → has_id id (
              if left == 0
              then level (own side e) q
              else (if p == q
                  then level (own side e) q ++ record order { quantity = left } ∷ []
                  else level (own side e) q))
            ≡ true
          → has_id id (level (own side e) q) ≡ true
      older q t =
          ground (arith, has_id-append id (level (own side e) q) (record order { quantity = left }))

  opposite_after :
      (left : ℕ) (e' : Engine)
      → IsSound max e'
      → Swept side p order.quantity left max (opposite side e).book (opposite side e').book
      → (id : ℕ) → n ≤ id
      → (opposite side e').lut id ≡ none
  opposite_after left e' sound swept id h =
      level-unknown (opposite side e') id s'.ready.valid λ q k t.
        let q_in : q < max = rw s'.opposite_max at k in
        unknown-level (opposite side e) id q s.ready.valid (opposite_unknown side n e below id h)
          (rw s.opposite_max q_in) (older q (rw (swept.levels q q_in) at t))
    where
      s : IsSoundFor side max (own side e) (opposite side e)
      s = sound_for side max e r.sound

      s' : IsSoundFor side max (own side e') (opposite side e')
      s' = sound_for side max e' sound

      older :
          (q : ℕ)
          → has_id id (
              if beyond side p q
              then level (opposite side e) q
              else consume
                  (order.quantity - ahead side (opposite side e).book max q)
                  (level (opposite side e) q))
            ≡ true
          → has_id id (level (opposite side e) q) ≡ true
      older q t = elim (Bool-cases (beyond side p q)) [
        | inl b ↦ rw b at t
        | inr b ↦
            has_id-consume id (order.quantity - ahead side (opposite side e).book max q)
              (level (opposite side e) q) (rw b at t)
      ]

  create_order-IsBelow :
      (t : ℕ) × (order' : LobOrder) × (e' : Engine) × (create_order fuel side order e
        ≡ ok (t, order', e'))
      × IsRunning max e'
      × IsBelow (suc order.system_id) e'
  create_order-IsBelow =
      let (t, left, e', runs, sound, swept, queues) =
        create_order-IsSound side max p fuel order e r.sound new above enough
          (r.drained e.broadcast refl) in
      let (t', order', e'', runs', running) =
        create_order-IsRunning side max p fuel order e r new above enough in
      let same : e'' ≡ e' = cc (runs, runs') in
      (
        t,
        record order { quantity = left },
        e',
        runs,
        rw same at running,
        λ s id h.
            both_sides (λ b. b.lut id ≡ none) side s e' (own_after left e' sound queues id h)
              (opposite_after left e' sound swept id (omega arith)),
      )

-- Creations, each with an id above those before it, and with a quantity and a price that an order
-- may have.
abbrev pub AreCreations : ℕ → ℕ → List (Option LobOrder) → Type 0
AreCreations max n [] = Unit {0}
AreCreations max n (none ∷ slots) = AreCreations max n slots
AreCreations max n (some order ∷ slots) =
    (order.req_type ≡ b'c')
    × (n ≤ order.system_id)
    × (order.system_id < lut_size)
    × (0 < order.quantity)
    × ((p : ℕ) × (tick order.price ≡ some p) × (p < max) × (is_buy order ≡ true → 0 < p))
    × AreCreations max (suc order.system_id) slots

-- A sound engine whose broadcast queue is drained, and that knows no id from `n` on, takes all
-- creations whose ids ascend from `n` within the LUT, which is how the gateway gives them, if each
-- has a quantity and a price with a tick of the book (for a buy order not its first). With more
-- rounds for matching than there are prices the loop returns, and the engine is sound again: no
-- live bid reaches a live ask. Nothing is asked of the states in between.
pub matching_engine-AreCreations :
    (max fuel n : ℕ) (slots : List (Option LobOrder)) (e : Engine)
    → max < fuel
    → IsRunning max e
    → IsBelow n e
    → AreCreations max n slots
    → (e' : Engine) × (matching_engine fuel slots e ≡ ok e') × IsRunning max e'
unfolding matching_engine
matching_engine-AreCreations max fuel n [] e enough r b c = (e, refl, r)
matching_engine-AreCreations max fuel n (none ∷ slots) e enough r b c =
    rw (read_none fuel e, ◌>>=◌) (matching_engine-AreCreations max fuel n slots e enough r b c)
matching_engine-AreCreations max fuel n (some order ∷ slots) e enough r b
      (c, low, id_in, q, (p, priced, price_in, above), rest) =
    let e₀ = receive order e in
    let b₀ : IsBelow n e₀ = λ s id h. rw (same_own max fuel order e enough r s) (b s id h) in
    let r₀ = received max fuel order e enough r in
    let new : IsNew (own (is_buy order) e₀) order p = record {
      fresh = b₀ (is_buy order) order.system_id low;
      id_in = id_in;
      priced = priced;
      price_in = rw (sound_for (is_buy order) max e₀ r₀.sound).own_max price_in;
      positive = q;
    } in
    let (t, order', e₁, runs, r₁, b₁) =
      create_order-IsBelow (is_buy order) max p fuel n order e₀ r₀ new above enough b₀ low in
    let e₂ = booked order e t e₁ in
    let r₂ : IsRunning max e₂ = IsRunning-after max e₁ e₂ r₁ r₁.sound refl refl in
    let b₂ : IsBelow (suc order.system_id) e₂ =
      λ s id h. rw (own-cong s e₂ e₁ refl refl) (b₁ s id h) in
    let (e₃, runs', r₃) =
      matching_engine-AreCreations max fuel (suc order.system_id) slots e₂ enough r₂ b₂ rest in
    (e₃, rw (read_order-creates fuel t order order' e e₁ c runs, ◌>>=◌) runs', r₃)
