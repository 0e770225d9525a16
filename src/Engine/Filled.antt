-- ===== src/Engine/Filled.antt =====
-- matching/matching.cpp: the fills of an order at each price are those that it takes from the queue
-- of the price, behind the better prices.
use trade_engine.Prelude.{
  ℕ, ◌-◌, ◌<◌, ◌≡◌, ◌≢◌, inl, inr, refl, sym, ◌∙◌, ap, ap₂, append-nil, Bool, true, false, List, [],
  ◌∷◌, ◌++◌, arith, Bool-cases, ◌==◌, ==_refl, if◌then◌else◌,
}
use native.Mathlib.Decide.{dec_le, dec_lt}
use trade_engine.Structs.{LobOrder}
use trade_engine.Book.Rows.{live, live_count, total}
use trade_engine.Book.Depth.{ahead, better, live-empty, total-live}
use trade_engine.Engine.{beyond}
use trade_engine.Engine.Consume.{consume, consume-all, total-consume}
use trade_engine.Engine.Fills.{Fill, fills_at, fills_at-none}
use trade_engine.Engine.Sweep.{Swept, none_ahead, ahead-step, better_total}

fills_at-nil : (p q : ℕ) → fills_at p q [] ≡ []
unfolding fills_at
fills_at-nil p q = refl

-- The fills at a price.
abbrev pub at_price : ℕ → List Fill → List Fill
at_price p [] = []
at_price p (f ∷ fs) = let rest = at_price p fs in if f.price == p then f ∷ rest else rest

at_price-append :
    (p : ℕ) (fs gs : List Fill) → at_price p (fs ++ gs) ≡ at_price p fs ++ at_price p gs
at_price-append p [] gs = refl
at_price-append p (f ∷ fs) gs = elim (Bool-cases (f.price == p)) [
  | inl e ↦ rw e (ap (λ t. f ∷ t) (at_price-append p fs gs))
  | inr e ↦ rw e (at_price-append p fs gs)
]

at_price-fills_at : (p q : ℕ) (os : List LobOrder) → at_price p (fills_at p q os) ≡ fills_at p q os
unfolding fills_at
at_price-fills_at p q [] = refl
at_price-fills_at p q (o ∷ os) = elim (Bool-cases (q == 0)) [
  | inl e ↦ rw e refl
  | inr e ↦ rw (e, ==_refl p, at_price-fills_at p (q - o.quantity) os) refl
]

at_price-fills_at_other :
    (p p' q : ℕ) (os : List LobOrder) → (p' == p) ≡ false → at_price p (fills_at p' q os) ≡ []
unfolding fills_at
at_price-fills_at_other p p' q [] n = refl
at_price-fills_at_other p p' q (o ∷ os) n = elim (Bool-cases (q == 0)) [
  | inl e ↦ rw e refl
  | inr e ↦ rw (e, n) (at_price-fills_at_other p p' (q - o.quantity) os n)
]

-- At each price of the book that the order reaches, the fills are those of what it wants behind the
-- better prices from the queue of the price.
abbrev pub AreFills : Bool → ℕ → ℕ → ℕ → (ℕ → List LobOrder) → List Fill → Type 0
AreFills is_buy price q max rows fills =
    (p : ℕ)
    → p < max
    → at_price p fills ≡ (
        if beyond is_buy price p
        then []
        else fills_at p (q - ahead is_buy rows max p) (live (rows p)))

live-none : (os : List LobOrder) → total os ≡ 0 → live os ≡ []
live-none [] z = refl
live-none (o ∷ os) z = ground (arith, live-none os)

-- A queue that stays as it is has no lots, or none are taken.
fills_at_kept :
    (p n : ℕ) (os : List LobOrder) → live os ≡ consume n (live os) → fills_at p n (live os) ≡ []
unfolding fills_at
fills_at_kept p n os h = elim (dec_lt 0 n) [
  | yes some_taken ↦
      let none_left : total os ≡ 0 =
        omega (arith, some_taken, ap total h, total-consume n (live os), total-live os) in
      let nothing : live os ≡ [] = live-none os none_left in rw nothing refl
  | no none_taken ↦ fills_at-none p n (live os) (omega arith)
]

pub AreFills-none :
    (is_buy : Bool) (price q max : ℕ) (rows : ℕ → List LobOrder)
    → Swept is_buy price q q max rows rows
    → AreFills is_buy price q max rows []
AreFills-none is_buy price q max rows s p h = elim (Bool-cases (beyond is_buy price p)) [
  | inl b ↦ rw b refl
  | inr b ↦
      rw b (sym (fills_at_kept p (q - ahead is_buy rows max p) (rows p) (rw b at (s.levels p h))))
]

-- One row served, and then the others: `best` is the best live price and in reach.
module _ (is_buy : Bool) (price q left max best : ℕ) (rows rows' rows'' : ℕ → List LobOrder)
    (best_in : best < max) (in_reach : beyond is_buy price best ≡ false)
    (is_best : (p : ℕ) → p < max → better is_buy p best ≡ true → live_count (rows p) ≡ 0)
    (elsewhere : (p : ℕ) → best ≢ p → rows' p ≡ rows p)
    (served : live (rows' best) ≡ consume q (live (rows best)))
    (next : Swept is_buy price (q - total (rows best)) left max rows' rows'') (fs : List Fill)
    (filled : AreFills is_buy price (q - total (rows best)) max rows' fs) where
  -- Nothing more is taken at the best price.
  best_done : at_price best fs ≡ []
  best_done = rw in_reach at (filled best best_in) ∙ elim (dec_le q (total (rows best))) [
    | yes few ↦ fills_at-none best _ (live (rows' best)) (omega arith)
    | no many ↦
        let gone : live (rows' best) ≡ [] = served ∙ consume-all q (rows best) (omega arith) in
        rw gone (fills_at-nil best _)
  ]

  filled_best :
      at_price best (fills_at best q (live (rows best)) ++ fs)
      ≡ fills_at best (q - ahead is_buy rows max best) (live (rows best))
  filled_best =
      let first : ahead is_buy rows max best ≡ 0 =
        none_ahead is_buy price q left max best rows rows' rows'' best_in in_reach is_best elsewhere
          served next in
      let all : q - 0 ≡ q = omega arith in
      rw (first, all)
        (at_price-append best (fills_at best q (live (rows best))) fs
          ∙ ap₂ ◌++◌ (at_price-fills_at best q (live (rows best))) best_done
          ∙ append-nil (fills_at best q (live (rows best))))

  filled_other :
      (p : ℕ)
      → p < max
      → (best == p) ≡ false
      → beyond is_buy price p ≡ false
      → at_price p fs ≡ fills_at p (q - ahead is_buy rows max p) (live (rows p))
  filled_other p h n b =
      let other : best ≢ p = ground arith in
      let after = rw (b, elsewhere p other) at (filled p h) in
      elim (Bool-cases (better is_buy p best)) [
        | inl t ↦
            let gone = live-empty (rows p) (is_best p h t) in
            after ∙ rw gone (fills_at-nil p _ ∙ sym (fills_at-nil p _))
        | inr t ↦
            after
            ∙ ap (λ k. fills_at p k (live (rows p)))
                (ahead-step is_buy price q left max best rows rows' rows'' best_in in_reach is_best
                  elsewhere served next p (better_total is_buy p best (λ e. other (sym e)) t))
      ]

  pub AreFills-step : AreFills is_buy price q max rows (fills_at best q (live (rows best)) ++ fs)
  AreFills-step p h = elim (Bool-cases (best == p)) [
    | inl e ↦ let same : best ≡ p = ground arith in rw (← same, in_reach) filled_best
    | inr e ↦
        let before : at_price p (fills_at best q (live (rows best)) ++ fs) ≡ at_price p fs =
          at_price-append p (fills_at best q (live (rows best))) fs
          ∙ ap (λ t. t ++ at_price p fs) (at_price-fills_at_other p best q (live (rows best)) e) in
        before ∙ elim (Bool-cases (beyond is_buy price p)) [
          | inl b ↦ rw b (rw b at (filled p h))
          | inr b ↦ rw b (filled_other p h e b)
        ]
  ]
