-- ===== src/Engine/Sweep.antt =====
-- matching/matching.cpp: what `aggresiveMatch` promises, price by price and order by order.
use trade_engine.Prelude.{
  ℕ, ◌+◌, ◌-◌, ◌<◌, ◌≡◌, ◌≢◌, inl, inr, refl, sym, ◌∙◌, ap, Bool, true, false, not, List, [], arith,
  Bool-cases, ◌==◌, if◌then◌else◌,
}
use native.Mathlib.Decide.{dec_le}
use trade_engine.Structs.{LobOrder}
use trade_engine.Book.{Book}
use trade_engine.Book.Rows.{live, live_count, total}
use trade_engine.Book.Inv.{IsValid}
use trade_engine.Book.Depth.{
  sum_below-change, sum_below_le, sum_below_zero, better, ahead, depth, resting, total-live,
  live-empty, total-empty,
}
use trade_engine.Engine.{Engine, opposite, beyond}
use trade_engine.Engine.Consume.{consume, consume-none, consume-nil, total-consume, consume-all}

-- The state that an incoming order meets: a valid book on the other side, and, for a sell order,
-- nothing in the row of price index 0, which a buy book also takes for "no best bid".
pub record IsReadyBook (is_buy : Bool) (b : Book) : Type 0 where
  pub valid : IsValid b
  pub side : b.is_buy ≡ not is_buy
  pub floor : is_buy ≡ false → b.book 0 ≡ []

abbrev pub IsReady : Bool → Engine → Type 0
IsReady is_buy e = IsReadyBook is_buy (opposite is_buy e)

-- An order of `q` lots at price index `price` against the rows of the other side: the prices that
-- it does not reach keep their queues; at each other one, what is left behind the better prices is
-- taken from the front of the queue; and `left` lots remain.
pub record Swept (is_buy : Bool) (price q left max : ℕ) (rows rows' : ℕ → List LobOrder)
    : Type 0 where
  pub levels :
      (p : ℕ)
      → p < max
      → live (rows' p) ≡ (
          if beyond is_buy price p
          then live (rows p)
          else consume (q - ahead is_buy rows max p) (live (rows p)))
  pub rest : left ≡ q - depth (beyond is_buy price) rows max
  pub conserved : q + resting rows' max ≡ left + resting rows max

module _ (is_buy : Bool) (price max : ℕ) (rows : ℕ → List LobOrder) where
  -- Nothing is wanted.
  pub Swept-filled : (q : ℕ) → q ≡ 0 → Swept is_buy price q q max rows rows
  Swept-filled q z = record {
    levels =
        λ p h. ground (arith, consume-none (q - ahead is_buy rows max p) (rows p) (omega arith));
    rest = omega arith;
    conserved = refl;
  }

  -- Nothing is in reach.
  pub Swept-stopped :
      (q : ℕ)
      → ((p : ℕ) → p < max → beyond is_buy price p ≡ false → live_count (rows p) ≡ 0)
      → Swept is_buy price q q max rows rows
  unfolding consume
  Swept-stopped q h = record {
    levels = λ p k. elim (Bool-cases (beyond is_buy price p)) [
      | inl b ↦ rw b
      | inr b ↦ rw (b, live-empty (rows p) (h p k b))
    ];
    rest = omega (
      arith,
      sum_below_zero (λ p. if beyond is_buy price p then 0 else total (rows p)) max zeros,
    );
    conserved = refl;
  }
    where
      zeros : (p : ℕ) → p < max → (if beyond is_buy price p then 0 else total (rows p)) ≡ 0
      zeros p k = elim (Bool-cases (beyond is_buy price p)) [
        | inl b ↦ rw b
        | inr b ↦ rw b (total-empty (rows p) (h p k b))
      ]

pub better_total :
    (is_buy : Bool) (p q : ℕ) → p ≢ q → better is_buy p q ≡ false → better is_buy q p ≡ true
better_total true p q n h = ground arith
better_total false p q n h = ground arith

-- One row served, and then the others: `best` is the best live price and in reach.
module _ (is_buy : Bool) (price q left max best : ℕ) (rows rows' rows'' : ℕ → List LobOrder)
    (best_in : best < max) (in_reach : beyond is_buy price best ≡ false)
    (is_best : (p : ℕ) → p < max → better is_buy p best ≡ true → live_count (rows p) ≡ 0)
    (elsewhere : (p : ℕ) → best ≢ p → rows' p ≡ rows p)
    (served : live (rows' best) ≡ consume q (live (rows best)))
    (next : Swept is_buy price (q - total (rows best)) left max rows' rows'') where
  total-served : total (rows' best) ≡ total (rows best) - q
  total-served =
      sym (total-live (rows' best))
      ∙ ap total served
      ∙ total-consume q (live (rows best))
      ∙ ap (λ t. t - q) (total-live (rows best))

  pub none_ahead : ahead is_buy rows max best ≡ 0
  none_ahead =
      sum_below_zero (λ p. if better is_buy p best then total (rows p) else 0) max
        λ p h. elim (Bool-cases (better is_buy p best)) [
          | inl b ↦ rw b (total-empty (rows p) (is_best p h b))
          | inr b ↦ rw b
        ]

  level_best : live (rows'' best) ≡ consume (q - ahead is_buy rows max best) (live (rows best))
  level_best =
      rw (none_ahead, sub_zero) (rw in_reach at (next.levels best best_in) ∙ again ∙ served)
    where
      k : ℕ
      k = q - total (rows best) - ahead is_buy rows' max best

      sub_zero : q - 0 ≡ q
      sub_zero = omega arith

      again : consume k (live (rows' best)) ≡ live (rows' best)
      again = elim (dec_le q (total (rows best))) [
        | yes few ↦ consume-none k (rows' best) (omega arith)
        | no many ↦
            let gone : live (rows' best) ≡ [] = served ∙ consume-all q (rows best) (omega arith) in
            rw gone (consume-nil k)
      ]

  pub ahead-step :
      (p : ℕ)
      → better is_buy best p ≡ true
      → q - total (rows best) - ahead is_buy rows' max p ≡ q - ahead is_buy rows max p
  ahead-step p b = omega (
    arith,
    total-served,
    rw b at (sum_below_le (λ r. if better is_buy r p then total (rows r) else 0) max best best_in),
    rw b at (
        sum_below-change (λ r. if better is_buy r p then total (rows' r) else 0)
          (λ r. if better is_buy r p then total (rows r) else 0) max best best_in
          (λ r h n. ap (λ t. if better is_buy r p then total t else 0) (elsewhere r n))),
  )

  level_other :
      (p : ℕ)
      → p < max
      → best ≢ p
      → beyond is_buy price p ≡ false
      → live (rows'' p) ≡ consume (q - ahead is_buy rows max p) (live (rows p))
  level_other p h n b =
      let after = rw (b, elsewhere p n) at (next.levels p h) in
      elim (Bool-cases (better is_buy p best)) [
        | inl t ↦
            let gone = live-empty (rows p) (is_best p h t) in
            after ∙ rw gone (consume-nil _ ∙ sym (consume-nil _))
        | inr t ↦
            after
            ∙ ap (λ k. consume k (live (rows p)))
                (ahead-step p (better_total is_buy p best (λ e. n (sym e)) t))
      ]

  Swept-step_levels :
      (p : ℕ)
      → p < max
      → live (rows'' p) ≡ (
          if beyond is_buy price p
          then live (rows p)
          else consume (q - ahead is_buy rows max p) (live (rows p)))
  Swept-step_levels p h = elim (Bool-cases (best == p)) [
    | inl e ↦ let same : best ≡ p = ground arith in rw (← same, in_reach) level_best
    | inr e ↦ elim (Bool-cases (beyond is_buy price p)) [
      | inl b ↦ rw b (rw (b, elsewhere p (ground arith)) at (next.levels p h))
      | inr b ↦ rw b (level_other p h (ground arith) b)
    ]
  ]

  Swept-step_rest : left ≡ q - depth (beyond is_buy price) rows max
  Swept-step_rest = omega (
    arith,
    next.rest,
    total-served,
    rw in_reach at (
        sum_below-change (λ p. if beyond is_buy price p then 0 else total (rows' p))
          (λ p. if beyond is_buy price p then 0 else total (rows p)) max best best_in
          (λ p h n. ap (λ r. if beyond is_buy price p then 0 else total r) (elsewhere p n))),
  )

  Swept-step_conserved : q + resting rows'' max ≡ left + resting rows max
  Swept-step_conserved = omega (
    arith,
    next.conserved,
    total-served,
    sum_below-change (λ p. total (rows' p)) (λ p. total (rows p)) max best best_in
        (λ p h n. ap total (elsewhere p n)),
  )

  pub Swept-step : Swept is_buy price q left max rows rows''
  Swept-step = record {
    levels = Swept-step_levels;
    rest = Swept-step_rest;
    conserved = Swept-step_conserved;
  }
