-- ===== src/Engine/Progress.antt =====
-- matching/matching.cpp: why each round of the `while` loop of `aggresiveMatch` gets further.
use trade_engine.Prelude.{
  ℕ, ◌-◌, ◌≤◌, ◌<◌, ◌≡◌, ◌≢◌, inl, inr, refl, ◌∙◌, ap, Bool, true, false, not, List, [], arith,
  Bool-cases, ℕ-cases, ◌==◌,
}
use trade_engine.Structs.{LobOrder}
use trade_engine.Book.Rows.{live_count}
use trade_engine.Book.Inv.{IsBest}
use trade_engine.Book.Depth.{better}
use trade_engine.Engine.{beyond}

-- The rounds that are left at this best price.
abbrev pub measure : Bool → ℕ → ℕ → ℕ
measure true best max = max - best
measure false best max = best

module _ (best max : ℕ) (rows : ℕ → List LobOrder) where
  -- If the best price is out of reach, so is every live one.
  pub out_of_reach :
      (is_buy : Bool) (price : ℕ)
      → IsBest (not is_buy) best rows max
      → beyond is_buy price best ≡ true
      → (p : ℕ) → p < max
      → beyond is_buy price p ≡ false
      → live_count (rows p) ≡ 0
  out_of_reach true price (a, b, c) h p k l = ground (arith, b p k)
  out_of_reach false price (a, b, c) h p k l = ground (arith, b p k)

  pub no_better :
      (is_buy : Bool)
      → IsBest (not is_buy) best rows max
      → (p : ℕ) → p < max
      → better is_buy p best ≡ true
      → live_count (rows p) ≡ 0
  no_better true (a, b, c) p k h = ground (arith, b p k)
  no_better false (a, b, c) p k h = ground (arith, b p k)

  -- Where the best price has no row, or an empty one, nothing is live.
  pub row_missing :
      (is_buy : Bool)
      → IsBest (not is_buy) best rows max
      → max ≤ best
      → (p : ℕ) → p < max
      → live_count (rows p) ≡ 0
  row_missing true (a, b, c) h p k = ground (arith, b p k)
  row_missing false (a, b, c) h p k = absurd (omega arith)

  pub row_empty :
      (is_buy : Bool)
      → IsBest (not is_buy) best rows max
      → best < max
      → rows best ≡ []
      → (p : ℕ) → p < max
      → live_count (rows p) ≡ 0
  row_empty true (a, b, c) h e p k = absurd (ground arith)
  row_empty false (a, b, c) h e p k =
      let gone : live_count (rows best) ≡ 0 = ap live_count e in
      elim (Bool-cases (p == best)) [
        | inl t ↦ let same : p ≡ best = ground arith in rw same gone
        | inr t ↦ ground (arith, b p k)
      ]

  module _ (best' : ℕ) (rows' : ℕ → List LobOrder) where
    pub measure-falls :
        (is_buy : Bool)
        → IsBest (not is_buy) best rows max
        → IsBest (not is_buy) best' rows' max
        → best < max
        → rows best ≢ []
        → (is_buy ≡ false → rows 0 ≡ [])
        → live_count (rows' best) ≡ 0
        → ((p : ℕ) → best ≢ p → rows' p ≡ rows p)
        → measure is_buy best' max < measure is_buy best max
    measure-falls true (a, b, c) (a', b', c') h n floor gone elsewhere =
        ground (arith, b best', elsewhere best')
    measure-falls false (a, b, c) (a', b', c') h n floor gone elsewhere =
        ground (arith, b best', elsewhere best', floor refl)

  -- A round with a row that is not empty is never the last that the measure allows.
  pub measure_pos :
      (is_buy : Bool)
      → best < max
      → rows best ≢ []
      → (is_buy ≡ false → rows 0 ≡ [])
      → 0 < measure is_buy best max
  measure_pos true h n floor = omega arith
  measure_pos false h n floor = elim (ℕ-cases best) [
    | inl z ↦ absurd (n (ap rows z ∙ floor refl))
    | inr (m, e) ↦ omega arith
  ]
