-- ===== src/Book/Best.antt =====
-- header/lob_struct.h: how the best price follows the rows.
use trade_engine.Prelude.{
  ℕ, zero, suc, ◌+◌, ◌-◌, ◌≤◌, ◌<◌, ◌≡◌, ◌≢◌, ◌⊎◌, inl, inr, refl, Bool, true, false, List, ℤ, pos,
  is_zero, arith, Bool-cases, ◌==◌, if◌then◌else◌,
}
use trade_engine.Structs.{LobOrder}
use trade_engine.Book.{glide_down, glide_up, improve}
use trade_engine.Book.Rows.{live_count}
use trade_engine.Book.Inv.{IsBest}

module _ (counts : ℕ → ℤ) (rows : ℕ → List LobOrder) (max : ℕ)
    (agree : (p : ℕ) → p < max → counts p ≡ pos (live_count (rows p))) where
  row_empty : (p : ℕ) → p < max → is_zero (counts p) ≡ true → live_count (rows p) ≡ 0
  row_empty p h e = ground (arith, agree p h)

  below :
      (best : ℕ) {r : ℕ}
      → suc best < max
      → is_zero (counts (suc best)) ≡ true
      → ((p : ℕ) → r < p → p ≤ best → live_count (rows p) ≡ 0)
      → (p : ℕ) → r < p
      → p ≤ suc best
      → live_count (rows p) ≡ 0
  below best h e ih p k l = elim (Bool-cases (p == suc best)) [
    | inl t ↦ let same : p ≡ suc best = ground arith in rw same (row_empty (suc best) h e)
    | inr f ↦ ih p k (ground arith)
  ]

  above :
      (best : ℕ) {r : ℕ}
      → best < max
      → is_zero (counts best) ≡ true
      → ((p : ℕ) → suc best ≤ p → p < r → live_count (rows p) ≡ 0)
      → (p : ℕ) → best ≤ p
      → p < r
      → live_count (rows p) ≡ 0
  above best h e ih p k l = elim (Bool-cases (p == best)) [
    | inl t ↦ let same : p ≡ best = ground arith in rw same (row_empty best h e)
    | inr f ↦ ih p (ground arith) l
  ]

  -- The first live row at or below `best`, or row 0.
  pub glide_down_lem :
      (best : ℕ)
      → best < max
      → let r = glide_down counts best in
        (r ≤ best)
        × ((p : ℕ) → r < p → p ≤ best → live_count (rows p) ≡ 0)
        × ((r ≡ 0) ⊎ (0 < live_count (rows r)))
  unfolding glide_down
  glide_down_lem zero h = (omega arith, λ p k l. absurd (omega arith), inl refl)
  glide_down_lem (suc best) h =
      let ih = glide_down_lem best (omega arith) in
      elim (Bool-cases (is_zero (counts (suc best)))) [
        | inl e ↦ rw e (omega (arith, ih.0), λ p k l. below best h e (ih.1) p k l, ih.2)
        | inr e ↦
            rw e
              (omega arith, λ p k l. absurd (omega arith), inr (ground (arith, agree (suc best) h)))
      ]

  -- The first live row at or above `best`, or the end.
  pub glide_up_lem :
      (rounds best : ℕ)
      → best + rounds ≡ max
      → let r = glide_up counts rounds best in
        (best ≤ r)
        × (r ≤ max)
        × ((p : ℕ) → best ≤ p → p < r → live_count (rows p) ≡ 0)
        × ((r ≡ max) ⊎ (0 < live_count (rows r)))
  unfolding glide_up
  glide_up_lem zero best h =
      (omega arith, omega arith, λ p k l. absurd (omega arith), inl (omega arith))
  glide_up_lem (suc rounds) best h =
      let ih = glide_up_lem rounds (suc best) (omega arith) in
      elim (Bool-cases (is_zero (counts best))) [
        | inl e ↦
            rw e (omega (arith, ih.0), ih.1, λ p k l. above best (omega arith) e ih.2 p k l, ih.3)
        | inr e ↦ rw e (
          omega arith,
          omega arith,
          λ p k l. absurd (omega arith),
          inr (ground (arith, agree best (omega arith))),
        )
      ]

-- `IsBest` reads the rows only by how many live orders they hold.
pub IsBest-cong :
    (is_buy : Bool) (best max : ℕ) (rows rows' : ℕ → List LobOrder)
    → ((p : ℕ) → live_count (rows' p) ≡ live_count (rows p))
    → IsBest is_buy best rows max
    → IsBest is_buy best rows' max
IsBest-cong true best max rows rows' same (a, b, c) =
    (a, (λ p h k. b p h (rw same at k)), ground (arith, same best))
IsBest-cong false best max rows rows' same (a, b, c) =
    (a, (λ p h k. b p h (rw same at k)), ground (arith, same best))

-- A write to row `p` alone.
module _ (best max p : ℕ) (rows rows' : ℕ → List LobOrder) (h : p < max)
    (other : (p' : ℕ) → p' ≢ p → live_count (rows' p') ≡ live_count (rows p')) where
  -- The row has gained a live order.
  pub improve-IsBest :
      (is_buy : Bool)
      → 0 < live_count (rows' p)
      → IsBest is_buy best rows max
      → IsBest is_buy (improve is_buy best p) rows' max
  unfolding improve
  improve-IsBest true here (a, b, c) =
      (ground arith, (λ p' k l. ground (arith, b p' k, other p')), ground (arith, other best))
  improve-IsBest false here (a, b, c) =
      (ground arith, (λ p' k l. ground (arith, b p' k, other p')), ground (arith, other best))

  -- The row has lost live orders, and is not an emptied best row: the best price stays.
  pub keep-IsBest :
      (is_buy : Bool)
      → live_count (rows' p) ≤ live_count (rows p)
      → (p ≢ best) ⊎ (0 < live_count (rows' p))
      → IsBest is_buy best rows max
      → IsBest is_buy best rows' max
  keep-IsBest true fewer stays (a, b, c) =
      (a, (λ p' k l. ground (arith, b p' k, other p')), ground (arith, other best))
  keep-IsBest false fewer stays (a, b, c) =
      (a, (λ p' k l. ground (arith, b p' k, other p')), ground (arith, other best))

  module _ (counts : ℕ → ℤ)
      (agree : (p : ℕ) → p < max → counts p ≡ pos (live_count (rows' p))) where
    -- The best row has lost live orders: the best price glides to the next live row.
    pub glide-IsBest :
        (is_buy : Bool)
        → live_count (rows' p) ≤ live_count (rows p)
        → p ≡ best
        → IsBest is_buy best rows max
        → IsBest is_buy
            (if is_buy then glide_down counts best else glide_up counts (max - best) best)
            rows'
            max
    glide-IsBest true fewer e (a, b, c) =
        let g = glide_down_lem counts rows' max agree best a in
        (omega (arith, g.0), (λ p' k l. ground (arith, b p' k, other p', g.1 p')), g.2)
    glide-IsBest false fewer e (a, b, c) =
        let g = glide_up_lem counts rows' max agree (max - best) best (omega arith) in
        (g.1, (λ p' k l. ground (arith, b p' k, other p', g.2 p')), g.3)
