-- ===== src/Book/Depth.antt =====
-- header/lob_struct.h: the quantity that rests in a book, in all and at better prices.
use trade_engine.Prelude.{
  ℕ, zero, suc, ◌+◌, ◌≤◌, ◌<◌, ◌≡◌, ◌≢◌, inl, inr, refl, ap₂, Bool, true, false, List, [], ◌∷◌,
  arith, Bool-cases, ◌==◌, ltb, if◌then◌else◌,
}
use trade_engine.Structs.{LobOrder}
use trade_engine.Book.Rows.{live, live_count, total}

-- The sum of `f` over the numbers below `n`.
abbrev pub sum_below : (ℕ → ℕ) → ℕ → ℕ
sum_below f zero = 0
sum_below f (suc n) = f n + sum_below f n

pub sum_below-cong :
    (f g : ℕ → ℕ) (n : ℕ) → ((p : ℕ) → p < n → f p ≡ g p) → sum_below f n ≡ sum_below g n
sum_below-cong f g zero h = refl
sum_below-cong f g (suc n) h =
    ap₂ ◌+◌ (h n (omega arith)) (sum_below-cong f g n (λ p k. h p (omega arith)))

-- A change at one number alone.
pub sum_below-change :
    (f g : ℕ → ℕ) (n p : ℕ)
    → p < n
    → ((q : ℕ) → q < n → p ≢ q → f q ≡ g q)
    → sum_below f n + g p ≡ sum_below g n + f p
sum_below-change f g zero p h k = absurd (omega arith)
sum_below-change f g (suc n) p h k = elim (Bool-cases (p == n)) [
  | inl e ↦
      let same : p ≡ n = ground arith in
      let rest = sum_below-cong f g n (λ q l. k q (omega arith) (λ t. omega arith)) in
      rw same (omega (arith, rest))
  | inr e ↦
      let here = k n (omega arith) (ground arith) in
      omega (arith, here, sum_below-change f g n p (ground arith) (λ q l. k q (omega arith)))
]

pub sum_below_le : (f : ℕ → ℕ) (n p : ℕ) → p < n → f p ≤ sum_below f n
sum_below_le f zero p h = absurd (omega arith)
sum_below_le f (suc n) p h = elim (Bool-cases (p == n)) [
  | inl e ↦ let same : p ≡ n = ground arith in rw same (omega arith)
  | inr e ↦ omega (arith, sum_below_le f n p (ground arith))
]

pub sum_below_zero : (f : ℕ → ℕ) (n : ℕ) → ((p : ℕ) → p < n → f p ≡ 0) → sum_below f n ≡ 0
sum_below_zero f zero h = refl
sum_below_zero f (suc n) h =
    omega (arith, h n (omega arith), sum_below_zero f n (λ p k. h p (omega arith)))

-- Price `q` is served before price `p`, for a buy order on asks and for a sell order on bids.
abbrev pub better : Bool → ℕ → ℕ → Bool
better true q p = ltb q p
better false q p = ltb p q

-- The quantity at the prices below `max` that are served before `p`.
abbrev pub ahead : Bool → (ℕ → List LobOrder) → ℕ → ℕ → ℕ
ahead is_buy rows max p = sum_below (λ q. if better is_buy q p then total (rows q) else 0) max

-- The quantity at the prices below `max` that `stop` does not rule out.
abbrev pub depth : (ℕ → Bool) → (ℕ → List LobOrder) → ℕ → ℕ
depth stop rows max = sum_below (λ q. if stop q then 0 else total (rows q)) max

abbrev pub resting : (ℕ → List LobOrder) → ℕ → ℕ
resting rows max = sum_below (λ q. total (rows q)) max

pub total-live : (os : List LobOrder) → total (live os) ≡ total os
total-live [] = refl
total-live (o ∷ os) = ground (arith, total-live os)

pub live-empty : (os : List LobOrder) → live_count os ≡ 0 → live os ≡ []
live-empty [] h = refl
live-empty (o ∷ os) h = ground (arith, live-empty os)

pub total-empty : (os : List LobOrder) → live_count os ≡ 0 → total os ≡ 0
total-empty [] h = refl
total-empty (o ∷ os) h = ground (arith, total-empty os)

pub live_count-live : (os : List LobOrder) → live os ≡ [] → live_count os ≡ 0
live_count-live [] h = refl
live_count-live (o ∷ os) h = ground (arith, live_count-live os)

pub sum_below_mono :
    (f g : ℕ → ℕ) (n : ℕ) → ((p : ℕ) → p < n → f p ≤ g p) → sum_below f n ≤ sum_below g n
sum_below_mono f g zero h = omega arith
sum_below_mono f g (suc n) h =
    omega (arith, h n (omega arith), sum_below_mono f g n (λ p k. h p (omega arith)))
