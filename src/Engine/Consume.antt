-- ===== src/Engine/Consume.antt =====
-- matching/matching.cpp: the queue of a price level under fills, as a function.
use trade_engine.Prelude.{
  ℕ, ◌-◌, ◌≤◌, ◌≡◌, inl, inr, refl, ap, List, [], ◌∷◌, arith, Bool-cases, ◌==◌, ltb, lt→ltb,
  if◌then◌else◌,
}
use trade_engine.Structs.{LobOrder}
use trade_engine.Book.Rows.{live, total}

-- A queue after `q` lots are taken from its front.
unfoldable pub consume : ℕ → List LobOrder → List LobOrder
consume q [] = []
consume q (o ∷ os) =
    let rest = consume (q - o.quantity) os in
    if ltb q o.quantity then record o { quantity = o.quantity - q } ∷ os else rest

pub consume-none : (n : ℕ) (os : List LobOrder) → n ≡ 0 → consume n (live os) ≡ live os
unfolding consume
consume-none n [] z = refl
consume-none n (o ∷ os) z = elim (Bool-cases (o.quantity == 0)) [
  | inl e ↦ rw e (consume-none n os z)
  | inr e ↦ rw e (
      rw (lt→ltb n o.quantity (ground arith))
        (ap (λ k. record o { quantity = k } ∷ live os) (omega arith)))
]

pub total-consume : (q : ℕ) (os : List LobOrder) → total (consume q os) ≡ total os - q
unfolding consume
total-consume q [] = omega arith
total-consume q (o ∷ os) = ground (arith, total-consume (q - o.quantity) os)

pub consume-all : (q : ℕ) (os : List LobOrder) → total os ≤ q → consume q (live os) ≡ []
unfolding consume
consume-all q [] h = refl
consume-all q (o ∷ os) h = ground (arith, consume-all q os, consume-all (q - o.quantity) os)

pub consume-nil : (q : ℕ) → consume q [] ≡ []
unfolding consume
consume-nil q = refl
