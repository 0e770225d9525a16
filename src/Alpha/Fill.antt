-- ===== src/Alpha/Fill.antt =====
-- alpha_tester.cpp: the orders that `AlphaRun` prepares. `rand` is not code of the repository: it is
-- any sequence of numbers, of which each order takes three. `out_cycle_count` is never written, so
-- what it holds is any sequence as well.
use trade_engine.Prelude.{
  ℕ, zero, suc, ◌+◌, ◌-◌, ◌*◌, ◌%◌, ◌<◌, ◌≤◌, ◌≡◌, refl, Bool, true, false, Option, none, some,
  List, [], ◌∷◌, arith, ◌==◌, if◌then◌else◌, length, get_elem?, ap, Bool-cases, ◌⊎◌, inl, inr,
}
use trade_engine.Structs.{UserOrder}
use trade_engine.Price.{Float, tick}
use trade_engine.Price.Double.{double_of_int, tenths, add_double, float_of_double}

abbrev pub order_num : ℕ
order_num = 100_000

-- `110.0 + (double)(step) * 0.1`, stored in a `float`.
unfoldable pub price_at : ℕ → Float
unfolding tenths add_double float_of_double
price_at step = float_of_double (add_double (double_of_int 110) (tenths step))

-- The price that a draw gives.
abbrev pub order_price : ℕ → Float
order_price draw = price_at (draw % 401)

-- The order `i`, from the draws number `3 * (i - 1)` and on.
abbrev pub new_order : (ℕ → ℕ) → (ℕ → ℕ) → ℕ → UserOrder
new_order rand out i = record {
  arrived_cycle_count = 0;
  order_id = i;
  trader_id = 1;
  order_type = if rand (3 * (i - 1) + 1) % 2 == 0 then b'b' else b's';
  req_type = b'c';
  price = order_price (rand (3 * (i - 1)));
  quantity = rand (3 * (i - 1) + 2) % 100 + 1;
  out_cycle_count = out i;
}

-- The loop that fills `TestStore`, by the orders that are left, from `i` on.
unfoldable pub prepare_from : (ℕ → ℕ) → (ℕ → ℕ) → ℕ → ℕ → List UserOrder
prepare_from rand out zero i = []
prepare_from rand out (suc left) i = new_order rand out i ∷ prepare_from rand out left (suc i)

unfoldable pub prepare : (ℕ → ℕ) → (ℕ → ℕ) → List UserOrder
prepare rand out = prepare_from rand out (order_num - 1) 1

abbrev all_below : ℕ → (ℕ → Bool) → Bool
all_below zero p = true
all_below (suc n) p = let rest = all_below n p in if p n then rest else false

all_below-lt : (n : ℕ) (p : ℕ → Bool) (k : ℕ) → all_below n p ≡ true → k < n → p k ≡ true
all_below-lt zero p k h lt = absurd (omega arith)
all_below-lt (suc n) p k h lt = ground (arith, all_below-lt n p k)

abbrev is_some : Option ℕ → ℕ → Bool
is_some none n = false
is_some (some k) n = k == n

price_table : all_below 401 (λ k. is_some (tick (price_at k)) (1100 + k)) ≡ true
unfolding price_at tick
price_table = refl

is_some-eq : (o : Option ℕ) (n : ℕ) → is_some o n ≡ true → o ≡ some n
is_some-eq none n h = ground arith
is_some-eq (some k) n h = ground arith

-- In spite of the inexact 0.1, the tick is the exact one.
order_price-tick : (draw : ℕ) → tick (order_price draw) ≡ some (1100 + draw % 401)
order_price-tick draw = is_some-eq (tick (order_price draw)) (1100 + draw % 401) (
    all_below-lt 401 (λ k. is_some (tick (price_at k)) (1100 + k)) (draw % 401) price_table
      (omega arith))

-- A creation of 1 to 100 lots, to buy or to sell, at a price from 110.0 to 150.0.
pub record IsPrepared (i : ℕ) (u : UserOrder) : Type 0 where
  pub numbered : u.order_id ≡ i
  pub created : u.req_type ≡ b'c'
  pub sided : (u.order_type ≡ b'b') ⊎ (u.order_type ≡ b's')
  pub positive : 0 < u.quantity
  pub small : u.quantity ≤ 100
  pub price_tick : ℕ
  pub priced : tick u.price ≡ some price_tick
  pub floor : 1100 ≤ price_tick
  pub ceiling : price_tick ≤ 1500

new_order-IsPrepared : (rand out : ℕ → ℕ) (i : ℕ) → IsPrepared i (new_order rand out i)
new_order-IsPrepared rand out i = record {
  numbered = refl;
  created = refl;
  sided = elim (Bool-cases (rand (3 * (i - 1) + 1) % 2 == 0)) [
    | inl t ↦ inl (rw t)
    | inr t ↦ inr (rw t)
  ];
  positive = omega arith;
  small = omega arith;
  price_tick = 1100 + rand (3 * (i - 1)) % 401;
  priced = order_price-tick (rand (3 * (i - 1)));
  floor = omega arith;
  ceiling = omega arith;
}

length-prepare_from : (rand out : ℕ → ℕ) (left i : ℕ) → length (prepare_from rand out left i) ≡ left
unfolding prepare_from
length-prepare_from rand out zero i = refl
length-prepare_from rand out (suc left) i = ap suc (length-prepare_from rand out left (suc i))

get_elem?-prepare_from :
    (rand out : ℕ → ℕ) (left i k : ℕ) (u : UserOrder)
    → get_elem? (prepare_from rand out left i) k ≡ some u
    → new_order rand out (i + k) ≡ u
unfolding prepare_from
get_elem?-prepare_from rand out zero i k u h = ground arith
get_elem?-prepare_from rand out (suc left) i zero u h =
    let here : i + 0 ≡ i = omega arith in rw here cc
get_elem?-prepare_from rand out (suc left) i (suc k) u h =
    let next : i + suc k ≡ suc i + k = omega arith in
    rw next (get_elem?-prepare_from rand out left (suc i) k u h)

-- Whatever `rand` gives, `AlphaRun` prepares `order_num - 1` orders, numbered from 1 on. Each is a
-- creation of 1 to 100 lots, to buy or to sell, and the tick that the engine will compute of its
-- `float` price is from 1100 to 1500, so that it is within the `max_price_tick` of main.cpp.
pub prepare-IsPrepared :
    (rand out : ℕ → ℕ)
    → (length (prepare rand out) ≡ order_num - 1)
      × ((k : ℕ) (u : UserOrder) → get_elem? (prepare rand out) k ≡ some u → IsPrepared (suc k) u)
unfolding prepare
prepare-IsPrepared rand out = (
  length-prepare_from rand out (order_num - 1) 1,
  λ k u h.
      let number : 1 + k ≡ suc k = omega arith in
      rw (← get_elem?-prepare_from rand out (order_num - 1) 1 k u h, number)
        (new_order-IsPrepared rand out (suc k)),
)
