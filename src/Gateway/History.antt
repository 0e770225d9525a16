-- ===== src/Gateway/History.antt =====
-- order_gateway/order_gateway.cpp: the gateway against the list of the orders that it has handled.
-- An order's system id is its position in that list.
use trade_engine.Prelude.{
  ◌%◌, ◌^◌, ℕ, suc, ◌+◌, ◌≤◌, ◌<◌, ◌≡◌, refl, sym, ◌∙◌, ap, Option, none, some, List, [], ◌∷◌, ◌++◌,
  length, get_elem?, length-append, arith, ◌==◌, ==_refl, if◌then◌else◌, ok, Bool-cases, inl, inr,
  get_elem?-append_cases, get_elem?-append_left, get_elem?-lt, Option-cases, Each, Each-append,
  Each-mono,
}
use trade_engine.Structs.{LobOrder, UserOrder}
use trade_engine.Gateway.{Gateway, assigned, lut_length, find, insert, assign_system_id}

-- The first position from `n` on at which the order id stands.
abbrev pub first_from : ℕ → ℕ → List UserOrder → Option ℕ
first_from n id [] = none
first_from n id (u ∷ us) = if u.order_id == id then some n else first_from (suc n) id us

-- What the engine is sent is the request at the position that its system id names, field by field;
-- a quantity is cut to 32 bits.
pub record Sends (history : List UserOrder) (o : LobOrder) : Type 0 where
  pub request : UserOrder
  pub here : get_elem? history o.system_id ≡ some request
  pub same_price : o.price ≡ request.price
  pub same_quantity : o.quantity ≡ request.quantity % 2 ^ 32
  pub same_trader : o.trade_id ≡ request.trader_id
  pub same_side : o.order_type ≡ request.order_type
  pub same_type : o.req_type ≡ request.req_type

-- Each system id is above those before it.
abbrev pub Ascending : List LobOrder → Type 0
Ascending [] = Unit {0}
Ascending (o ∷ os) = Each (λ o'. o.system_id < o'.system_id) os × Ascending os

pub Ascending-append :
    (os : List LobOrder) (o : LobOrder)
    → Ascending os
    → Each (λ o'. o'.system_id < o.system_id) os
    → Ascending (os ++ o ∷ [])
Ascending-append [] o a b = (tt, tt)
Ascending-append (x ∷ os) o (a, rest) (b, bs) =
    (Each-append (λ o'. x.system_id < o'.system_id) os o a b, Ascending-append os o rest bs)

pub record IsFaithful (history : List UserOrder) (g : Gateway) : Type 0 where
  pub counted : g.next_system_id ≡ length history
  pub within : length history ≤ lut_length
  pub named : (k : ℕ) (u : UserOrder) → get_elem? history k ≡ some u → g.lut k ≡ u.order_id
  pub mapped : (id : ℕ) → find id g.map ≡ first_from 0 id history
  pub sent : Each (Sends history) g.lob_orders.sent
  pub ascending : Ascending g.lob_orders.sent

abbrev or_else : Option ℕ → Option ℕ → Option ℕ
or_else none other = other
or_else (some k) other = some k

first_from-append :
    (n id : ℕ) (us : List UserOrder) (u : UserOrder)
    → first_from n id (us ++ u ∷ [])
      ≡ or_else (first_from n id us) (if u.order_id == id then some (n + length us) else none)
first_from-append n id [] u = ground arith
first_from-append n id (x ∷ us) u = elim (Bool-cases (x.order_id == id)) [
  | inl t ↦ rw t
  | inr t ↦
      let shift : suc n + length us ≡ n + suc (length us) = omega arith in
      rw (t, first_from-append (suc n) id us u, shift)
]

find-insert :
    (key value : ℕ) (entries : List (ℕ × ℕ)) (id : ℕ)
    → find id (insert key value entries)
      ≡ or_else (find id entries) (if key == id then some value else none)
unfolding insert
find-insert key value entries id = elim (Option-cases (find key entries)) [
  | inl t ↦ elim (Bool-cases (key == id)) [
    | inl e ↦ let same : key ≡ id = ground arith in rw (insert, t, e, ← same, t)
    | inr e ↦ rw (insert, t, e) (sym (or_else-none (find id entries)))
  ]
  | inr (k, t) ↦ elim (Bool-cases (key == id)) [
    | inl e ↦ let same : key ≡ id = ground arith in rw (insert, t, ← same, t)
    | inr e ↦ rw (insert, t, e) (sym (or_else-none (find id entries)))
  ]
]
  where
    or_else-none : (o : Option ℕ) → or_else o none ≡ o
    or_else-none none = refl
    or_else-none (some k) = refl

Sends-append :
    (history : List UserOrder) (u : UserOrder) (o : LobOrder)
    → Sends history o
    → Sends (history ++ u ∷ []) o
Sends-append history u o s = record {
  request = s.request;
  here =
      get_elem?-append_left history (u ∷ []) o.system_id (get_elem?-lt history o.system_id s.here)
      ∙ s.here;
  same_price = s.same_price;
  same_quantity = s.same_quantity;
  same_trader = s.same_trader;
  same_side = s.same_side;
  same_type = s.same_type;
}

module _ (history : List UserOrder) (u : UserOrder) (g : Gateway) (f : IsFaithful history g) where
  pub assign_ok :
      length history < lut_length
      → assign_system_id u.order_id g ≡ ok (g.next_system_id, assigned u.order_id g)
  unfolding assign_system_id
  assign_ok h = ground (arith, f.counted)

  pub assigned-IsFaithful :
      length history < lut_length → IsFaithful (history ++ u ∷ []) (assigned u.order_id g)
  assigned-IsFaithful h = record {
    counted = ground (arith, f.counted, length-append history (u ∷ []));
    within = ground (arith, length-append history (u ∷ []));
    named = λ k v e. elim (get_elem?-append_cases history u k e) [
      | inl here ↦ ground (arith, f.named k v here, f.counted, get_elem?-lt history k here)
      | inr (last, same) ↦
          rw (last, ← f.counted, ==_refl g.next_system_id) (ap (λ x. x.order_id) (sym same))
    ];
    mapped = λ id.
        find-insert u.order_id g.next_system_id g.map id
        ∙ rw (f.mapped id, f.counted) (sym (rw from_zero at (first_from-append 0 id history u)));
    sent =
        Each-mono (Sends history) (Sends (history ++ u ∷ [])) g.lob_orders.sent
          (Sends-append history u) f.sent;
    ascending = f.ascending;
  }
    where
      from_zero : 0 + length history ≡ length history
      from_zero = omega arith
