-- ===== src/System/Supply.antt =====
-- order_gateway/order_gateway.cpp before matching/matching.cpp: what the gateway sends is what the
-- engine can take, where the traders' orders are creations that a book can hold.
use trade_engine.Prelude.{
  ◌++◌, ◌-◌, refl, ◌∙◌, ap, sym, ℕ, suc, ◌%◌, ◌^◌, ◌≤◌, ◌<◌, ◌≡◌, Bool, true, false, Option, none,
  some, List, [], ◌∷◌, length, arith, Each, Each-mono, get_elem?-Each, get_elem?-lt,
}
use trade_engine.Structs.{LobOrder, UserOrder}
use trade_engine.Price.{tick}
use trade_engine.Book.{lut_size}
use trade_engine.Gateway.{Gateway, lut_length}
use trade_engine.Gateway.History.{IsFaithful, Sends, Ascending}
use trade_engine.Engine.Measured.{served}
use trade_engine.Engine.Fresh.{AreCreations}

-- A creation with a quantity that is left when it is cut to 32 bits, and with a price of the book,
-- which for a buy order is not its first.
pub record IsTradable (max : ℕ) (u : UserOrder) : Type 0 where
  pub created : u.req_type ≡ b'c'
  pub lots : 0 < u.quantity % 2 ^ 32
  pub price_tick : ℕ
  pub priced : tick u.price ≡ some price_tick
  pub within : price_tick < max
  pub above : u.order_type ≡ b'b' → 0 < price_tick

-- What readings of a queue find, by whether each comes after the next entry has been published.
abbrev pub polls : List Bool → List LobOrder → List (Option LobOrder)
polls [] sent = []
polls (true ∷ readings) [] = none ∷ polls readings []
polls (true ∷ readings) (order ∷ sent) = some order ∷ polls readings sent
polls (false ∷ readings) sent = none ∷ polls readings sent

-- How many of the readings come late enough.
abbrev pub ready : List Bool → ℕ
ready [] = 0
ready (true ∷ readings) = suc (ready readings)
ready (false ∷ readings) = ready readings

-- The orders among what readings find.
abbrev pub found : List (Option LobOrder) → List LobOrder
found [] = []
found (none ∷ slots) = found slots
found (some order ∷ slots) = order ∷ found slots

pub length-found : (slots : List (Option LobOrder)) → length (found slots) ≡ served slots
length-found [] = refl
length-found (none ∷ slots) = length-found slots
length-found (some order ∷ slots) = ap suc (length-found slots)

-- The readings that come late enough find the orders from the front.
pub found-polls :
    (readings : List Bool) (sent : List LobOrder)
    → (rest : List LobOrder) × (found (polls readings sent) ++ rest ≡ sent)
      × (length rest ≡ length sent - ready readings)
found-polls [] sent = (sent, refl, omega arith)
found-polls (true ∷ readings) [] =
    let (rest, parts, left) = found-polls readings [] in (rest, parts, omega (arith, left))
found-polls (false ∷ readings) sent = found-polls readings sent
found-polls (true ∷ readings) (order ∷ sent) =
    let (rest, parts, left) = found-polls readings sent in
    (rest, ap (λ os. order ∷ os) parts, omega (arith, left))

-- What the engine makes of an order.
abbrev pub IsCreation : ℕ → LobOrder → Type 0
IsCreation max o =
    (o.req_type ≡ b'c')
    × (o.system_id < lut_size)
    × (0 < o.quantity)
    × ((p : ℕ) × (tick o.price ≡ some p) × (p < max) × (o.order_type ≡ b'b' → 0 < p))

Sends-IsCreation :
    (max : ℕ) (history : List UserOrder) (o : LobOrder)
    → length history ≤ lut_length
    → Each (IsTradable max) history
    → Sends history o
    → IsCreation max o
Sends-IsCreation max history o few all s =
    let t = get_elem?-Each (IsTradable max) history o.system_id s.request all s.here in
    (
      s.same_type ∙ t.created,
      omega (arith, get_elem?-lt history o.system_id s.here),
      rw s.same_quantity t.lots,
      (t.price_tick, ap tick s.same_price ∙ t.priced, t.within, λ b. t.above (sym s.same_side ∙ b)),
    )

AreCreations_lem :
    (max n : ℕ) (readings : List Bool) (sent : List LobOrder)
    → Each (IsCreation max) sent
    → Each (λ o. n ≤ o.system_id) sent
    → Ascending sent
    → AreCreations max n (polls readings sent)
AreCreations_lem max n [] sent c low a = tt
AreCreations_lem max n (true ∷ readings) [] c low a = AreCreations_lem max n readings [] c low a
AreCreations_lem max n (false ∷ readings) sent c low a =
    AreCreations_lem max n readings sent c low a
AreCreations_lem max n (true ∷ readings) (o ∷ sent)
      ((created, id_in, lots, (p, priced, within, above)), c) (here, low) (next, a) =
    (
      created,
      here,
      id_in,
      lots,
      (p, priced, within, λ b. above (ground arith)),
      AreCreations_lem max (suc o.system_id) readings sent c
          (Each-mono (λ o'. o.system_id < o'.system_id) (λ o'. suc o.system_id ≤ o'.system_id) sent
            (λ o' h. omega arith) next)
          a,
    )

-- Whatever the readings, the engine finds creations that it can take.
pub IsFaithful-AreCreations :
    (max : ℕ) (history : List UserOrder) (g : Gateway) (readings : List Bool)
    → IsFaithful history g
    → Each (IsTradable max) history
    → AreCreations max 0 (polls readings g.lob_orders.sent)
IsFaithful-AreCreations max history g readings f all =
    AreCreations_lem max 0 readings g.lob_orders.sent
      (Each-mono (Sends history) (IsCreation max) g.lob_orders.sent
        (λ o h. Sends-IsCreation max history o f.within all h) f.sent)
      (Each-mono (Sends history) (λ o. 0 ≤ o.system_id) g.lob_orders.sent (λ o h. omega arith)
        f.sent)
      f.ascending
