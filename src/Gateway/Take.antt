-- ===== src/Gateway/Take.antt =====
-- order_gateway/order_gateway.cpp: one round of `run`. The orders that it takes off the two queues
-- become the next of the history, each queue in its own order.
use trade_engine.Prelude.{
  ℕ, ◌+◌, ◌≤◌, ◌<◌, ◌≡◌, refl, sym, ◌∙◌, ap, List, [], ◌∷◌, ◌++◌, length, length-append, arith,
  Result, ok, ◌>>=◌, inl, inr, List-cases, Interleaves, neither, first, second, Interleaves-append,
  length-Interleaves, append_assoc, append-nil,
}
use trade_engine.Structs.{UserOrder}
use trade_engine.Gateway.{
  Gateway, lut_length, take_order, release_sniper, release_maker, take_sniper_order,
  take_maker_order, take_ack, round,
}
use trade_engine.Gateway.History.{IsFaithful}
use trade_engine.Gateway.Handle.{IsSame, same-IsFaithful, process_order_lem}
use trade_engine.Gateway.Acks.{take_ack-IsSame}

-- The orders that wait.
abbrev pub pending : Gateway → ℕ
pending g = length g.sniper_orders + length g.maker_orders

-- The gateway returns. Orders off the front of the two queues have been handled.
pub record Advances (history : List UserOrder) (g : Gateway) (r : Result Gateway) : Type 0 where
  pub state : Gateway
  pub sniper : List UserOrder
  pub maker : List UserOrder
  pub added : List UserOrder
  pub runs : r ≡ ok state
  pub faithful : IsFaithful (history ++ added) state
  pub merged : Interleaves sniper maker added
  pub from_sniper : g.sniper_orders ≡ sniper ++ state.sniper_orders
  pub from_maker : g.maker_orders ≡ maker ++ state.maker_orders

pub Advances-balance :
    (history : List UserOrder) (g : Gateway) (r : Result Gateway) (a : Advances history g r)
    → length (history ++ a.added) + pending a.state ≡ length history + pending g
Advances-balance history g r a =
    rw
      (
        a.from_sniper,
        a.from_maker,
        length-append history a.added,
        length-append a.sniper a.state.sniper_orders,
        length-append a.maker a.state.maker_orders,
        length-Interleaves a.merged,
      )
      (omega arith)

stays_by :
    (history : List UserOrder) (g : Gateway)
    → IsFaithful history g
    → (r : Result Gateway) → r ≡ ok g
    → Advances history g r
stays_by history g f r e = record {
  state = g;
  sniper = [];
  maker = [];
  added = [];
  runs = e;
  faithful = rw (append-nil history) f;
  merged = neither;
  from_sniper = refl;
  from_maker = refl;
}

pub with_queues-IsFaithful :
    (history sniper maker : List UserOrder) (g : Gateway)
    → IsFaithful history g
    → IsFaithful history (record g { sniper_orders = sniper; maker_orders = maker })
with_queues-IsFaithful history sniper maker g f = record {
  counted = f.counted;
  within = f.within;
  named = f.named;
  mapped = f.mapped;
  sent = f.sent;
  ascending = f.ascending;
}

take_sniper_order_lem :
    (history : List UserOrder) (g : Gateway)
    → IsFaithful history g
    → length history + pending g ≤ lut_length
    → Advances history g (take_sniper_order g)
unfolding take_sniper_order take_order
take_sniper_order_lem history g f h = elim (List-cases g.sniper_orders) [
  | inl e ↦ stays_by history g f (take_sniper_order g) (ap (λ os. take_order release_sniper os g) e)
  | inr (u, rest, e) ↦
      let room : length history < lut_length = ground (arith, ap length e) in
      let (g', d) = process_order_lem history u g f room in
      record {
        state = record g' { sniper_orders = rest };
        sniper = u ∷ [];
        maker = [];
        added = u ∷ [];
        runs = ap (λ os. take_order release_sniper os g) e ∙ rw (d.runs, ◌>>=◌);
        faithful = with_queues-IsFaithful (history ++ u ∷ []) rest g'.maker_orders g' d.faithful;
        merged = first u neither;
        from_sniper = e;
        from_maker = sym d.kept_maker;
      }
]

take_maker_order_lem :
    (history : List UserOrder) (g : Gateway)
    → IsFaithful history g
    → length history + pending g ≤ lut_length
    → Advances history g (take_maker_order g)
unfolding take_maker_order take_order
take_maker_order_lem history g f h = elim (List-cases g.maker_orders) [
  | inl e ↦ stays_by history g f (take_maker_order g) (ap (λ os. take_order release_maker os g) e)
  | inr (u, rest, e) ↦
      let room : length history < lut_length = ground (arith, ap length e) in
      let (g', d) = process_order_lem history u g f room in
      record {
        state = record g' { maker_orders = rest };
        sniper = [];
        maker = u ∷ [];
        added = u ∷ [];
        runs = ap (λ os. take_order release_maker os g) e ∙ rw (d.runs, ◌>>=◌);
        faithful = with_queues-IsFaithful (history ++ u ∷ []) g'.sniper_orders rest g' d.faithful;
        merged = second u neither;
        from_sniper = sym d.kept_sniper;
        from_maker = e;
      }
]

-- One run of the gateway after another.
pub Advances-then :
    (history : List UserOrder) (g : Gateway) (r r' r'' : Result Gateway) (a : Advances history g r)
    → Advances (history ++ a.added) a.state r'
    → (r' ≡ r'')
    → Advances history g r''
Advances-then history g r r' r'' a b e = record {
  state = b.state;
  sniper = a.sniper ++ b.sniper;
  maker = a.maker ++ b.maker;
  added = a.added ++ b.added;
  runs = sym e ∙ b.runs;
  faithful = rw (append_assoc history a.added b.added) at b.faithful;
  merged = Interleaves-append a.merged b.merged;
  from_sniper =
      a.from_sniper
      ∙ ap (λ q. a.sniper ++ q) b.from_sniper
      ∙ sym (append_assoc a.sniper b.sniper b.state.sniper_orders);
  from_maker =
      a.from_maker
      ∙ ap (λ q. a.maker ++ q) b.from_maker
      ∙ sym (append_assoc a.maker b.maker b.state.maker_orders);
}

Advances-same :
    (history : List UserOrder) (g g' : Gateway) (r r' : Result Gateway) (a : Advances history g r)
    → IsSame a.state g'
    → r' ≡ ok g'
    → Advances history g r'
Advances-same history g g' r r' a s e = record {
  state = g';
  sniper = a.sniper;
  maker = a.maker;
  added = a.added;
  runs = e;
  faithful = same-IsFaithful (history ++ a.added) a.state g' s a.faithful;
  merged = a.merged;
  from_sniper = a.from_sniper ∙ ap (λ q. a.sniper ++ q) (sym s.same_sniper);
  from_maker = a.from_maker ∙ ap (λ q. a.maker ++ q) (sym s.same_maker);
}

pub round_lem :
    (history : List UserOrder) (g : Gateway)
    → IsFaithful history g
    → length history + pending g ≤ lut_length
    → Advances history g (round g)
unfolding round Advances-then
round_lem history g f h =
    let a = take_sniper_order_lem history g f h in
    let b =
      take_maker_order_lem (history ++ a.added) a.state a.faithful
        (omega (arith, Advances-balance history g (take_sniper_order g) a)) in
    let c = Advances-then history g _ _ (take_maker_order a.state) a b refl in
    Advances-same history g (take_ack b.state.lob_acks b.state) _ (round g) c
      (take_ack-IsSame b.state.lob_acks b.state) (rw (a.runs, ◌>>=◌, b.runs))
