-- ===== src/Gateway/Handle.antt =====
-- order_gateway/order_gateway.cpp: `gatewayOrderProcess` adds the order to the history.
use trade_engine.Prelude.{
  ℕ, ◌<◌, ◌≡◌, refl, ◌∙◌, ap, some, List, [], ◌∷◌, ◌++◌, length, get_elem?, ok, ◌>>=◌, Bool-cases,
  inl, inr, get_elem?-append_last, get_elem?-lt, Each-append, Each-mono,
}
use trade_engine.Structs.{
  LogData, user_order, lob_order, gateway_receive_user_order, gateway_send_to_me, LobOrder,
  UserOrder,
}
use trade_engine.Outbox.{has_room, attempted, publish}
use trade_engine.Engine.{sub64}
use trade_engine.Gateway.{
  Gateway, now_cycle, cycle_passed, write_log, assigned, lut_length, find, write_log_now,
  lob_order_of, send_order, process_order,
}
use trade_engine.Gateway.History.{
  Ascending-append, Sends, IsFaithful, assign_ok, assigned-IsFaithful,
}

-- Nothing that the history speaks of has changed, nor has what waits in the queues.
pub record IsSame (g g' : Gateway) : Type 0 where
  pub same_next : g'.next_system_id ≡ g.next_system_id
  pub same_map : g'.map ≡ g.map
  pub same_lut : g'.lut ≡ g.lut
  pub same_sent : g'.lob_orders.sent ≡ g.lob_orders.sent
  pub same_sniper : g'.sniper_orders ≡ g.sniper_orders
  pub same_maker : g'.maker_orders ≡ g.maker_orders

pub same-IsFaithful :
    (history : List UserOrder) (g g' : Gateway)
    → IsSame g g'
    → IsFaithful history g
    → IsFaithful history g'
same-IsFaithful history g g' s f = record {
  counted = s.same_next ∙ f.counted;
  within = f.within;
  named = λ k u h. ap (λ l. l k) s.same_lut ∙ f.named k u h;
  mapped = λ id. ap (find id) s.same_map ∙ f.mapped id;
  sent = rw s.same_sent f.sent;
  ascending = rw s.same_sent f.ascending;
}

pub write_log_now-IsSame :
    (id : ℕ) (entry : LogData) (g : Gateway) → IsSame g (write_log_now id entry g)
unfolding write_log_now
write_log_now-IsSame id entry g = elim (Bool-cases (has_room g.logger)) [
  | inl t ↦ rw t (record {
    same_next = refl;
    same_map = refl;
    same_lut = refl;
    same_sent = refl;
    same_sniper = refl;
    same_maker = refl;
  })
  | inr t ↦ rw t (record {
    same_next = refl;
    same_map = refl;
    same_lut = refl;
    same_sent = refl;
    same_sniper = refl;
    same_maker = refl;
  })
]

-- An order handled: it is the last of the history, and the queues are as they were.
pub record Handled (history : List UserOrder) (u : UserOrder) (g g' : Gateway) : Type 0 where
  pub runs : process_order u g ≡ ok g'
  pub faithful : IsFaithful (history ++ u ∷ []) g'
  pub kept_sniper : g'.sniper_orders ≡ g.sniper_orders
  pub kept_maker : g'.maker_orders ≡ g.maker_orders

pub process_order_lem :
    (history : List UserOrder) (u : UserOrder) (g : Gateway)
    → IsFaithful history g
    → length history < lut_length
    → (g' : Gateway) × Handled history u g g'
unfolding process_order send_order
process_order_lem history u g f h = elim (Bool-cases (has_room g.lob_orders)) [
  | inl t ↦
      let logged = write_log_now-IsSame gateway_send_to_me (lob_order (g.seen write)) g₃ in
      (
        write_log_now gateway_send_to_me (lob_order (g.seen write)) g₃,
        record {
          runs = rw (assign_ok history u g₁ f₁ h, ◌>>=◌, t);
          faithful = same-IsFaithful (history ++ u ∷ []) g₃ _ logged f₃;
          kept_sniper = logged.same_sniper;
          kept_maker = logged.same_maker;
        },
      )
  | inr t ↦ (
    record g₂ { lob_orders = attempted g₂.lob_orders },
    record {
      runs = rw (assign_ok history u g₁ f₁ h, ◌>>=◌, t);
      faithful = record {
        counted = f₂.counted;
        within = f₂.within;
        named = f₂.named;
        mapped = f₂.mapped;
        sent = f₂.sent;
        ascending = f₂.ascending;
      };
      kept_sniper = refl;
      kept_maker = refl;
    },
  )
]
  where
    g₁ : Gateway
    g₁ = write_log gateway_receive_user_order (now_cycle g) (user_order u) (cycle_passed g)

    f₁ : IsFaithful history g₁
    f₁ = record {
      counted = f.counted;
      within = f.within;
      named = f.named;
      mapped = f.mapped;
      sent = f.sent;
      ascending = f.ascending;
    }

    g₂ : Gateway
    g₂ = assigned u.order_id g₁

    f₂ : IsFaithful (history ++ u ∷ []) g₂
    f₂ = assigned-IsFaithful history u g₁ f₁ h

    write : LobOrder
    write = lob_order_of (now_cycle g) (now_cycle g₂) g.next_system_id u

    published : Gateway
    published = cycle_passed (record g₂ { lob_orders = publish write (attempted g₂.lob_orders) })

    g₃ : Gateway
    g₃ = cycle_passed (record published {
      order_gateway_time = g.order_gateway_time ++ sub64 (now_cycle published) (now_cycle g) ∷ [];
    })

    here : get_elem? (history ++ u ∷ []) g.next_system_id ≡ some u
    here = rw f.counted (get_elem?-append_last history u)

    before : (o : LobOrder) → Sends history o → o.system_id < g.next_system_id
    before o s = rw f.counted (get_elem?-lt history o.system_id s.here)

    f₃ : IsFaithful (history ++ u ∷ []) g₃
    f₃ = record {
      counted = f₂.counted;
      within = f₂.within;
      named = f₂.named;
      mapped = f₂.mapped;
      sent = Each-append (Sends (history ++ u ∷ [])) g.lob_orders.sent write f₂.sent (record {
        request = u;
        here = here;
        same_price = refl;
        same_quantity = refl;
        same_trader = refl;
        same_side = refl;
        same_type = refl;
      });
      ascending = Ascending-append g.lob_orders.sent write f.ascending (
          Each-mono (Sends history) (λ o. o.system_id < g.next_system_id) g.lob_orders.sent
            (λ o h. before o h) f.sent);
    }
