-- ===== src/Gateway/Lookup.antt =====
-- order_gateway/order_gateway.cpp: the two ways between order ids and system ids, and the
-- acknowledgements that go back to the trader.
use trade_engine.Prelude.{
  ◌<◌, ◌++◌, [], ◌∷◌, ◌⊎◌, inl, inr, ok, length, arith, ℕ, suc, ◌+◌, ◌-◌, ◌%◌, ◌^◌, ◌≤◌, ◌≡◌, refl,
  sym, ◌∙◌, ap, true, false, some, List, [], ◌∷◌, ◌++◌, get_elem?, arith, ◌==◌, ltb, lt→ltb, le→leb,
  if◌then◌else◌, fault, ◌>>=◌, Bool-cases, inl, inr, ◌⊎◌, get_elem?-lt,
}
use native.Mathlib.Decide.{dec_lt}
use trade_engine.Gateway.Handle.{process_order_lem}
use trade_engine.Structs.{
  LobAck, UserOrder, UserAck, LogData, lob_ack, user_ack, gateway_receive_me_ack,
  gateway_send_user_ack,
}
use trade_engine.Outbox.{has_room, attempted}
use trade_engine.Gateway.{
  Gateway, lut_length, system_to_order_id, assign_system_id, get_system_id, write_log_now,
  process_order, pass_ack, take_ack, user_ack_of,
}
use trade_engine.Gateway.History.{IsFaithful, first_from}

first_from_lem :
    (n id k : ℕ) (us : List UserOrder)
    → first_from n id us ≡ some k
    → (i : ℕ) × (u : UserOrder) × (k ≡ n + i) × (get_elem? us i ≡ some u) × (u.order_id ≡ id)
first_from_lem n id k [] h = cc
first_from_lem n id k (u ∷ us) h = elim (Bool-cases (u.order_id == id)) [
  | inl t ↦ (0, u, ground arith, refl, ground arith)
  | inr t ↦
      let (i, v, e, here, same) = first_from_lem (suc n) id k us (rw t at h) in
      (suc i, v, omega (arith, e), here, same)
]

system_to_order_id-known :
    (history : List UserOrder) (k : ℕ) (u : UserOrder) (g : Gateway)
    → IsFaithful history g
    → get_elem? history k ≡ some u
    → system_to_order_id k g ≡ u.order_id
unfolding system_to_order_id
system_to_order_id-known history k u g f h =
    rw (lt→ltb k lut_length (omega (arith, get_elem?-lt history k h, f.within))) (f.named k u h)

system_to_order_id-cong :
    (k : ℕ) (g g' : Gateway) → g'.lut ≡ g.lut → system_to_order_id k g' ≡ system_to_order_id k g
unfolding system_to_order_id
system_to_order_id-cong k g g' e = ap (λ l. if ltb k lut_length then l k else 2 ^ 64 - 1) e

-- In a gateway that is faithful to a history, the system id that it finds for an order id leads
-- back to that order id.
pub system_to_order_id-get_system_id :
    (history : List UserOrder) (id k : ℕ) (g : Gateway)
    → IsFaithful history g
    → get_system_id id g ≡ some k
    → system_to_order_id k g ≡ id
unfolding get_system_id
system_to_order_id-get_system_id history id k g f h =
    let (i, u, e, here, same) = first_from_lem 0 id k history (sym (f.mapped id) ∙ h) in
    let at : k ≡ i = omega (arith, e) in
    rw at (system_to_order_id-known history i u g f here ∙ same)

acks-write_log_now :
    (id : ℕ) (entry : LogData) (g : Gateway)
    → ((write_log_now id entry g).sniper_acks ≡ g.sniper_acks)
      × ((write_log_now id entry g).lob_acks ≡ g.lob_acks)
      × ((write_log_now id entry g).lut ≡ g.lut)
unfolding write_log_now
acks-write_log_now id entry g = elim (Bool-cases (has_room g.logger)) [
  | inl t ↦ rw t (refl, refl, refl)
  | inr t ↦ rw t (refl, refl, refl)
]

-- An acknowledgement of an order that the gateway has handled is passed on, where the trader's
-- queue has room, under the trader's id of that order, cut to 32 bits, and leaves its queue;
-- otherwise nothing is published and it stays.
pub take_ack-known :
    (history : List UserOrder) (u : UserOrder) (ack : LobAck) (rest : List LobAck) (g : Gateway)
    → IsFaithful history g
    → g.lob_acks ≡ ack ∷ rest
    → get_elem? history ack.system_id ≡ some u
    → let g' = take_ack (ack ∷ rest) g in
      (has_room g.sniper_acks ≡ true)
        × (g'.sniper_acks.sent
            ≡ g.sniper_acks.sent
              ++ record {
                order_id = u.order_id % 2 ^ 32;
                price = ack.price;
                quantity = ack.quantity;
                side = ack.side;
                status = ack.status;
                pad = 0;
              }
                ∷ [])
        × (g'.lob_acks ≡ rest)
      ⊎ (has_room g.sniper_acks ≡ false)
        × (g'.sniper_acks.sent ≡ g.sniper_acks.sent)
        × (g'.lob_acks ≡ ack ∷ rest)
unfolding take_ack pass_ack
take_ack-known history u ack rest g f e h = elim (Bool-cases (has_room g.sniper_acks)) [
  | inl t ↦
      let room : has_room g'.sniper_acks ≡ true = rw received.0 t in
      rw room (
        inl (
          t,
          ap (λ o. o.sent ++ user_ack_of ack g' ∷ []) sent.0
              ∙ ap (λ o. o.sent ++ user_ack_of ack g' ∷ []) received.0
              ∙ ap (λ n. g.sniper_acks.sent ++ under n ∷ []) name,
          refl,
        ))
  | inr t ↦
      let none_left : has_room g'.sniper_acks ≡ false = rw received.0 t in
      rw none_left (inr (t, ap (λ o. o.sent) received.0, received.1 ∙ e))
]
  where
    g' : Gateway
    g' = write_log_now gateway_receive_me_ack (lob_ack ack) g

    received : (g'.sniper_acks ≡ g.sniper_acks) × (g'.lob_acks ≡ g.lob_acks) × (g'.lut ≡ g.lut)
    received = acks-write_log_now gateway_receive_me_ack (lob_ack ack) g

    claimed : Gateway
    claimed = record g' { sniper_acks = attempted g'.sniper_acks }

    g'' : Gateway
    g'' = write_log_now gateway_send_user_ack (user_ack (user_ack_of ack g')) claimed

    sent :
        (g''.sniper_acks ≡ claimed.sniper_acks)
        × (g''.lob_acks ≡ claimed.lob_acks)
        × (g''.lut ≡ claimed.lut)
    sent = acks-write_log_now gateway_send_user_ack (user_ack (user_ack_of ack g')) claimed

    name : system_to_order_id ack.system_id g' ≡ u.order_id
    name =
        system_to_order_id-cong ack.system_id g g' received.2
        ∙ system_to_order_id-known history ack.system_id u g f h

    under : ℕ → UserAck
    under n = record {
      order_id = n % 2 ^ 32;
      price = ack.price;
      quantity = ack.quantity;
      side = ack.side;
      status = ack.status;
      pad = 0;
    }

process_order-fault :
    (u : UserOrder) (g : Gateway) → lut_length ≤ g.next_system_id → process_order u g ≡ fault
unfolding process_order assign_system_id
process_order-fault u g h = rw (le→leb lut_length g.next_system_id h, ◌>>=◌)

-- What becomes of the next order depends on the history alone: while fewer than `lut_length` orders
-- have been handled, it is handled and becomes the last of the history; and when as many have been,
-- it is written behind the end of the LUT.
pub process_order-cases :
    (history : List UserOrder) (u : UserOrder) (g : Gateway)
    → IsFaithful history g
    → ((length history < lut_length)
        × (g' : Gateway) × (process_order u g ≡ ok g')
        × IsFaithful (history ++ u ∷ []) g')
      ⊎ ((length history ≡ lut_length) × (process_order u g ≡ fault))
process_order-cases history u g f = elim (dec_lt (length history) lut_length) [
  | yes h ↦ let (g', d) = process_order_lem history u g f h in inl (h, g', d.runs, d.faithful)
  | no h ↦
      let full : length history ≡ lut_length = omega (arith, f.within) in
      inr (full, process_order-fault u g (omega (arith, f.counted, full)))
]
