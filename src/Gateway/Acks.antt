-- ===== src/Gateway/Acks.antt =====
-- order_gateway/order_gateway.cpp: acknowledgements are not part of the history.
use trade_engine.Prelude.{refl, ◌∙◌, List, [], ◌∷◌, Bool-cases, inl, inr}
use trade_engine.Structs.{
  user_ack, lob_ack, gateway_receive_me_ack, gateway_send_user_ack, LobAck, UserAck,
}
use trade_engine.Outbox.{Outbox, has_room, attempted}
use trade_engine.Gateway.{Gateway, write_log_now, pass_ack, take_ack, user_ack_of}
use trade_engine.Gateway.Handle.{IsSame, write_log_now-IsSame}

IsSame-trans : (g g' g'' : Gateway) → IsSame g g' → IsSame g' g'' → IsSame g g''
IsSame-trans g g' g'' s t = record {
  same_next = t.same_next ∙ s.same_next;
  same_map = t.same_map ∙ s.same_map;
  same_lut = t.same_lut ∙ s.same_lut;
  same_sent = t.same_sent ∙ s.same_sent;
  same_sniper = t.same_sniper ∙ s.same_sniper;
  same_maker = t.same_maker ∙ s.same_maker;
}

-- The queues of acknowledgements are not part of the history.
pub with_acks-IsSame :
    (acks : List LobAck) (out : Outbox UserAck) (g : Gateway)
    → IsSame g (record g { lob_acks = acks; sniper_acks = out })
with_acks-IsSame acks out g = record {
  same_next = refl;
  same_map = refl;
  same_lut = refl;
  same_sent = refl;
  same_sniper = refl;
  same_maker = refl;
}

pass_ack-IsSame : (ack : LobAck) (rest : List LobAck) (g : Gateway) → IsSame g (pass_ack ack rest g)
unfolding pass_ack
pass_ack-IsSame ack rest g = elim (Bool-cases (has_room g'.sniper_acks)) [
  | inl t ↦ rw t (
      IsSame-trans g claimed _ received (
        IsSame-trans claimed g'' _
          (write_log_now-IsSame gateway_send_user_ack (user_ack (user_ack_of ack g')) claimed)
          (with_acks-IsSame rest _ g'')))
  | inr t ↦ rw t received
]
  where
    g' : Gateway
    g' = write_log_now gateway_receive_me_ack (lob_ack ack) g

    claimed : Gateway
    claimed = record g' { sniper_acks = attempted g'.sniper_acks }

    g'' : Gateway
    g'' = write_log_now gateway_send_user_ack (user_ack (user_ack_of ack g')) claimed

    received : IsSame g claimed
    received =
        IsSame-trans g g' claimed (write_log_now-IsSame gateway_receive_me_ack (lob_ack ack) g)
          (with_acks-IsSame g'.lob_acks (attempted g'.sniper_acks) g')

pub take_ack-IsSame : (acks : List LobAck) (g : Gateway) → IsSame g (take_ack acks g)
unfolding take_ack
take_ack-IsSame [] g = with_acks-IsSame g.lob_acks g.sniper_acks g
take_ack-IsSame (ack ∷ rest) g = pass_ack-IsSame ack rest g
