-- ===== src/Logger/Records.antt =====
-- header/logger.h: the records and the entries, wherever they stand in the buffer.
use trade_engine.Prelude.{
  ℕ, refl, ◌∙◌, ap, [], ◌∷◌, ◌++◌, Result, ok, fault, ◌>>=◌, ◌==◌, leb, ◌&&◌, ◌||◌, Bool, true,
  false, if◌then◌else◌,
}
use trade_engine.Structs.{
  LobOrder, LobAck, UserOrder, UserAck, LogElement, LogData, lob_order, user_order, user_ack,
  lob_ack,
}
use trade_engine.Logger.{
  Text, number_line, price_line, char_line, write_user_order, write_lob_order, write_lob_ack,
  write_user_ack, write_data, write_element,
}
use trade_engine.Logger.Appending.{
  IsAppending, Appends, bind-IsAppending, ok-IsAppending, after-IsAppending, more-Appends,
  char_line-Appends, number_line-IsAppending, price_line-IsAppending,
}

write_user_order-IsAppending : (o : UserOrder) → IsAppending (write_user_order o)
unfolding write_user_order
write_user_order-IsAppending o =
    bind-IsAppending (number_line "UserOrder Arrived_cycle count : " o.arrived_cycle_count) _
      (number_line-IsAppending _ _)
      (bind-IsAppending (number_line "UserOrder id " o.order_id) _ (number_line-IsAppending _ _) (
        bind-IsAppending (number_line "Trade id " o.trader_id) _ (number_line-IsAppending _ _) (
          bind-IsAppending (λ b. price_line "price " o.price (char_line "req_type " o.req_type b)) _
            (after-IsAppending (char_line "req_type " o.req_type) (price_line "price " o.price)
              (char_line-Appends _ _) (price_line-IsAppending _ _))
            (bind-IsAppending (number_line "quantity " o.quantity) _ (number_line-IsAppending _ _)
              (number_line-IsAppending _ _)))))

two_lines-Appends : (f g : Text → Text) → Appends f → Appends g → Appends (λ b. g (f b))
two_lines-Appends f g h k before b = ap g (h before b) ∙ k before (f b)

write_lob_order-IsAppending : (o : LobOrder) → IsAppending (write_lob_order o)
unfolding write_lob_order
write_lob_order-IsAppending o =
    bind-IsAppending (number_line "arrival_cycle_count " o.arrival_cycle_count) _
      (number_line-IsAppending _ _)
      (bind-IsAppending (number_line "LOB System_id " o.system_id) _ (number_line-IsAppending _ _) (
        bind-IsAppending (price_line "LOB price " o.price) _ (price_line-IsAppending _ _) (
          bind-IsAppending (number_line "LOB quantity " o.quantity) _ (number_line-IsAppending _ _)
            (bind-IsAppending
              (λ b.
                number_line "lob trade id " o.trade_id (
                  char_line "lob req_type " o.req_type (char_line "lob ordertype " o.order_type b)))
              _
              (after-IsAppending
                (λ b.
                  char_line "lob req_type " o.req_type (char_line "lob ordertype " o.order_type b))
                (number_line "lob trade id " o.trade_id)
                (two_lines-Appends (char_line "lob ordertype " o.order_type)
                  (char_line "lob req_type " o.req_type) (char_line-Appends _ _)
                  (char_line-Appends _ _))
                (number_line-IsAppending _ _))
              (number_line-IsAppending _ _)))))

write_lob_ack-IsAppending : (a : LobAck) → IsAppending (write_lob_ack a)
unfolding write_lob_ack
write_lob_ack-IsAppending a =
    bind-IsAppending (number_line "System id " a.system_id) _ (number_line-IsAppending _ _) (
      bind-IsAppending (price_line "Price " a.price) _ (price_line-IsAppending _ _) (
        bind-IsAppending (number_line "Quantity " a.quantity) _ (number_line-IsAppending _ _) (
          ok-IsAppending _ (
            two_lines-Appends (char_line "side " a.side) (char_line "Status " a.status)
              (char_line-Appends _ _) (char_line-Appends _ _)))))

write_user_ack-IsAppending : (a : UserAck) → IsAppending (write_user_ack a)
unfolding write_user_ack
write_user_ack-IsAppending a =
    bind-IsAppending (number_line "Order id " a.order_id) _ (number_line-IsAppending _ _) (
      bind-IsAppending (price_line "Price " a.price) _ (price_line-IsAppending _ _) (
        bind-IsAppending (number_line "Quantity " a.quantity) _ (number_line-IsAppending _ _) (
          ok-IsAppending _ (
            two_lines-Appends (char_line "side " a.side) (char_line "Status " a.status)
              (char_line-Appends _ _) (char_line-Appends _ _)))))

-- A test that does not look at the text.
if-IsAppending :
    (t : Bool) (f g : Text → Result Text)
    → IsAppending f
    → IsAppending g
    → IsAppending (λ b. if t then f b else g b)
if-IsAppending true f g h k = h
if-IsAppending false f g h k = k

unchanged-IsAppending : IsAppending (λ b. ok b)
unchanged-IsAppending before b = refl

fault-IsAppending : IsAppending (λ b. fault)
fault-IsAppending before b = refl

other-IsAppending : (t : Bool) → IsAppending (λ b. if t then ok b else fault)
other-IsAppending t =
    if-IsAppending t (λ b. ok b) (λ b. fault) unchanged-IsAppending fault-IsAppending

spaced-IsAppending :
    (f : Text → Result Text) → IsAppending f → IsAppending (λ b. f b >>= λ t. ok (t ++ b' ' ∷ []))
spaced-IsAppending f h =
    bind-IsAppending f (λ t. ok (t ++ b' ' ∷ [])) h (ok-IsAppending _ (more-Appends (b' ' ∷ [])))

write_data-IsAppending : (log_id : ℕ) (d : LogData) → IsAppending (write_data log_id d)
unfolding write_data
write_data-IsAppending log_id (user_order o) =
    if-IsAppending (log_id == 1) _ _
      (spaced-IsAppending (write_user_order o) (write_user_order-IsAppending o))
      (other-IsAppending (log_id == 0 || leb 11 log_id))
write_data-IsAppending log_id (lob_order o) =
    if-IsAppending (leb 2 log_id && leb log_id 5) _ _
      (spaced-IsAppending (write_lob_order o) (write_lob_order-IsAppending o))
      (if-IsAppending (log_id == 6 || log_id == 7) (write_lob_order o) _
        (write_lob_order-IsAppending o) (other-IsAppending (log_id == 0 || leb 11 log_id)))
write_data-IsAppending log_id (lob_ack a) =
    if-IsAppending (log_id == 8 || log_id == 9) (write_lob_ack a) _ (write_lob_ack-IsAppending a)
      (other-IsAppending (log_id == 0 || leb 11 log_id))
write_data-IsAppending log_id (user_ack a) =
    if-IsAppending (log_id == 10) (write_user_ack a) _ (write_user_ack-IsAppending a)
      (other-IsAppending (log_id == 0 || leb 11 log_id))

pub write_element-IsAppending : (entry : LogElement) → IsAppending (write_element entry)
unfolding write_element
write_element-IsAppending entry =
    bind-IsAppending (number_line "Log ID " entry.log_id) _ (number_line-IsAppending _ _) (
      bind-IsAppending (number_line "Timestamp " entry.timestamp) _ (number_line-IsAppending _ _) (
        bind-IsAppending (write_data entry.log_id entry.log_data) _ (write_data-IsAppending _ _)
          (ok-IsAppending _ (more-Appends (10 ∷ [])))))
