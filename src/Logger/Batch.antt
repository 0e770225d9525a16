-- ===== src/Logger/Batch.antt =====
-- header/logger.h: each of the four records is written in a bounded number of characters.
use trade_engine.Prelude.{ℕ, ◌^◌, ◌≤◌, ◌<◌, ◌≡◌, refl, length, arith, ok, ◌⊎◌}
use Prim.Native.String.{String}
use trade_engine.Price.{Float}
use trade_engine.Structs.{
  LobOrder, LobAck, UserOrder, UserAck, LogElement, LogData, lob_order, user_order, user_ack,
  lob_ack,
}
use trade_engine.Logger.{
  Text, codes, char_line, write_user_order, write_lob_order, write_lob_ack, write_user_ack,
}
use trade_engine.Logger.Bounds.{
  Grows, Grows-bind, Grows-from, IsPrintable, number_line-Grows, price_line-Grows, length-char_line,
}

abbrev pub IsWord : ℕ → Type 0
IsWord n = n < 2 ^ 64

-- The fields are in the range of their types, and the price can be cast.
pub record IsLoggedOrder (o : LobOrder) : Type 0 where
  pub arrival : IsWord o.arrival_cycle_count
  pub id : IsWord o.system_id
  pub price : IsPrintable o.price
  pub quantity : IsWord o.quantity
  pub trader : IsWord o.trade_id
  pub out : IsWord o.out_cycle_count

pub record IsLoggedUserOrder (o : UserOrder) : Type 0 where
  pub arrival : IsWord o.arrived_cycle_count
  pub id : IsWord o.order_id
  pub trader : IsWord o.trader_id
  pub price : IsPrintable o.price
  pub quantity : IsWord o.quantity
  pub out : IsWord o.out_cycle_count

abbrev pub IsLoggedAck : ℕ → Float → ℕ → Type 0
IsLoggedAck id price quantity = IsWord id × IsPrintable price × IsWord quantity

-- The entry holds the record that its log id announces.
abbrev pub IsLoggedData : ℕ → LogData → Type 0
IsLoggedData log_id (user_order o) = (log_id ≡ 1) × IsLoggedUserOrder o
IsLoggedData log_id (lob_order o) = (2 ≤ log_id) × (log_id ≤ 7) × IsLoggedOrder o
IsLoggedData log_id (lob_ack a) =
    ((log_id ≡ 8) ⊎ (log_id ≡ 9)) × IsLoggedAck a.system_id a.price a.quantity
IsLoggedData log_id (user_ack a) = (log_id ≡ 10) × IsLoggedAck a.order_id a.price a.quantity

pub record IsLogged (entry : LogElement) : Type 0 where
  pub id : IsWord entry.log_id
  pub time : IsWord entry.timestamp
  pub data_fits : IsLoggedData entry.log_id entry.log_data

pub write_user_order-Grows :
    (o : UserOrder) (buffer : Text)
    → IsLoggedUserOrder o
    → Grows 448 buffer (write_user_order o buffer)
unfolding write_user_order
write_user_order-Grows o buffer h =
    Grows-bind 64 384 buffer _ _
      (number_line-Grows "UserOrder Arrived_cycle count : " _ buffer (ground arith) h.arrival)
      λ b₁.
        Grows-bind 64 320 b₁ _ _ (number_line-Grows "UserOrder id " _ b₁ (ground arith) h.id) λ b₂.
          Grows-bind 64 256 b₂ _ _ (number_line-Grows "Trade id " _ b₂ (ground arith) h.trader)
            λ b₃.
              Grows-bind 128 128 b₃ _ _
                (Grows-from 64 64 b₃ (char_line "req_type " o.req_type b₃) _
                  (length-char_line "req_type " o.req_type b₃ (ground arith))
                  (price_line-Grows "price " o.price _ (ground arith) h.price))
                λ b₄.
                  Grows-bind 64 64 b₄ _ _
                    (number_line-Grows "quantity " _ b₄ (ground arith) h.quantity)
                    λ b₅. number_line-Grows "out cycle count " _ b₅ (ground arith) h.out

pub write_lob_order-Grows :
    (o : LobOrder) (buffer : Text) → IsLoggedOrder o → Grows 512 buffer (write_lob_order o buffer)
unfolding write_lob_order
write_lob_order-Grows o buffer h =
    Grows-bind 64 448 buffer _ _
      (number_line-Grows "arrival_cycle_count " _ buffer (ground arith) h.arrival)
      λ b₁.
        Grows-bind 64 384 b₁ _ _ (number_line-Grows "LOB System_id " _ b₁ (ground arith) h.id) λ b₂.
          Grows-bind 64 320 b₂ _ _ (price_line-Grows "LOB price " o.price b₂ (ground arith) h.price)
            λ b₃.
              Grows-bind 64 256 b₃ _ _
                (number_line-Grows "LOB quantity " _ b₃ (ground arith) h.quantity)
                λ b₄.
                  Grows-bind 192 64 b₄ _ _
                    (Grows-from 128 64 b₄ (char_line "lob ordertype " o.order_type b₄) _
                      (length-char_line "lob ordertype " o.order_type b₄ (ground arith))
                      (Grows-from 64 64 _
                        (char_line "lob req_type " o.req_type
                          (char_line "lob ordertype " o.order_type b₄))
                        _ (length-char_line "lob req_type " o.req_type _ (ground arith))
                        (number_line-Grows "lob trade id " _ _ (ground arith) h.trader)))
                    λ b₅. number_line-Grows "Out of Cycle " _ b₅ (ground arith) h.out

char_lines-Grows :
    (l l' : String) (c c' : ℕ) (b : Text)
    → length (codes l) ≤ 40
    → length (codes l') ≤ 40
    → Grows 128 b (ok (char_line l' c' (char_line l c b)))
char_lines-Grows l l' c c' b h k = record {
  text = char_line l' c' (char_line l c b);
  runs = refl;
  bounded = omega (arith, length-char_line l c b h, length-char_line l' c' (char_line l c b) k);
}

pub write_lob_ack-Grows :
    (a : LobAck) (buffer : Text)
    → IsLoggedAck a.system_id a.price a.quantity
    → Grows 320 buffer (write_lob_ack a buffer)
unfolding write_lob_ack
write_lob_ack-Grows a buffer (i, p, q) =
    Grows-bind 64 256 buffer _ _ (number_line-Grows "System id " _ buffer (ground arith) i) λ b₁.
      Grows-bind 64 192 b₁ _ _ (price_line-Grows "Price " a.price b₁ (ground arith) p) λ b₂.
        Grows-bind 64 128 b₂ _ _ (number_line-Grows "Quantity " _ b₂ (ground arith) q)
          λ b₃. char_lines-Grows "side " "Status " a.side a.status b₃ (ground arith) (ground arith)

pub write_user_ack-Grows :
    (a : UserAck) (buffer : Text)
    → IsLoggedAck a.order_id a.price a.quantity
    → Grows 320 buffer (write_user_ack a buffer)
unfolding write_user_ack
write_user_ack-Grows a buffer (i, p, q) =
    Grows-bind 64 256 buffer _ _ (number_line-Grows "Order id " _ buffer (ground arith) i) λ b₁.
      Grows-bind 64 192 b₁ _ _ (price_line-Grows "Price " a.price b₁ (ground arith) p) λ b₂.
        Grows-bind 64 128 b₂ _ _ (number_line-Grows "Quantity " _ b₂ (ground arith) q)
          λ b₃. char_lines-Grows "side " "Status " a.side a.status b₃ (ground arith) (ground arith)
