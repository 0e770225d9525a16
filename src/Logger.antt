-- ===== src/Logger.antt =====
-- header/logger.h: the text of the log entries and the batches in which they are written.
--
-- The buffer of a batch is the list of the characters in it so far, and a function that takes and
-- returns a pointer into it appends to that list. `fault` is a write outside `temp`, a cast that is
-- undefined, or `std::get` of an alternative that the entry does not hold.
pub mod Digits
pub mod Bounds
pub mod Batch
pub mod Appending
pub mod Records
pub mod Drain
pub mod Mismatch
pub mod Loop
mod Tests
use trade_engine.Prelude.{
  ℕ, zero, suc, ◌+◌, ◌-◌, ◌*◌, ◌/◌, ◌%◌, ◌^◌, Bool, true, false, ◌&&◌, ◌||◌, Option, none, some,
  List, [], ◌∷◌, ◌++◌, length, ◌==◌, ltb, leb, if◌then◌else◌, Result, ok, fault, ◌>>=◌,
}
use Prim.Native.Char.{code}
use Prim.Native.String.{String}
use trade_engine.Price.{Float, sign, exponent, fraction, round_shift, scale, bit_length}
use trade_engine.Structs.{
  LobOrder, LobAck, UserOrder, UserAck, LogElement, LogData, lob_order, user_order, user_ack,
  lob_ack,
}

abbrev pub Text : Type 0
Text = List ℕ

abbrev pub codes : String → Text
codes String.[] = []
codes (String.◌∷◌ c s) = code c ∷ codes s

-- `LIMIT`, `sizeof(buffer)` and the margin before its end.
abbrev pub limit : ℕ
limit = 100

abbrev pub buffer_size : ℕ
buffer_size = 65_536

abbrev pub margin : ℕ
margin = 1_024

-- The `do` loop over `temp`, whose first argument is the number of places before `p`.
pub fill_temp : ℕ → ℕ → Text → Result Text
fill_temp zero value temp = fault
fill_temp (suc places) value temp =
    let temp' = (value % 10 + b'0') ∷ temp in
    let rest = fill_temp places (value / 10) temp' in if value / 10 == 0 then ok temp' else rest

-- `while (*p) *buffer++ = *p++`, on a text that a 0 ends.
pub until_nul : Text → Text
until_nul [] = []
until_nul (c ∷ cs) = let rest = until_nul cs in if c == 0 then [] else c ∷ rest

pub convert_u64_to_str : ℕ → Text → Result Text
convert_u64_to_str value buffer = do temp ← fill_temp 23 value []; ok (buffer ++ until_nul temp)

pub write_string : String → Text → Text
write_string str buffer = buffer ++ until_nul (codes str)

-- The significand of a float and its exponent, as `Price.scale` takes it.
unfoldable pub significand : Float → ℕ
significand f = if exponent f == 0 then fraction f else fraction f + 2 ^ 23

unfoldable pub scale_of : Float → ℕ
scale_of f = if exponent f == 0 then 1 else exponent f

-- `int(num)` as the `uint64_t` parameter that it becomes.
unfoldable pub int_part : Float → Result ℕ
int_part f =
    let n = scale (significand f) (scale_of f) in
    if exponent f == 255 || ltb (2 ^ 31) n || (n == 2 ^ 31 && sign f == 0)
    then fault
    else if sign f == 1 && ltb 0 n
    then ok (2 ^ 64 - n)
    else ok n

-- The magnitude of `(int)((num - int_part) * 100)`: the difference is exact, and the product is
-- rounded to 24 bits.
pub frac_part : Float → ℕ
frac_part f =
    let e = scale_of f in
    let r = significand f % 2 ^ (150 - e) * 100 in
    let k = bit_length 64 r - 24 in if leb 150 e then 0 else round_shift k r * 2 ^ k / 2 ^ (150 - e)

pub float_to_char : Float → Text → Result Text
float_to_char num buffer = do
  i ← int_part num
  b ← convert_u64_to_str i buffer
  ok (b ++ b'.' ∷ (frac_part num / 10 + b'0') ∷ (frac_part num % 10 + b'0') ∷ [])

-- A label, a value and the end of the line.
pub number_line : String → ℕ → Text → Result Text
number_line label value buffer = do
  b ← convert_u64_to_str value (write_string label buffer)
  ok (b ++ 10 ∷ [])

pub price_line : String → Float → Text → Result Text
price_line label value buffer = do
  b ← float_to_char value (write_string label buffer)
  ok (b ++ 10 ∷ [])

pub char_line : String → ℕ → Text → Text
char_line label c buffer = write_string label buffer ++ c ∷ 10 ∷ []

pub write_user_order : UserOrder → Text → Result Text
write_user_order order buffer = do
  b₁ ← number_line "UserOrder Arrived_cycle count : " order.arrived_cycle_count buffer
  b₂ ← number_line "UserOrder id " order.order_id b₁
  b₃ ← number_line "Trade id " order.trader_id b₂
  b₄ ← price_line "price " order.price (char_line "req_type " order.req_type b₃)
  b₅ ← number_line "quantity " order.quantity b₄
  number_line "out cycle count " order.out_cycle_count b₅

pub write_lob_order : LobOrder → Text → Result Text
write_lob_order order buffer = do
  b₁ ← number_line "arrival_cycle_count " order.arrival_cycle_count buffer
  b₂ ← number_line "LOB System_id " order.system_id b₁
  b₃ ← price_line "LOB price " order.price b₂
  b₄ ← number_line "LOB quantity " order.quantity b₃
  b₅ ←
      number_line "lob trade id " order.trade_id
        (char_line "lob req_type " order.req_type (char_line "lob ordertype " order.order_type b₄))
  number_line "Out of Cycle " order.out_cycle_count b₅

pub write_lob_ack : LobAck → Text → Result Text
write_lob_ack ack buffer = do
  b₁ ← number_line "System id " ack.system_id buffer
  b₂ ← price_line "Price " ack.price b₁
  b₃ ← number_line "Quantity " ack.quantity b₂
  ok (char_line "Status " ack.status (char_line "side " ack.side b₃))

pub write_user_ack : UserAck → Text → Result Text
write_user_ack ack buffer = do
  b₁ ← number_line "Order id " ack.order_id buffer
  b₂ ← price_line "Price " ack.price b₁
  b₃ ← number_line "Quantity " ack.quantity b₂
  ok (char_line "Status " ack.status (char_line "side " ack.side b₃))

-- The `switch` on the log id; `std::get` of another alternative ends the process.
pub write_data : ℕ → LogData → Text → Result Text
write_data log_id (user_order order) buffer =
    if log_id == 1
    then (do b ← write_user_order order buffer; ok (b ++ b' ' ∷ []))
    else (if log_id == 0 || leb 11 log_id then ok buffer else fault)
write_data log_id (lob_order order) buffer =
    if leb 2 log_id && leb log_id 5
    then (do b ← write_lob_order order buffer; ok (b ++ b' ' ∷ []))
    else (if log_id == 6 || log_id == 7
        then write_lob_order order buffer
        else (if log_id == 0 || leb 11 log_id then ok buffer else fault))
write_data log_id (lob_ack ack) buffer =
    if log_id == 8 || log_id == 9
    then write_lob_ack ack buffer
    else (if log_id == 0 || leb 11 log_id then ok buffer else fault)
write_data log_id (user_ack ack) buffer =
    if log_id == 10
    then write_user_ack ack buffer
    else (if log_id == 0 || leb 11 log_id then ok buffer else fault)

-- One round of the loop of `drainBatch`.
pub write_element : LogElement → Text → Result Text
write_element entry buffer = do
  b₁ ← number_line "Log ID " entry.log_id buffer
  b₂ ← number_line "Timestamp " entry.timestamp b₁
  b₃ ← write_data entry.log_id entry.log_data b₂
  ok (b₃ ++ 10 ∷ [])

-- The loop, by the rounds up to the limit: the text and what is left in the queue.
pub drain : ℕ → List LogElement → Text → Result (Text × List LogElement)
drain zero queue buffer = ok (buffer, queue)
drain (suc rounds) [] buffer = ok (buffer, [])
drain (suc rounds) (entry ∷ queue) buffer =
    if leb (buffer_size - margin) (length buffer)
    then ok (buffer, entry ∷ queue)
    else (do b ← write_element entry buffer; drain rounds queue b)

-- `drainBatch`, on the file's text: what it has been given then, what is left in the queue, and
-- whether anything was read.
pub drain_batch : List LogElement → Text → Result (Bool × List LogElement × Text)
drain_batch queue file = do
  (b, rest) ← drain limit queue []
  ok (ltb (length rest) (length queue), rest, file ++ b)
