-- ===== src/Logger/Mismatch.antt =====
-- header/logger.h: entries that hold another record than their log id announces.
use trade_engine.Prelude.{
  ℕ, zero, suc, ◌+◌, ◌-◌, ◌*◌, ◌≤◌, ◌<◌, ◌≡◌, refl, true, false, List, [], ◌∷◌, ◌++◌, length, arith,
  Each, ◌==◌, leb, ok, fault, ◌>>=◌, ◌⊎◌, ◌&&◌, ◌||◌,
}
use trade_engine.Structs.{LogElement, LogData, lob_order, user_order, user_ack, lob_ack}
use trade_engine.Logger.{
  Text, limit, buffer_size, margin, write_data, write_element, drain, drain_batch,
}
use trade_engine.Logger.Bounds.{Grows, Grows-bind, Grows-ok, number_line-Grows}
use trade_engine.Logger.Batch.{IsWord, IsLogged}
use trade_engine.Logger.Drain.{write_element-Grows}

-- A log id of the `switch`, and the alternative that its case does not take.
abbrev pub IsMismatched : ℕ → LogData → Type 0
IsMismatched log_id (user_order o) = (2 ≤ log_id) × (log_id ≤ 10)
IsMismatched log_id (lob_order o) = (log_id ≡ 1) ⊎ ((8 ≤ log_id) × (log_id ≤ 10))
IsMismatched log_id (lob_ack a) = ((1 ≤ log_id) × (log_id ≤ 7)) ⊎ (log_id ≡ 10)
IsMismatched log_id (user_ack a) = (1 ≤ log_id) × (log_id ≤ 9)

write_data-fault :
    (log_id : ℕ) (d : LogData) (buffer : Text)
    → IsMismatched log_id d
    → write_data log_id d buffer ≡ fault
unfolding write_data
write_data-fault log_id (user_order o) buffer (low, high) =
    let one : (log_id == 1) ≡ false = ground arith in
    let other : (log_id == 0 || leb 11 log_id) ≡ false = ground arith in rw (one, other)
write_data-fault log_id (lob_order o) buffer h =
    let low : (leb 2 log_id && leb log_id 5) ≡ false = ground arith in
    let high : (log_id == 6 || log_id == 7) ≡ false = ground arith in
    let other : (log_id == 0 || leb 11 log_id) ≡ false = ground arith in rw (low, high, other)
write_data-fault log_id (lob_ack a) buffer h =
    let mine : (log_id == 8 || log_id == 9) ≡ false = ground arith in
    let other : (log_id == 0 || leb 11 log_id) ≡ false = ground arith in rw (mine, other)
write_data-fault log_id (user_ack a) buffer (low, high) =
    let mine : (log_id == 10) ≡ false = ground arith in
    let other : (log_id == 0 || leb 11 log_id) ≡ false = ground arith in rw (mine, other)

write_data-unknown :
    (log_id : ℕ) (d : LogData) (buffer : Text)
    → (log_id == 0 || leb 11 log_id) ≡ true
    → write_data log_id d buffer ≡ ok buffer
unfolding write_data
write_data-unknown log_id (user_order o) buffer h =
    let mine : (log_id == 1) ≡ false = ground arith in rw (mine, h)
write_data-unknown log_id (lob_order o) buffer h =
    let low : (leb 2 log_id && leb log_id 5) ≡ false = ground arith in
    let high : (log_id == 6 || log_id == 7) ≡ false = ground arith in rw (low, high, h)
write_data-unknown log_id (lob_ack a) buffer h =
    let mine : (log_id == 8 || log_id == 9) ≡ false = ground arith in rw (mine, h)
write_data-unknown log_id (user_ack a) buffer h =
    let mine : (log_id == 10) ≡ false = ground arith in rw (mine, h)

write_element-fault :
    (entry : LogElement) (buffer : Text)
    → IsWord entry.log_id
    → IsWord entry.timestamp
    → IsMismatched entry.log_id entry.log_data
    → write_element entry buffer ≡ fault
unfolding write_element
write_element-fault entry buffer i t h =
    let g₁ = number_line-Grows "Log ID " entry.log_id buffer (ground arith) i in
    let g₂ = number_line-Grows "Timestamp " entry.timestamp g₁.text (ground arith) t in
    rw (g₁.runs, ◌>>=◌, g₂.runs, write_data-fault entry.log_id entry.log_data g₂.text h)

-- The entry is written, wherever it stands.
abbrev pub IsWritable : LogElement → Type 0
IsWritable entry = (buffer : Text) → Grows 642 buffer (write_element entry buffer)

pub IsLogged-IsWritable : (entry : LogElement) → IsLogged entry → IsWritable entry
IsLogged-IsWritable entry h buffer = write_element-Grows entry buffer h

-- So is an entry whose log id is not in the `switch`.
pub unknown-IsWritable :
    (entry : LogElement)
    → IsWord entry.log_id
    → IsWord entry.timestamp
    → (entry.log_id == 0 || leb 11 entry.log_id) ≡ true
    → IsWritable entry
unfolding write_element
unknown-IsWritable entry i t h buffer =
    Grows-bind 64 578 buffer _ _ (number_line-Grows "Log ID " _ buffer (ground arith) i) λ b₁.
      Grows-bind 64 514 b₁ _ _ (number_line-Grows "Timestamp " _ b₁ (ground arith) t) λ b₂.
        rw (passed b₂)
          (Grows-bind 513 1 b₂ (ok b₂) _ (unchanged b₂) λ b₃. Grows-ok 1 b₃ (10 ∷ []) (omega arith))
  where
    passed : (b : Text) → write_data entry.log_id entry.log_data b ≡ ok b
    passed b = write_data-unknown entry.log_id entry.log_data b h

    unchanged : (b : Text) → Grows 513 b (ok b)
    unchanged b = record { text = b; runs = refl; bounded = omega arith }

drain-fault :
    (rounds : ℕ) (before behind : List LogElement) (bad : LogElement) (buffer : Text)
    → Each IsWritable before
    → IsWord bad.log_id
    → IsWord bad.timestamp
    → IsMismatched bad.log_id bad.log_data
    → length before < rounds
    → length buffer + 642 * length before < buffer_size - margin
    → drain rounds (before ++ bad ∷ behind) buffer ≡ fault
unfolding drain
drain-fault zero before behind bad buffer w i t h few small = absurd (omega arith)
drain-fault (suc rounds) [] behind bad buffer w i t h few small =
    let room : leb (buffer_size - margin) (length buffer) ≡ false = ground arith in
    rw (room, write_element-fault bad buffer i t h, ◌>>=◌)
drain-fault (suc rounds) (entry ∷ before) behind bad buffer (w, ws) i t h few small =
    let room : leb (buffer_size - margin) (length buffer) ≡ false = ground arith in
    let g = w buffer in
    rw (room, g.runs, ◌>>=◌)
      (drain-fault rounds before behind bad g.text ws i t h (omega arith)
        (omega (arith, g.bounded, small)))

-- An entry that holds another record than its log id announces ends the logger, in the batch that
-- reaches it: behind fewer than `limit` entries that can be written, `drainBatch` throws, and it
-- is not allowed to.
pub drain_batch-fault :
    (before behind : List LogElement) (bad : LogElement) (file : Text)
    → Each IsWritable before
    → IsWord bad.log_id
    → IsWord bad.timestamp
    → IsMismatched bad.log_id bad.log_data
    → length before < limit
    → drain_batch (before ++ bad ∷ behind) file ≡ fault
unfolding drain_batch
drain_batch-fault before behind bad file w i t h few =
    rw (drain-fault limit before behind bad [] w i t h few (omega arith), ◌>>=◌)
