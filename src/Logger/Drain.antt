-- ===== src/Logger/Drain.antt =====
-- header/logger.h: `drainBatch` returns, and stays within its buffer and its limit.
use trade_engine.Prelude.{
  Bool, ◌&&◌, ◌||◌, ℕ, zero, suc, ◌-◌, ◌≤◌, ◌<◌, ◌≡◌, refl, ap, true, List, [], ◌∷◌, ◌++◌, length,
  sym, ◌∙◌, append_assoc, append-nil, Each, Result, length-append, arith, ◌==◌, ltb, leb, ok, ◌>>=◌,
  Bool-cases, inl, inr,
}
use trade_engine.Structs.{LogElement, LogData, lob_order, user_order, user_ack, lob_ack}
use trade_engine.Logger.{
  Text, limit, buffer_size, margin, write_data, write_element, drain, drain_batch,
}
use trade_engine.Logger.Bounds.{Grows, Grows-bind, Grows-ok, Grows-mono, number_line-Grows}
use trade_engine.Logger.Appending.{behind}
use trade_engine.Logger.Records.{write_element-IsAppending}
use trade_engine.Logger.Batch.{
  IsLoggedData, IsLogged, write_user_order-Grows, write_lob_order-Grows, write_lob_ack-Grows,
  write_user_ack-Grows,
}

write_data-Grows :
    (log_id : ℕ) (d : LogData) (buffer : Text)
    → IsLoggedData log_id d
    → Grows 513 buffer (write_data log_id d buffer)
unfolding write_data
write_data-Grows log_id (user_order o) buffer (e, h) =
    let t : (log_id == 1) ≡ true = ground arith in
    rw t (
      Grows-mono 449 513 buffer _ (omega arith) (
        Grows-bind 448 1 buffer _ _ (write_user_order-Grows o buffer h)
          λ b. Grows-ok 1 b (b' ' ∷ []) (omega arith)))
write_data-Grows log_id (lob_order o) buffer (low, high, h) =
    elim (Bool-cases (leb 2 log_id && leb log_id 5)) [
      | inl t ↦ rw t (
          Grows-bind 512 1 buffer _ _ (write_lob_order-Grows o buffer h)
            λ b. Grows-ok 1 b (b' ' ∷ []) (omega arith))
      | inr t ↦
          let u : (log_id == 6 || log_id == 7) ≡ true = ground arith in
          rw (t, u) (Grows-mono 512 513 buffer _ (omega arith) (write_lob_order-Grows o buffer h))
    ]
write_data-Grows log_id (lob_ack a) buffer (e, h) =
    let t : (log_id == 8 || log_id == 9) ≡ true = ground arith in
    rw t (Grows-mono 320 513 buffer _ (omega arith) (write_lob_ack-Grows a buffer h))
write_data-Grows log_id (user_ack a) buffer (e, h) =
    let t : (log_id == 10) ≡ true = ground arith in
    rw t (Grows-mono 320 513 buffer _ (omega arith) (write_user_ack-Grows a buffer h))

pub write_element-Grows :
    (entry : LogElement) (buffer : Text)
    → IsLogged entry
    → Grows 642 buffer (write_element entry buffer)
unfolding write_element
write_element-Grows entry buffer h =
    Grows-bind 64 578 buffer _ _ (number_line-Grows "Log ID " _ buffer (ground arith) h.id) λ b₁.
      Grows-bind 64 514 b₁ _ _ (number_line-Grows "Timestamp " _ b₁ (ground arith) h.time) λ b₂.
        Grows-bind 513 1 b₂ _ _ (write_data-Grows entry.log_id entry.log_data b₂ h.data_fits)
          λ b₃. Grows-ok 1 b₃ (10 ∷ []) (omega arith)

abbrev pub AllLogged : List LogElement → Type 0
AllLogged = Each IsLogged

abbrev pub join : Result Text → Result Text → Result Text
join r s = r >>= λ a. s >>= λ b. ok (a ++ b)

-- The text of entries, each written on its own.
abbrev pub texts : List LogElement → Result Text
texts [] = ok []
texts (entry ∷ entries) = join (write_element entry []) (texts entries)

-- An entry is written behind what is there as it is written on its own.
write_element-behind :
    (entry : LogElement) (buffer : Text)
    → write_element entry buffer ≡ behind buffer (write_element entry [])
write_element-behind entry buffer =
    ap (write_element entry) (sym (append-nil buffer)) ∙ write_element-IsAppending entry buffer []

written_behind :
    (entry : LogElement) (buffer t alone : Text)
    → write_element entry buffer ≡ ok t
    → write_element entry [] ≡ ok alone
    → t ≡ buffer ++ alone
written_behind entry buffer t alone e f =
    let whole : ok t ≡ ok (buffer ++ alone) =
      sym e ∙ write_element-behind entry buffer ∙ ap (behind buffer) f in
    cc whole

-- The loop takes at most `rounds` entries off the front, and its text stays within the buffer.
pub record Drained (rounds : ℕ) (queue : List LogElement) (buffer : Text) : Type 0 where
  pub text : Text
  pub taken : List LogElement
  pub rest : List LogElement
  pub runs : drain rounds queue buffer ≡ ok (text, rest)
  pub split : queue ≡ taken ++ rest
  pub few : length taken ≤ rounds
  pub fits : length text < buffer_size
  pub added : Text
  pub printed : texts taken ≡ ok added
  pub appended : text ≡ buffer ++ added

drain_lem :
    (rounds : ℕ) (queue : List LogElement) (buffer : Text)
    → AllLogged queue
    → length buffer < buffer_size
    → Drained rounds queue buffer
unfolding drain
drain_lem zero queue buffer h k = record {
  text = buffer;
  taken = [];
  rest = queue;
  runs = refl;
  split = refl;
  few = omega arith;
  fits = k;
  added = [];
  printed = refl;
  appended = sym (append-nil buffer);
}
drain_lem (suc rounds) [] buffer h k = record {
  text = buffer;
  taken = [];
  rest = [];
  runs = refl;
  split = refl;
  few = omega arith;
  fits = k;
  added = [];
  printed = refl;
  appended = sym (append-nil buffer);
}
drain_lem (suc rounds) (entry ∷ queue) buffer (h, hs) k =
    elim (Bool-cases (leb (buffer_size - margin) (length buffer))) [
      | inl t ↦ record {
        text = buffer;
        taken = [];
        rest = entry ∷ queue;
        runs = rw t;
        split = refl;
        few = omega arith;
        fits = k;
        added = [];
        printed = refl;
        appended = sym (append-nil buffer);
      }
      | inr t ↦
          let g = write_element-Grows entry buffer h in
          let alone = write_element-Grows entry [] h in
          let same : g.text ≡ buffer ++ alone.text =
            written_behind entry buffer g.text alone.text g.runs alone.runs in
          let below : length buffer < buffer_size - margin = ground arith in
          let d = drain_lem rounds queue g.text hs (omega (arith, g.bounded)) in
          record {
            text = d.text;
            taken = entry ∷ d.taken;
            rest = d.rest;
            runs = rw (t, g.runs, ◌>>=◌) d.runs;
            split = ap (λ q. entry ∷ q) d.split;
            few = omega (arith, d.few);
            fits = d.fits;
            added = alone.text ++ d.added;
            printed = rw (alone.runs, ◌>>=◌, d.printed);
            appended =
                d.appended ∙ ap (λ t. t ++ d.added) same ∙ append_assoc buffer alone.text d.added;
          }
    ]

-- `drainBatch` of entries that hold the record of their log id, with fields in range and prices
-- that can be cast, returns. It takes at most `limit` entries off the front of the queue, its
-- text never fills the buffer, and it says whether it has taken any.
pub drain_batch-fits :
    (queue : List LogElement) (file : Text)
    → AllLogged queue
    → (text : Text) × (taken rest : List LogElement) × (drain_batch queue file
        ≡ ok (ltb 0 (length taken), rest, file ++ text))
      × (queue ≡ taken ++ rest)
      × (length taken ≤ limit)
      × (length text < buffer_size)
unfolding drain_batch
drain_batch-fits queue file h =
    let d = drain_lem limit queue [] h (ground arith) in
    let count : ltb (length d.rest) (length queue) ≡ ltb 0 (length d.taken) =
      ground (arith, ap length d.split, length-append d.taken d.rest) in
    (d.text, d.taken, d.rest, rw (d.runs, ◌>>=◌, count), d.split, d.few, d.fits)

-- What a batch adds to the file is the text of the entries that it takes.
pub drain_batch_lem :
    (queue : List LogElement) (file : Text)
    → AllLogged queue
    → (busy : Bool) × (added : Text) × (taken rest : List LogElement) × (drain_batch queue file
        ≡ ok (busy, rest, file ++ added))
      × (queue ≡ taken ++ rest)
      × (texts taken ≡ ok added)
unfolding drain_batch
drain_batch_lem queue file h =
    let d = drain_lem limit queue [] h (ground arith) in
    (
      ltb (length d.rest) (length queue),
      d.added,
      d.taken,
      d.rest,
      rw (d.runs, ◌>>=◌, d.appended),
      d.split,
      d.printed,
    )
