-- ===== src/LfQueue/Threads/Race.antt =====
-- header/lock_free_queue.h: what a queue between two threads keeps, and each change of it.
use trade_engine.Prelude.{
  ℕ, zero, suc, ◌<◌, ◌≡◌, ◌≢◌, refl, ap, sym, ◌∙◌, some, List, [], ◌∷◌, ◌++◌, length, set,
  get_elem?, arith, length-set, get_elem?-set_ne, get_elem?_total,
}
use trade_engine.LfQueue.{LfQueue, next, size, size_mod, fill}
use trade_engine.LfQueue.Fifo.{
  IsValid, contents, window, window-suc, next-lt, next_lem, distance, distance-next,
  size-eq-distance,
}
use trade_engine.LfQueue.Threads.{
  Producer, idle, claimed, filled, Consumer, waits, looking, copied, Threads,
}

module _ {ℓ} {A : Type ℓ} where
  window-outside :
      (xs : List A) (r w n : ℕ) (a : A)
      → length xs < size_mod
      → r < length xs
      → w < length xs
      → distance (length xs) r w ≡ n
      → window (set xs w a) r n ≡ window xs r n
  window-outside xs r w zero a s hr hw d = refl
  window-outside xs r w (suc n) a s hr hw d =
      let (x, e) = get_elem?_total xs r hr in
      rw
        (
          window-suc xs r n x e,
          window-suc (set xs w a) r n x (get_elem?-set_ne xs w r a (λ p. ground arith) ∙ e),
          length-set xs w a,
        )
        (ap (λ l. x ∷ l)
          (window-outside xs (next (length xs) r) w n a s (next-lt (length xs) r s hr) hw
            (distance-next (length xs) r w n s hr hw d)))

  window-last :
      (xs : List A) (r w n : ℕ) (a : A)
      → length xs < size_mod
      → r < length xs
      → w < length xs
      → distance (length xs) r w ≡ n
      → suc n < length xs
      → get_elem? xs w ≡ some a
      → window xs r (suc n) ≡ window xs r n ++ a ∷ []
  window-last xs r w zero a s hr hw d k e =
      let same : r ≡ w = ground arith in rw same (window-suc xs w 0 a e)
  window-last xs r w (suc n) a s hr hw d k e =
      let (x, ex) = get_elem?_total xs r hr in
      rw (window-suc xs r n x ex, window-suc xs r (suc n) x ex)
        (ap (λ l. x ∷ l)
          (window-last xs (next (length xs) r) w n a s (next-lt (length xs) r s hr) hw
            (distance-next (length xs) r w n s hr hw d) (omega arith) e))

  -- What the producer's step says of the queue: its slot is the next to write, there is room, and
  -- the entry is in it.
  abbrev pub Produces : Producer A → LfQueue A → Type ℓ
  Produces idle q = Unit {ℓ}
  Produces (claimed slot) q =
      Unit {ℓ} × (slot ≡ q.next_write_index) × (suc (size q) < length q.store)
  Produces (filled slot a) q =
      (slot ≡ q.next_write_index)
      × (suc (size q) < length q.store)
      × (get_elem? q.store slot ≡ some a)

  -- What the consumer's says: its slot is the next to read, it is not empty, and the entry that
  -- the consumer has read is still in it.
  abbrev pub Consumes : Consumer A → LfQueue A → Type ℓ
  Consumes waits q = Unit {ℓ}
  Consumes (looking slot) q = Unit {ℓ} × (slot ≡ q.next_read_index) × (0 < size q)
  Consumes (copied slot a) q =
      (slot ≡ q.next_read_index) × (0 < size q) × (get_elem? q.store slot ≡ some a)

  pub record IsApart (s : Threads A) : Type ℓ where
    pub valid : IsValid s.queue
    pub produces : Produces s.producer s.queue
    pub consumes : Consumes s.consumer s.queue
    pub delivered : s.published ≡ s.consumed ++ contents s.queue

  pub indices_apart :
      (q : LfQueue A) → IsValid q → 0 < size q → q.next_write_index ≢ q.next_read_index
  indices_apart q v h e = absurd (ground (arith, size-eq-distance q v))

  -- Filling the claimed slot.
  pub fill-IsValid : (q : LfQueue A) (a : A) → IsValid q → IsValid (fill q q.next_write_index a)
  fill-IsValid q a v = ground (arith, length-set q.store q.next_write_index a)

  pub size-fill : (q : LfQueue A) (a : A) → size (fill q q.next_write_index a) ≡ size q
  unfolding size
  size-fill q a = rw (length-set q.store q.next_write_index a)

  pub contents-fill :
      (q : LfQueue A) (a : A) → IsValid q → contents (fill q q.next_write_index a) ≡ contents q
  contents-fill q a v = rw (size-fill q a) (
      window-outside q.store q.next_read_index q.next_write_index (size q) a v.small v.read_in
        v.write_in (sym (size-eq-distance q v)))

  -- Publishing it.
  abbrev pub advanced : LfQueue A → LfQueue A
  advanced q = record q { next_write_index = next (length q.store) q.next_write_index }

  pub advanced-IsValid : (q : LfQueue A) → IsValid q → IsValid (advanced q)
  advanced-IsValid q v =
      ground (arith, next-lt (length q.store) q.next_write_index v.small v.write_in)

  pub size-advanced :
      (q : LfQueue A) → IsValid q → suc (size q) < length q.store → size (advanced q) ≡ suc (size q)
  size-advanced q v h = ground (
    arith,
    size-eq-distance q v,
    size-eq-distance (advanced q) (advanced-IsValid q v),
    next_lem (length q.store) q.next_write_index v.small v.write_in,
  )

  pub contents-advanced :
      (q : LfQueue A) (a : A)
      → IsValid q
      → suc (size q) < length q.store
      → get_elem? q.store q.next_write_index ≡ some a
      → contents (advanced q) ≡ contents q ++ a ∷ []
  contents-advanced q a v h e = rw (size-advanced q v h) (
      window-last q.store q.next_read_index q.next_write_index (size q) a v.small v.read_in
        v.write_in (sym (size-eq-distance q v)) h e)
