-- ===== src/LfQueue.antt =====
-- header/lock_free_queue.h: the ring buffer between two threads.
pub mod Fifo
pub mod Sizes
pub mod Refine
pub mod Slots
pub mod Room
pub mod Threads
mod Tests
use trade_engine.Prelude.{
  ℕ, zero, suc, ◌+◌, ◌-◌, ◌%◌, ◌^◌, ◌≡◌, Bool, true, false, Option, none, some, List, [], ◌∷◌,
  length, set, get_elem?, replicate, ◌==◌, leb, if◌then◌else◌,
}

-- The constants `size_t` wraps at.
abbrev pub size_mod : ℕ
size_mod = 2 ^ 64

-- `store_`, `next_write_index_` and `next_read_index_`.
pub record LfQueue {ℓ} (A : Type ℓ) : Type ℓ where
  pub store : List A
  pub next_write_index : ℕ
  pub next_read_index : ℕ

-- `(index + 1) % store_.size()`, on `size_t`.
pub next : ℕ → ℕ → ℕ
next size index = (index + 1) % size_mod % size

module _ {ℓ} {A : Type ℓ} where
  -- The constructor: `num_elems` default values.
  pub make : ℕ → A → LfQueue A
  make num_elems default = record {
    store = replicate num_elems default;
    next_write_index = 0;
    next_read_index = 0;
  }

  -- The slot to write, or `none` for the null pointer of a full queue.
  pub get_next_to_write_to : LfQueue A → Option ℕ
  get_next_to_write_to q =
      if next (length q.store) q.next_write_index == q.next_read_index
      then none
      else some q.next_write_index

  -- `none` is the failed ASSERT, which ends the process.
  pub update_write_index : LfQueue A → Option (LfQueue A)
  update_write_index q =
      if next (length q.store) q.next_write_index == q.next_read_index
      then none
      else some (record q { next_write_index = next (length q.store) q.next_write_index })

  -- The slot to read, or `none` for the null pointer of an empty queue.
  pub get_next_to_read : LfQueue A → Option ℕ
  get_next_to_read q =
      if q.next_read_index == q.next_write_index then none else some q.next_read_index

  pub update_read_index : LfQueue A → Option (LfQueue A)
  update_read_index q =
      if q.next_read_index == q.next_write_index
      then none
      else some (record q { next_read_index = next (length q.store) q.next_read_index })

  -- `size_t` differences; the first is taken at `r ≤ w`, the second at `w < r`.
  pub size : LfQueue A → ℕ
  size q =
      if leb q.next_read_index q.next_write_index
      then q.next_write_index - q.next_read_index
      else (length q.store - q.next_read_index + q.next_write_index) % size_mod

  -- The assignment through the pointer that `getNextToWriteTo` returned.
  abbrev pub fill : LfQueue A → ℕ → A → LfQueue A
  fill q slot a = record q { store = set q.store slot a }

  -- A producer's whole turn: claim a slot, fill it in place, publish it. `none` where it finds
  -- the queue full.
  pub write : LfQueue A → A → Option (LfQueue A)
  write q a = elim (get_next_to_write_to q) [
    | none ↦ none
    | some slot ↦ update_write_index (fill q slot a)
  ]

  -- A consumer's whole turn: look at the oldest slot, then release it.
  pub read : LfQueue A → Option (A × LfQueue A)
  read q = elim (get_next_to_read q) [
    | none ↦ none
    | some slot ↦ elim (get_elem? q.store slot) [
      | none ↦ none
      | some a ↦ elim (update_read_index q) [ none ↦ none | some q' ↦ some (a, q') ]
    ]
  ]

-- The turns of the two threads, in the order in which they take effect, and what each sees.
pub data Turn {ℓ} (A : Type ℓ) : Type ℓ where
  writes : A → Turn A
  reads : Turn A

pub data Reply {ℓ} (A : Type ℓ) : Type ℓ where
  accepted refused nothing : Reply A
  got : A → Reply A

module _ {ℓ} {A : Type ℓ} where
  abbrev pub after_write : LfQueue A → Option (LfQueue A) → Reply A × LfQueue A
  after_write q none = (refused, q)
  after_write q (some q') = (accepted, q')

  abbrev pub after_read : LfQueue A → Option (A × LfQueue A) → Reply A × LfQueue A
  after_read q none = (nothing, q)
  after_read q (some (a, q')) = (got a, q')

  pub turn : LfQueue A → Turn A → Reply A × LfQueue A
  turn q (writes a) = after_write q (write q a)
  turn q reads = after_read q (read q)

  pub run : LfQueue A → List (Turn A) → List (Reply A)
  run q [] = []
  run q (t ∷ ts) = let (r, q') = turn q t in r ∷ run q' ts
