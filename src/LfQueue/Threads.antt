-- ===== src/LfQueue/Threads.antt =====
-- header/lock_free_queue.h: a producer and a consumer that take their steps in any order. Each
-- call of the queue is a step, and so are the writing and the reading of the slot in between.
pub mod Race
pub mod Goes
pub mod Steps
use trade_engine.Prelude.{
  ℕ, Option, none, some, List, [], ◌∷◌, ◌++◌, get_elem?, Result, ok, fault, ◌>>=◌, or_fault,
}
use trade_engine.LfQueue.{
  LfQueue, make, get_next_to_write_to, update_write_index, get_next_to_read, update_read_index,
  fill,
}

-- Between two turns; with a slot that it may write; with the entry in it.
pub data Producer {ℓ} (A : Type ℓ) : Type ℓ where
  idle : Producer A
  claimed : ℕ → Producer A
  filled : ℕ → A → Producer A

-- Between two turns; with a slot that it may read; with the entry that it has read there.
pub data Consumer {ℓ} (A : Type ℓ) : Type ℓ where
  waits : Consumer A
  looking : ℕ → Consumer A
  copied : ℕ → A → Consumer A

pub record Threads {ℓ} (A : Type ℓ) : Type ℓ where
  pub queue : LfQueue A
  pub producer : Producer A
  pub consumer : Consumer A
  -- What has been published and what has been released so far.
  pub published : List A
  pub consumed : List A

pub data Move {ℓ} (A : Type ℓ) : Type ℓ where
  claims : Move A
  fills : A → Move A
  publishes looks copies releases : Move A

module _ {ℓ} {A : Type ℓ} where
  abbrev pub start : LfQueue A → Threads A
  start q = record { queue = q; producer = idle; consumer = waits; published = []; consumed = [] }

  abbrev pub claim : Producer A → Threads A → Threads A
  claim idle s = elim (get_next_to_write_to s.queue) [
    | none ↦ s
    | some slot ↦ record s { producer = claimed slot }
  ]
  claim p s = s

  abbrev pub write_slot : Producer A → A → Threads A → Threads A
  write_slot (claimed slot) a s = record s { queue = fill s.queue slot a; producer = filled slot a }
  write_slot p a s = s

  abbrev pub publish : Producer A → Threads A → Result (Threads A)
  publish (filled slot a) s = do
    q ← or_fault (update_write_index s.queue)
    ok (record s { queue = q; producer = idle; published = s.published ++ a ∷ [] })
  publish p s = ok s

  abbrev pub look : Consumer A → Threads A → Threads A
  look waits s = elim (get_next_to_read s.queue) [
    | none ↦ s
    | some slot ↦ record s { consumer = looking slot }
  ]
  look c s = s

  abbrev pub read_slot : Consumer A → Threads A → Result (Threads A)
  read_slot (looking slot) s = do
    a ← or_fault (get_elem? s.queue.store slot)
    ok (record s { consumer = copied slot a })
  read_slot c s = ok s

  abbrev pub release : Consumer A → Threads A → Result (Threads A)
  release (copied slot a) s = do
    q ← or_fault (update_read_index s.queue)
    ok (record s { queue = q; consumer = waits; consumed = s.consumed ++ a ∷ [] })
  release c s = ok s

  -- A step of one of the threads; a step that its thread is not at does nothing. `fault` is a
  -- failed ASSERT.
  pub move : Threads A → Move A → Result (Threads A)
  move s claims = ok (claim s.producer s)
  move s (fills a) = ok (write_slot s.producer a s)
  move s publishes = publish s.producer s
  move s looks = ok (look s.consumer s)
  move s copies = read_slot s.consumer s
  move s releases = release s.consumer s

  pub moves : Threads A → List (Move A) → Result (Threads A)
  moves s [] = ok s
  moves s (m ∷ ms) = do s' ← move s m; moves s' ms
