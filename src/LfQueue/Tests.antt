-- ===== src/LfQueue/Tests.antt =====
-- header/lock_free_queue.h: queues of three slots.
use trade_engine.Prelude.{
  ℕ, ◌-◌, ◌≡◌, ◌≢◌, refl, some, List, [], ◌∷◌, ◌++◌, ok, length, get_elem?, arith,
}
use mathlib.Core.Option
use trade_engine.LfQueue.{
  LfQueue, turn, next, update_write_index, get_next_to_read, Turn, writes, reads, Reply, accepted,
  refused, nothing, got, make, run, get_next_to_write_to, update_read_index, write, read,
}
use trade_engine.LfQueue.Fifo.{IsValid, contents}
use trade_engine.LfQueue.Refine.{push, run_list, write_refines, run_refines, make-IsValid}
use trade_engine.LfQueue.Threads.{
  Threads, Move, claims, fills, publishes, looks, copies, releases, start, moves,
}
use trade_engine.LfQueue.Threads.Steps.{moves-IsApart}
use trade_engine.LfQueue.Threads.Goes.{producer_slot, consumer_slot}
use trade_engine.LfQueue.Room.{written, received, refusals, run-room}
use trade_engine.LfQueue.Slots.{produced, released_slot-untouched}

abbrev turns : List (Turn ℕ)
turns = writes 4 ∷ writes 5 ∷ writes 6 ∷ reads ∷ reads ∷ reads ∷ []

abbrev replies : List (Reply ℕ)
replies = accepted ∷ accepted ∷ refused ∷ got 4 ∷ got 5 ∷ nothing ∷ []

run_test : run (make 3 0) turns ≡ replies
unfolding run turn write read get_next_to_write_to next make update_write_index get_next_to_read
    update_read_index
run_test = refl

abbrev three : LfQueue ℕ
three = make 3 0

three-IsValid : IsValid three
three-IsValid = make-IsValid 3 0 (ground arith) (ground arith)

-- Two entries, 4 and 5.
abbrev two_entries : LfQueue ℕ
two_entries = record { store = 4 ∷ 5 ∷ 0 ∷ []; next_write_index = 2; next_read_index = 0 }

two_entries-IsValid : IsValid two_entries
two_entries-IsValid = record {
  small = ground arith;
  write_in = ground arith;
  read_in = ground arith;
}

write_refines_example :
    Option.map contents (write two_entries 6)
    ≡ push (length two_entries.store - 1) (contents two_entries) 6
write_refines_example = write_refines two_entries 6 two_entries-IsValid

run_refines_example : run (make 3 0) turns ≡ run_list 2 [] turns
run_refines_example = run_refines 3 0 turns (ground arith) (ground arith)

abbrev one_entry : LfQueue ℕ
one_entry = record { store = 4 ∷ 5 ∷ 0 ∷ []; next_write_index = 2; next_read_index = 1 }

released : update_read_index two_entries ≡ some one_entry
unfolding update_read_index next
released = refl

released_slot-untouched_example :
    (get_elem? (produced one_entry (6 ∷ 7 ∷ [])).store 0 ≡ some 4)
    × (get_next_to_write_to (produced one_entry (6 ∷ 7 ∷ [])) ≢ some 0)
released_slot-untouched_example =
    released_slot-untouched two_entries one_entry (6 ∷ 7 ∷ []) released

-- The consumer reads the first entry while the producer fills the second slot.
abbrev overlap : List (Move ℕ)
overlap =
    claims ∷ fills 4 ∷ publishes ∷ looks ∷ claims ∷ copies ∷ fills 5 ∷ releases ∷ publishes ∷ []

moves-IsApart_example :
    (s : Threads ℕ) × (moves (start (make 3 0)) overlap ≡ ok s)
    × (s.published ≡ s.consumed ++ contents s.queue)
    × ((i j : ℕ) → producer_slot s.producer ≡ some i → consumer_slot s.consumer ≡ some j → i ≢ j)
moves-IsApart_example = moves-IsApart 3 0 overlap (ground arith) (ground arith)

run-room_example :
    (refusals (run (make 4 0) turns) ≡ 0)
    × (left : List ℕ) × (received (run (make 4 0) turns) ++ left ≡ written turns)
run-room_example = run-room 4 0 turns (ground arith) (ground arith)
