-- ===== src/LfQueue/Threads/Steps.antt =====
-- header/lock_free_queue.h: no order of steps makes the threads meet in a slot or lose an entry.
use trade_engine.Prelude.{ℕ, ◌<◌, ◌≡◌, ◌≢◌, sym, ◌∙◌, some, List, ◌++◌, ok}
use trade_engine.LfQueue.{LfQueue, size, size_mod, make}
use trade_engine.LfQueue.Fifo.{IsValid, contents}
use trade_engine.LfQueue.Refine.{make-IsValid, contents-make}
use trade_engine.LfQueue.Threads.{
  Producer, idle, claimed, filled, Consumer, waits, looking, copied, Threads, Move, start, moves,
}
use trade_engine.LfQueue.Threads.Race.{Produces, Consumes, indices_apart}
use trade_engine.LfQueue.Threads.Goes.{moves-Goes, producer_slot, consumer_slot}

module _ {ℓ} {A : Type ℓ} where
  producer_at :
      (p : Producer A) (q : LfQueue A)
      → Produces p q
      → (i : ℕ) → producer_slot p ≡ some i
      → i ≡ q.next_write_index
  producer_at idle q h i e = cc
  producer_at (claimed slot) q (u, at, r) i e = cc
  producer_at (filled slot a) q (at, r, x) i e = cc

  consumer_at :
      (c : Consumer A) (q : LfQueue A)
      → Consumes c q
      → (j : ℕ) → consumer_slot c ≡ some j
      → (j ≡ q.next_read_index) × (0 < size q)
  consumer_at waits q h j e = cc
  consumer_at (looking slot) q (u, at, r) j e = (cc, r)
  consumer_at (copied slot a) q (at, r, x) j e = (cc, r)

  slots_apart :
      (p : Producer A) (c : Consumer A) (q : LfQueue A)
      → IsValid q
      → Produces p q
      → Consumes c q
      → (i j : ℕ) → producer_slot p ≡ some i
      → consumer_slot c ≡ some j
      → i ≢ j
  slots_apart p c q v h k i j e e' same =
      let (at, some_left) = consumer_at c q k j e' in
      indices_apart q v some_left (sym (producer_at p q h i e) ∙ same ∙ at)

  -- From the constructor's queue, in whatever order the producer and the consumer take their
  -- steps, no ASSERT fails. What has been released is, in order, the first of what has been
  -- published, and the queue holds the rest; and the two threads never work on the same slot.
  pub moves-IsApart :
      (n : ℕ) (default : A) (ms : List (Move A))
      → 0 < n
      → n < size_mod
      → (s : Threads A) × (moves (start (make n default)) ms ≡ ok s)
        × (s.published ≡ s.consumed ++ contents s.queue)
        × ((i j : ℕ)
            → producer_slot s.producer ≡ some i
            → consumer_slot s.consumer ≡ some j
            → i ≢ j)
  moves-IsApart n default ms h k =
      let q = make n default in
      let (s, runs, i) = moves-Goes ms (start q) (record {
        valid = make-IsValid n default h k;
        produces = tt;
        consumes = tt;
        delivered = sym (contents-make n default);
      }) in
      (
        s,
        runs,
        i.delivered,
        slots_apart s.producer s.consumer s.queue i.valid i.produces i.consumes,
      )
