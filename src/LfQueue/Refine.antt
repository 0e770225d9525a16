-- ===== src/LfQueue/Refine.antt =====
-- header/lock_free_queue.h: whole turns of a producer and a consumer against a bounded list.
use trade_engine.Prelude.{
  ℕ, suc, ◌-◌, ◌<◌, ◌≡◌, refl, ap, ap₂, ◌∙◌, Option, none, some, List, [], ◌∷◌, ◌++◌, length, arith,
  ◌==◌, ltb, if◌then◌else◌, length-set, length-replicate, get_elem?_total, inl, inr, Bool-cases,
  ℕ-cases,
}
use mathlib.Core.Option
use trade_engine.LfQueue.{
  LfQueue, Turn, writes, reads, Reply, accepted, refused, nothing, got, turn, run, size_mod, make,
  size, write, read,
}
use trade_engine.LfQueue.Fifo.{IsValid, contents, length-contents, size-lt}
use trade_engine.LfQueue.Sizes.{
  written-IsValid, contents-written, write_room, write_full, released-IsValid, contents-released,
  read-some, read_empty,
}

module _ {ℓ} {A : Type ℓ} where
  -- What the queue promises: a list of at most `capacity` entries.
  abbrev pub push : ℕ → List A → A → Option (List A)
  push capacity xs a = if ltb (length xs) capacity then some (xs ++ a ∷ []) else none

  abbrev pub pop : List A → Option (A × List A)
  pop [] = none
  pop (x ∷ xs) = some (x, xs)

  -- A bounded list under the same turns.
  abbrev pub turn_list : ℕ → List A → Turn A → Reply A × List A
  turn_list capacity xs (writes a) = elim (push capacity xs a) [
    | none ↦ (refused, xs)
    | some ys ↦ (accepted, ys)
  ]
  turn_list capacity xs reads = elim (pop xs) [ none ↦ (nothing, xs) | some (a, ys) ↦ (got a, ys) ]

  unfoldable pub run_list : ℕ → List A → List (Turn A) → List (Reply A)
  run_list capacity xs [] = []
  run_list capacity xs (t ∷ ts) =
      let (r, ys) = turn_list capacity xs t in r ∷ run_list capacity ys ts

  -- A producer's turn on a valid queue is `push` on its contents: refused exactly when
  -- `store_.size() - 1` entries are held, otherwise added at the end.
  pub write_refines :
      (q : LfQueue A) (a : A)
      → IsValid q
      → Option.map contents (write q a) ≡ push (length q.store - 1) (contents q) a
  write_refines q a v = elim (Bool-cases (suc (size q) == length q.store)) [
    | inl full ↦
        rw (write_full q a v (ground arith)) (ground (arith, length-contents q v, size-lt q v))
    | inr room ↦
        let h : suc (size q) < length q.store = ground (arith, size-lt q v) in
        rw (write_room q a v h, contents-written q a v h)
          (ground (arith, length-contents q v, size-lt q v))
  ]

  -- A consumer's turn on a valid queue is `pop` on its contents: the oldest entry and the rest,
  -- or nothing exactly when nothing is held.
  pub read_refines :
      (q : LfQueue A)
      → IsValid q
      → Option.map (λ r. (r.0, contents r.1)) (read q) ≡ pop (contents q)
  read_refines q v = elim (ℕ-cases (size q)) [
    | inl h ↦ rw (read_empty q v h, h)
    | inr (n, h) ↦
        let (x, e) = get_elem?_total q.store q.next_read_index v.read_in in
        rw (read-some q n x v h e, contents-released q n x v h e)
  ]

  pub make-IsValid : (n : ℕ) (a : A) → 0 < n → n < size_mod → IsValid (make n a)
  unfolding make
  make-IsValid n a h k = ground (arith, length-replicate n a)

  pub contents-make : (n : ℕ) (a : A) → contents (make n a) ≡ []
  unfolding make size
  contents-make n a = refl

  -- One turn: the same reply, the same entries left, and the queue still valid.
  record Follows (q : LfQueue A) (t : Turn A) : Type ℓ where
    valid : IsValid (turn q t).1
    same_store : length (turn q t).1.store ≡ length q.store
    reply : (turn q t).0 ≡ (turn_list (length q.store - 1) (contents q) t).0
    entries : contents (turn q t).1 ≡ (turn_list (length q.store - 1) (contents q) t).1

  turn_write :
      (q : LfQueue A) (a : A) → IsValid q → suc (size q) < length q.store → Follows q (writes a)
  unfolding turn
  turn_write q a v h = ground (
    arith,
    write_room q a v h,
    written-IsValid q a v,
    contents-written q a v h,
    length-contents q v,
    length-set q.store q.next_write_index a,
  )

  turn_empty : (q : LfQueue A) → IsValid q → size q ≡ 0 → Follows q reads
  unfolding turn
  turn_empty q v h = record {
    valid = rw (read_empty q v h) v;
    same_store = rw (read_empty q v h);
    reply = rw (read_empty q v h, h);
    entries = rw (read_empty q v h, h);
  }

  turn_read : (q : LfQueue A) (n : ℕ) → IsValid q → size q ≡ suc n → Follows q reads
  unfolding turn
  turn_read q n v h =
      let (x, e) = get_elem?_total q.store q.next_read_index v.read_in in
      record {
        valid = rw (read-some q n x v h e) (released-IsValid q v);
        same_store = rw (read-some q n x v h e);
        reply = rw (read-some q n x v h e, contents-released q n x v h e);
        entries = rw (read-some q n x v h e, contents-released q n x v h e);
      }

  turn-Follows : (q : LfQueue A) (t : Turn A) → IsValid q → Follows q t
  unfolding turn
  turn-Follows q (writes a) v = elim (Bool-cases (suc (size q) == length q.store)) [
    | inl full ↦ ground (arith, write_full q a v (ground arith), length-contents q v, size-lt q v)
    | inr room ↦ turn_write q a v (ground (arith, size-lt q v))
  ]
  turn-Follows q reads v = elim (ℕ-cases (size q)) [
    | inl h ↦ turn_empty q v h
    | inr (n, h) ↦ turn_read q n v h
  ]

  run-eq-run_list_from :
      (q : LfQueue A) (ts : List (Turn A))
      → IsValid q
      → run q ts ≡ run_list (length q.store - 1) (contents q) ts
  unfolding run run_list
  run-eq-run_list_from q [] v = refl
  run-eq-run_list_from q (t ∷ ts) v =
      let f = turn-Follows q t v in
      ap₂ ◌∷◌ f.reply (
        run-eq-run_list_from (turn q t).1 ts f.valid
        ∙ ap₂ (λ n xs. run_list (n - 1) xs ts) f.same_store f.entries)

  -- From `make n`, where `n` is at least 1 and fits 64 bits, no sequence of turns tells the queue
  -- from a list of at most `n - 1` entries: every write is accepted or refused, and every read answered, as there.
  pub run_refines :
      (n : ℕ) (a : A) (ts : List (Turn A))
      → 0 < n
      → n < size_mod
      → run (make n a) ts ≡ run_list (n - 1) [] ts
  unfolding make size
  run_refines n a ts h k =
      run-eq-run_list_from (make n a) ts (make-IsValid n a h k)
      ∙ ap (λ m. run_list (m - 1) [] ts) (length-replicate n a)
