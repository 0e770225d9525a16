-- ===== src/LfQueue/Sizes.antt =====
-- header/lock_free_queue.h: the contents and the size after the calls of a turn.
use trade_engine.Prelude.{
  ℕ, suc, ◌<◌, ◌≡◌, ◌∙◌, sym, none, some, [], ◌∷◌, ◌++◌, length, set, arith, get_elem?, ◌==◌,
  length-set,
}
use trade_engine.LfQueue.{
  LfQueue, next, get_next_to_write_to, update_write_index, get_next_to_read, update_read_index,
  size, write, read,
}
use trade_engine.LfQueue.Fifo.{
  IsValid, contents, window-set, window-suc, next-lt, next_lem, distance-next, size-eq-distance,
}

module _ {ℓ} {A : Type ℓ} where
  -- The queue is full exactly when one slot is left.
  pub full_size :
      (q : LfQueue A)
      → IsValid q
      → (next (length q.store) q.next_write_index == q.next_read_index)
        ≡ (suc (size q) == length q.store)
  full_size q v =
      ground (
        arith,
        size-eq-distance q v,
        next_lem (length q.store) q.next_write_index v.small v.write_in,
      )

  pub empty_size :
      (q : LfQueue A) → IsValid q → (q.next_read_index == q.next_write_index) ≡ (size q == 0)
  empty_size q v = ground (arith, size-eq-distance q v)

  -- The queue after a write.
  abbrev written : LfQueue A → A → LfQueue A
  written q a = record {
    store = set q.store q.next_write_index a;
    next_write_index = next (length q.store) q.next_write_index;
    next_read_index = q.next_read_index;
  }

  pub written-IsValid : (q : LfQueue A) (a : A) → IsValid q → IsValid (written q a)
  written-IsValid q a v = ground (
    arith,
    length-set q.store q.next_write_index a,
    next-lt (length q.store) q.next_write_index v.small v.write_in,
  )

  size-written :
      (q : LfQueue A) (a : A)
      → IsValid q
      → suc (size q) < length q.store
      → size (written q a) ≡ suc (size q)
  size-written q a v h = ground (
    arith,
    size-eq-distance q v,
    size-eq-distance (written q a) (written-IsValid q a v),
    length-set q.store q.next_write_index a,
    next_lem (length q.store) q.next_write_index v.small v.write_in,
  )

  pub contents-written :
      (q : LfQueue A) (a : A)
      → IsValid q
      → suc (size q) < length q.store
      → contents (written q a) ≡ contents q ++ a ∷ []
  contents-written q a v h = rw (size-written q a v h) (
      window-set q.store q.next_read_index q.next_write_index (size q) a v.small v.read_in
        v.write_in (sym (size-eq-distance q v)) h)

  pub write_room :
      (q : LfQueue A) (a : A)
      → IsValid q
      → suc (size q) < length q.store
      → write q a ≡ some (written q a)
  unfolding write get_next_to_write_to update_write_index
  write_room q a v h = ground (arith, full_size q v, length-set q.store q.next_write_index a)

  pub write_full :
      (q : LfQueue A) (a : A) → IsValid q → suc (size q) ≡ length q.store → write q a ≡ none
  unfolding write get_next_to_write_to
  write_full q a v h = ground (arith, full_size q v)

  -- The queue after a read.
  abbrev pub released : LfQueue A → LfQueue A
  released q = record q { next_read_index = next (length q.store) q.next_read_index }

  pub released-IsValid : (q : LfQueue A) → IsValid q → IsValid (released q)
  released-IsValid q v =
      ground (arith, next-lt (length q.store) q.next_read_index v.small v.read_in)

  pub contents-released :
      (q : LfQueue A) (n : ℕ) (x : A)
      → IsValid q
      → size q ≡ suc n
      → get_elem? q.store q.next_read_index ≡ some x
      → contents q ≡ x ∷ contents (released q)
  contents-released q n x v h e = rw (
    h,
    window-suc q.store q.next_read_index n x e,
    size-eq-distance (released q) (released-IsValid q v),
    distance-next (length q.store) q.next_read_index q.next_write_index n v.small v.read_in
        v.write_in (sym (size-eq-distance q v) ∙ h),
  )

  pub read-some :
      (q : LfQueue A) (n : ℕ) (x : A)
      → IsValid q
      → size q ≡ suc n
      → get_elem? q.store q.next_read_index ≡ some x
      → read q ≡ some (x, released q)
  unfolding read get_next_to_read update_read_index
  read-some q n x v h e = ground (arith, empty_size q v)

  pub read_empty : (q : LfQueue A) → IsValid q → size q ≡ 0 → read q ≡ none
  unfolding read get_next_to_read
  read_empty q v h = ground (arith, empty_size q v)
