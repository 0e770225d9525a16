-- ===== src/LfQueue/Slots.antt =====
-- header/lock_free_queue.h: the slot that a consumer has just released. `readOrder` of
-- matching/matching.cpp and the consumer of ExamplesAndTesting/lock_free_queue still read it.
use trade_engine.Prelude.{
  ℕ, ◌≡◌, ◌≢◌, refl, ◌∙◌, ap, true, none, some, List, [], ◌∷◌, length, get_elem?, arith, ◌==◌,
  ==_refl, Bool-cases, Option-cases, inl, inr, get_elem?-set_ne, length-set,
}
use trade_engine.LfQueue.{
  LfQueue, next, get_next_to_write_to, update_write_index, update_read_index, write,
}

module _ {ℓ} {A : Type ℓ} where
  -- Turns of the producer alone; a refused one changes nothing.
  abbrev pub produced : LfQueue A → List A → LfQueue A
  produced q [] = q
  produced q (a ∷ rest) = elim (write q a) [ none ↦ produced q rest | some q' ↦ produced q' rest ]

  -- The read index stands right behind the slot `r`.
  abbrev Behind : ℕ → LfQueue A → Type 0
  Behind r q = q.next_read_index ≡ next (length q.store) r

  record Untouched (r : ℕ) (q q' : LfQueue A) : Type ℓ where
    behind : Behind r q'
    same_slot : get_elem? q'.store r ≡ get_elem? q.store r

  write-Untouched :
      (r : ℕ) (q q' : LfQueue A) (a : A) → Behind r q → write q a ≡ some q' → Untouched r q q'
  unfolding write get_next_to_write_to update_write_index
  write-Untouched r q q' a b e = elim (Bool-cases (q.next_write_index == r)) [
    | inl t ↦
        let same : q.next_write_index ≡ r = ground arith in
        let full : (next (length q.store) q.next_write_index == q.next_read_index) ≡ true =
          rw (same, b) (==_refl (next (length q.store) r)) in
        absurd (ground arith)
    | inr t ↦
        let n : q.next_write_index ≢ r = ground arith in
        record {
          behind = ground (arith, length-set q.store q.next_write_index a);
          same_slot = ground (arith, get_elem?-set_ne q.store q.next_write_index r a n);
        }
  ]

  produced-Untouched :
      (r : ℕ) (q : LfQueue A) (xs : List A) → Behind r q → Untouched r q (produced q xs)
  produced-Untouched r q [] b = record { behind = b; same_slot = refl }
  produced-Untouched r q (a ∷ xs) b = elim (Option-cases (write q a)) [
    | inl e ↦ rw (e, produced) (produced-Untouched r q xs b)
    | inr (q', e) ↦
        let u = write-Untouched r q q' a b e in
        let v = produced-Untouched r q' xs u.behind in
        rw (e, produced) (record { behind = v.behind; same_slot = v.same_slot ∙ u.same_slot })
  ]

  never_given : (r : ℕ) (q : LfQueue A) → Behind r q → get_next_to_write_to q ≢ some r
  unfolding get_next_to_write_to
  never_given r q b t = elim (Bool-cases (q.next_write_index == r)) [
    | inl e ↦
        let same : q.next_write_index ≡ r = ground arith in
        let full : (next (length q.store) q.next_write_index == q.next_read_index) ≡ true =
          rw (same, b) (==_refl (next (length q.store) r)) in
        absurd (ground arith)
    | inr e ↦ absurd (ground arith)
  ]

  produced-Behind : (r : ℕ) (q : LfQueue A) (xs : List A) → Behind r q → Behind r (produced q xs)
  produced-Behind r q xs b = let u = produced-Untouched r q xs b in u.behind

  -- Until the consumer releases another slot, no turns of the producer write the one that it has
  -- just released, nor is the producer ever given that slot.
  pub released_slot-untouched :
      (q q' : LfQueue A) (xs : List A)
      → update_read_index q ≡ some q'
      → (get_elem? (produced q' xs).store q.next_read_index ≡ get_elem? q.store q.next_read_index)
        × (get_next_to_write_to (produced q' xs) ≢ some q.next_read_index)
  unfolding update_read_index get_next_to_write_to
  released_slot-untouched q q' xs e =
      let b : q'.next_read_index ≡ next (length q'.store) q.next_read_index = ground arith in
      let store : q'.store ≡ q.store = ground arith in
      let u = produced-Untouched q.next_read_index q' xs b in
      (
        u.same_slot ∙ ap (λ s. get_elem? s q.next_read_index) store,
        never_given q.next_read_index (produced q' xs) (produced-Behind q.next_read_index q' xs b),
      )
