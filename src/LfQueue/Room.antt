-- ===== src/LfQueue/Room.antt =====
-- header/lock_free_queue.h: a queue that is larger than all that is written to it.
use trade_engine.Prelude.{
  ℕ, suc, ◌+◌, ◌-◌, ◌≤◌, ◌<◌, ◌≡◌, refl, sym, ◌∙◌, ap, List, [], ◌∷◌, ◌++◌, length, length-append,
  append_assoc, append-nil, arith, ltb, true,
}
use trade_engine.LfQueue.{
  Turn, writes, reads, Reply, accepted, refused, nothing, got, make, run, size_mod,
}
use trade_engine.LfQueue.Refine.{run_list, turn_list, run_refines}

module _ {ℓ} {A : Type ℓ} where
  -- What the turns write.
  abbrev pub written : List (Turn A) → List A
  written [] = []
  written (writes a ∷ ts) = a ∷ written ts
  written (reads ∷ ts) = written ts

  -- What the replies bring.
  abbrev pub received : List (Reply A) → List A
  received [] = []
  received (got a ∷ rs) = a ∷ received rs
  received (accepted ∷ rs) = received rs
  received (refused ∷ rs) = received rs
  received (nothing ∷ rs) = received rs

  abbrev pub refusals : List (Reply A) → ℕ
  refusals [] = 0
  refusals (refused ∷ rs) = suc (refusals rs)
  refusals (accepted ∷ rs) = refusals rs
  refusals (nothing ∷ rs) = refusals rs
  refusals (got a ∷ rs) = refusals rs

  run_list-room :
      (capacity : ℕ) (xs : List A) (ts : List (Turn A))
      → length xs + length (written ts) ≤ capacity
      → (refusals (run_list capacity xs ts) ≡ 0)
        × (left : List A) × (received (run_list capacity xs ts) ++ left ≡ xs ++ written ts)
  unfolding run_list
  run_list-room capacity xs [] h = (refl, xs, sym (append-nil xs))
  run_list-room capacity xs (writes a ∷ ts) h =
      let room : ltb (length xs) capacity ≡ true = ground arith in
      let (none_refused, left, e) =
        run_list-room capacity (xs ++ a ∷ []) ts (omega (arith, h, length-append xs (a ∷ []))) in
      let turns : turn_list capacity xs (writes a) ≡ (accepted, xs ++ a ∷ []) =
        rw (turn_list, room) in
      let step : run_list capacity xs (writes a ∷ ts)
          ≡ accepted ∷ run_list capacity (xs ++ a ∷ []) ts =
        ap (λ p. p.0 ∷ run_list capacity p.1 ts) turns in
      rw step (none_refused, left, e ∙ append_assoc xs (a ∷ []) (written ts))
  run_list-room capacity [] (reads ∷ ts) h = run_list-room capacity [] ts h
  run_list-room capacity (x ∷ xs) (reads ∷ ts) h =
      let (none_refused, left, e) = run_list-room capacity xs ts (omega arith) in
      (none_refused, left, ap (λ q. x ∷ q) e)

  -- A queue of `n` slots to which fewer than `n` entries are written refuses none of them, in
  -- whatever order the two threads take their turns; and what is read is the entries written, in
  -- their order, up to those that are still in the queue.
  pub run-room :
      (n : ℕ) (a : A) (ts : List (Turn A))
      → length (written ts) < n
      → n < size_mod
      → (refusals (run (make n a) ts) ≡ 0)
        × (left : List A) × (received (run (make n a) ts) ++ left ≡ written ts)
  run-room n a ts h k =
      rw (run_refines n a ts (omega arith) k) (run_list-room (n - 1) [] ts (omega arith))
