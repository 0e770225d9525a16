-- ===== src/LfQueue/Threads/Goes.antt =====
-- header/lock_free_queue.h: each step of a thread keeps what the two threads rely on.
use trade_engine.Prelude.{
  ℕ, suc, ◌-◌, ◌<◌, ◌≡◌, refl, ap, sym, ◌∙◌, false, Option, none, some, List, [], ◌∷◌, ◌++◌, length,
  arith, ◌==◌, length-set, get_elem?-set_self, get_elem?-set_ne, get_elem?_total, append_assoc,
  Result, ok, ◌>>=◌, Bool-cases, inl, inr,
}
use trade_engine.LfQueue.{
  LfQueue, next, size, get_next_to_write_to, update_write_index, get_next_to_read,
  update_read_index, fill,
}
use trade_engine.LfQueue.Fifo.{IsValid, contents, next_lem, size-eq-distance, size-lt}
use trade_engine.LfQueue.Sizes.{
  full_size, empty_size, released, released-IsValid, contents-released,
}
use trade_engine.LfQueue.Threads.{
  Producer, idle, claimed, filled, Consumer, waits, looking, copied, Threads, Move, claims, fills,
  publishes, looks, copies, releases, claim, write_slot, publish, look, read_slot, release, move,
  moves,
}
use trade_engine.LfQueue.Threads.Race.{
  Produces, Consumes, IsApart, indices_apart, fill-IsValid, size-fill, contents-fill, advanced,
  advanced-IsValid, size-advanced, contents-advanced,
}

module _ {ℓ} {A : Type ℓ} where
  Consumes-fill :
      (c : Consumer A) (q : LfQueue A) (a : A)
      → IsValid q
      → Consumes c q
      → Consumes c (fill q q.next_write_index a)
  Consumes-fill waits q a v h = tt
  Consumes-fill (looking slot) q a v (u, e, k) = (tt, e, rw (size-fill q a) k)
  Consumes-fill (copied slot x) q a v (e, k, h) = (
    e,
    rw (size-fill q a) k,
    get_elem?-set_ne q.store q.next_write_index slot a (λ t. indices_apart q v k (t ∙ e)) ∙ h,
  )

  Consumes-advanced :
      (c : Consumer A) (q : LfQueue A)
      → IsValid q
      → suc (size q) < length q.store
      → Consumes c q
      → Consumes c (advanced q)
  Consumes-advanced waits q v r h = tt
  Consumes-advanced (looking slot) q v r (u, e, k) = (tt, e, rw (size-advanced q v r) (omega arith))
  Consumes-advanced (copied slot x) q v r (e, k, h) = (e, rw (size-advanced q v r) (omega arith), h)

  size-released : (q : LfQueue A) → IsValid q → 0 < size q → suc (size (released q)) ≡ size q
  size-released q v h = ground (
    arith,
    size-eq-distance q v,
    size-eq-distance (released q) (released-IsValid q v),
    next_lem (length q.store) q.next_read_index v.small v.read_in,
  )

  Produces-released :
      (p : Producer A) (q : LfQueue A)
      → IsValid q
      → 0 < size q
      → Produces p q
      → Produces p (released q)
  Produces-released idle q v k h = tt
  Produces-released (claimed slot) q v k (u, e, r) = (tt, e, omega (arith, size-released q v k))
  Produces-released (filled slot a) q v k (e, r, h) = (e, omega (arith, size-released q v k), h)

  -- The step returns, and the invariant holds again.
  abbrev Goes : Result (Threads A) → Type ℓ
  Goes r = (s' : Threads A) × (r ≡ ok s') × IsApart s'

  claim-Goes : (p : Producer A) (s : Threads A) → s.producer ≡ p → IsApart s → Goes (ok (claim p s))
  unfolding get_next_to_write_to
  claim-Goes idle s e i =
      elim (Bool-cases
        (next (length s.queue.store) s.queue.next_write_index == s.queue.next_read_index)) [
          | inl t ↦ (s, rw (claim, t), i)
          | inr t ↦ (
            record s { producer = claimed s.queue.next_write_index },
            rw (claim, t),
            record {
              valid = i.valid;
              produces =
                  (tt, refl, ground (arith, full_size s.queue i.valid, size-lt s.queue i.valid));
              consumes = i.consumes;
              delivered = i.delivered;
            },
          )
        ]
  claim-Goes (claimed slot) s e i = (s, refl, i)
  claim-Goes (filled slot a) s e i = (s, refl, i)

  write_slot-Goes :
      (p : Producer A) (a : A) (s : Threads A)
      → s.producer ≡ p
      → IsApart s
      → Goes (ok (write_slot p a s))
  write_slot-Goes idle a s e i = (s, refl, i)
  write_slot-Goes (claimed slot) a s e i =
      let (u, at, room) = rw e at i.produces in
      (
        record s { queue = fill s.queue slot a; producer = filled slot a },
        refl,
        rw at (record {
          valid = fill-IsValid s.queue a i.valid;
          produces = (
            refl,
            rw (size-fill s.queue a, length-set s.queue.store s.queue.next_write_index a) room,
            get_elem?-set_self s.queue.store s.queue.next_write_index a i.valid.write_in,
          );
          consumes = Consumes-fill s.consumer s.queue a i.valid i.consumes;
          delivered =
              i.delivered ∙ ap (λ xs. s.consumed ++ xs) (sym (contents-fill s.queue a i.valid));
        }),
      )
  write_slot-Goes (filled slot b) a s e i = (s, refl, i)

  publish-Goes : (p : Producer A) (s : Threads A) → s.producer ≡ p → IsApart s → Goes (publish p s)
  unfolding update_write_index
  publish-Goes idle s e i = (s, refl, i)
  publish-Goes (claimed slot) s e i = (s, refl, i)
  publish-Goes (filled slot a) s e i =
      let (at, room, here) = rw e at i.produces in
      let open_ : (next (length s.queue.store) s.queue.next_write_index == s.queue.next_read_index)
          ≡ false =
        ground (arith, full_size s.queue i.valid) in
      (
        record s { queue = advanced s.queue; producer = idle; published = s.published ++ a ∷ [] },
        rw open_,
        record {
          valid = advanced-IsValid s.queue i.valid;
          produces = tt;
          consumes = Consumes-advanced s.consumer s.queue i.valid room i.consumes;
          delivered =
              ap (λ xs. xs ++ a ∷ []) i.delivered
              ∙ append_assoc s.consumed (contents s.queue) (a ∷ [])
              ∙ ap (λ xs. s.consumed ++ xs)
                  (sym (contents-advanced s.queue a i.valid room (rw at at here)));
        },
      )

  look-Goes : (c : Consumer A) (s : Threads A) → s.consumer ≡ c → IsApart s → Goes (ok (look c s))
  unfolding get_next_to_read
  look-Goes waits s e i = elim (Bool-cases (s.queue.next_read_index == s.queue.next_write_index)) [
    | inl t ↦ (s, rw (look, t), i)
    | inr t ↦ (
      record s { consumer = looking s.queue.next_read_index },
      rw (look, t),
      record {
        valid = i.valid;
        produces = i.produces;
        consumes = (tt, refl, ground (arith, empty_size s.queue i.valid));
        delivered = i.delivered;
      },
    )
  ]
  look-Goes (looking slot) s e i = (s, refl, i)
  look-Goes (copied slot a) s e i = (s, refl, i)

  read_slot-Goes :
      (c : Consumer A) (s : Threads A) → s.consumer ≡ c → IsApart s → Goes (read_slot c s)
  read_slot-Goes waits s e i = (s, refl, i)
  read_slot-Goes (looking slot) s e i =
      let (u, at, some_left) = rw e at i.consumes in
      let (a, here) = get_elem?_total s.queue.store s.queue.next_read_index i.valid.read_in in
      (
        record s { consumer = copied slot a },
        rw (at, here),
        record {
          valid = i.valid;
          produces = i.produces;
          consumes = (at, some_left, rw at here);
          delivered = i.delivered;
        },
      )
  read_slot-Goes (copied slot a) s e i = (s, refl, i)

  release-Goes : (c : Consumer A) (s : Threads A) → s.consumer ≡ c → IsApart s → Goes (release c s)
  unfolding update_read_index
  release-Goes waits s e i = (s, refl, i)
  release-Goes (looking slot) s e i = (s, refl, i)
  release-Goes (copied slot a) s e i =
      let (at, some_left, here) = rw e at i.consumes in
      let open_ : (s.queue.next_read_index == s.queue.next_write_index) ≡ false =
        ground (arith, empty_size s.queue i.valid) in
      let n : size s.queue ≡ suc (size s.queue - 1) = omega arith in
      (
        record s { queue = released s.queue; consumer = waits; consumed = s.consumed ++ a ∷ [] },
        rw open_,
        record {
          valid = released-IsValid s.queue i.valid;
          produces = Produces-released s.producer s.queue i.valid some_left i.produces;
          consumes = tt;
          delivered =
              i.delivered
              ∙ ap (λ xs. s.consumed ++ xs)
                  (contents-released s.queue (size s.queue - 1) a i.valid n (rw at at here))
              ∙ sym (append_assoc s.consumed (a ∷ []) (contents (released s.queue)));
        },
      )

  move-Goes : (s : Threads A) (m : Move A) → IsApart s → Goes (move s m)
  unfolding move
  move-Goes s claims i = claim-Goes s.producer s refl i
  move-Goes s (fills a) i = write_slot-Goes s.producer a s refl i
  move-Goes s publishes i = publish-Goes s.producer s refl i
  move-Goes s looks i = look-Goes s.consumer s refl i
  move-Goes s copies i = read_slot-Goes s.consumer s refl i
  move-Goes s releases i = release-Goes s.consumer s refl i

  pub moves-Goes : (ms : List (Move A)) (s : Threads A) → IsApart s → Goes (moves s ms)
  unfolding moves
  moves-Goes [] s i = (s, refl, i)
  moves-Goes (m ∷ ms) s i =
      let (s₁, runs, i₁) = move-Goes s m i in
      let (s₂, runs', i₂) = moves-Goes ms s₁ i₁ in (s₂, rw (runs, ◌>>=◌) runs', i₂)

  -- The slot that a thread works on.
  abbrev pub producer_slot : Producer A → Option ℕ
  producer_slot idle = none
  producer_slot (claimed slot) = some slot
  producer_slot (filled slot a) = some slot

  abbrev pub consumer_slot : Consumer A → Option ℕ
  consumer_slot waits = none
  consumer_slot (looking slot) = some slot
  consumer_slot (copied slot a) = some slot
