-- ===== src/LfQueue/Fifo.antt =====
-- header/lock_free_queue.h: the queue against a bounded first-in first-out list.
use trade_engine.Prelude.{
  ℕ, zero, suc, ◌+◌, ◌-◌, ◌%◌, ◌<◌, ◌≡◌, refl, ap, none, some, List, [], ◌∷◌, ◌++◌, length, set,
  arith, get_elem?, ◌==◌, leb, if◌then◌else◌, length-set, ◌∙◌, get_elem?-set_self, get_elem?-set_ne,
  get_elem?_total, ◌⊎◌, inl, inr, Bool-cases,
}
use native.Mathlib.Nat.{mod-eq_of_lt, mod_self}
use trade_engine.LfQueue.{LfQueue, next, size_mod, size}

pub record IsValid {ℓ} {A : Type ℓ} (q : LfQueue A) : Type 0 where
  pub small : length q.store < size_mod
  pub write_in : q.next_write_index < length q.store
  pub read_in : q.next_read_index < length q.store

-- Inside the ring the next index is one further, or the first.
pub next_lem :
    (n i : ℕ)
    → n < size_mod
    → i < n
    → ((suc i < n) × (next n i ≡ suc i)) ⊎ ((suc i ≡ n) × (next n i ≡ 0))
unfolding next
next_lem n i s h = elim (Bool-cases (suc i == n)) [
  | inl e ↦ inr (ground arith, rw (small, last (ground arith)) (mod_self n))
  | inr e ↦ inl (ground arith, rw small (ground (arith, mod-eq_of_lt {n = i + 1} {m = n})))
]
  where
    small : (i + 1) % size_mod ≡ i + 1
    small = omega arith

    last : suc i ≡ n → i + 1 ≡ n
    last e = omega arith

pub next-lt : (n i : ℕ) → n < size_mod → i < n → next n i < n
next-lt n i s h = omega (arith, next_lem n i s h)

-- The number of slots from `r` forward to `w` in a ring of `n`.
abbrev pub distance : ℕ → ℕ → ℕ → ℕ
distance n r w = if leb r w then w - r else n - r + w

pub distance-next :
    (n r w k : ℕ)
    → n < size_mod
    → r < n
    → w < n
    → distance n r w ≡ suc k
    → distance n (next n r) w ≡ k
distance-next n r w k s hr hw d = ground (arith, next_lem n r s hr)

module _ {ℓ} {A : Type ℓ} where
  -- The entries in the next `n` slots from index `r` on.
  abbrev pub window : List A → ℕ → ℕ → List A
  window xs r zero = []
  window xs r (suc n) = elim (get_elem? xs r) [
    | none ↦ []
    | some x ↦ x ∷ window xs (next (length xs) r) n
  ]

  -- What the queue holds, oldest first.
  abbrev pub contents : LfQueue A → List A
  contents q = window q.store q.next_read_index (size q)

  pub window-suc :
      (xs : List A) (r n : ℕ) (x : A)
      → get_elem? xs r ≡ some x
      → window xs r (suc n) ≡ x ∷ window xs (next (length xs) r) n
  window-suc xs r n x h = rw (h, window)

  pub length-window :
      (xs : List A) (r n : ℕ) → length xs < size_mod → r < length xs → length (window xs r n) ≡ n
  length-window xs r zero s h = refl
  length-window xs r (suc n) s h =
      let (x, e) = get_elem?_total xs r h in
      rw (window-suc xs r n x e)
        (ap suc (length-window xs (next (length xs) r) n s (next-lt (length xs) r s h)))

  pub window-set :
      (xs : List A) (r w n : ℕ) (a : A)
      → length xs < size_mod
      → r < length xs
      → w < length xs
      → distance (length xs) r w ≡ n
      → suc n < length xs
      → window (set xs w a) r (suc n) ≡ window xs r n ++ a ∷ []
  window-set xs r w zero a s hr hw d k =
      let e : r ≡ w = ground arith in
      rw e (window-suc (set xs w a) w 0 a (get_elem?-set_self xs w a hw))
  window-set xs r w (suc n) a s hr hw d k =
      let (x, e) = get_elem?_total xs r hr in
      rw
        (
          window-suc xs r n x e,
          window-suc (set xs w a) r (suc n) x (get_elem?-set_ne xs w r a (λ p. ground arith) ∙ e),
          length-set xs w a,
        )
        (ap (λ l. x ∷ l)
          (window-set xs (next (length xs) r) w n a s (next-lt (length xs) r s hr) hw
            (distance-next (length xs) r w n s hr hw d) (omega arith)))

  pub size-eq-distance :
      (q : LfQueue A)
      → IsValid q
      → size q ≡ distance (length q.store) q.next_read_index q.next_write_index
  unfolding size
  size-eq-distance q v = ground arith

  -- `size` is the number of entries held.
  pub length-contents : (q : LfQueue A) → IsValid q → length (contents q) ≡ size q
  length-contents q v = length-window q.store q.next_read_index (size q) v.small v.read_in

  pub size-lt : (q : LfQueue A) → IsValid q → size q < length q.store
  size-lt q v = ground (arith, size-eq-distance q v)
