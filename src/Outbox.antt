-- ===== src/Outbox.antt =====
-- A queue of header/lock_free_queue.h as its producer sees it. Whether an attempt to claim a slot
-- succeeds depends on how far the consumer has come, which is the other thread's: `room` answers
-- each attempt in turn, and is any sequence. `sent` is what has been published, oldest first.
use trade_engine.Prelude.{
  ℕ, zero, suc, ◌≡◌, Bool, true, List, [], ◌∷◌, ◌++◌, if◌then◌else◌, Result, ok, waiting, refl,
  Bool-cases, ◌⊎◌, inl, inr,
}

pub record Outbox {ℓ} (A : Type ℓ) : Type ℓ where
  pub sent : List A
  pub room : ℕ → Bool
  pub attempts : ℕ

module _ {ℓ} {A : Type ℓ} where
  -- `getNextToWriteTo`: whether the pointer is not null.
  abbrev pub has_room : Outbox A → Bool
  has_room o = o.room o.attempts

  abbrev pub attempted : Outbox A → Outbox A
  attempted o = record o { attempts = suc o.attempts }

  -- The slot filled, and `updateWriteIndex`.
  abbrev pub publish : A → Outbox A → Outbox A
  publish a o = record o { sent = o.sent ++ a ∷ [] }

  -- One attempt; the entry is dropped where there is no room.
  unfoldable pub offer : A → Outbox A → Outbox A
  offer a o = if has_room o then publish a (attempted o) else attempted o

  -- Two attempts, with a yield between them, before the entry is dropped.
  unfoldable pub offer_twice : A → Outbox A → Outbox A
  unfolding offer
  offer_twice a o = if has_room o then publish a (attempted o) else offer a (attempted o)

  -- Attempts, with a yield between each two, until there is room. The first argument is the
  -- number of attempts that the run lasts.
  unfoldable pub insist : ℕ → A → Outbox A → Result (Outbox A)
  insist zero a o = waiting
  insist (suc rounds) a o =
      let rest = insist rounds a (attempted o) in
      if has_room o then ok (publish a (attempted o)) else rest

-- Within `rounds` attempts there is room.
abbrev pub HasRoom {ℓ} : {A : Type ℓ} → ℕ → Outbox A → Type 0
HasRoom zero o = ⊥
HasRoom (suc rounds) o = (has_room o ≡ true) ⊎ HasRoom rounds (attempted o)

-- Then the spin ends, and what it publishes is the entry, behind what was published before.
pub insist_ok {ℓ} :
    {A : Type ℓ} (rounds : ℕ) (a : A) (o : Outbox A)
    → HasRoom rounds o
    → (o' : Outbox A) × (insist rounds a o ≡ ok o')
      × (o'.sent ≡ o.sent ++ a ∷ [])
      × (o'.room ≡ o.room)
unfolding insist
insist_ok zero a o h = absurd h
insist_ok (suc rounds) a o (inl h) = (publish a (attempted o), rw h, refl, refl)
insist_ok (suc rounds) a o (inr h) = elim (Bool-cases (has_room o)) [
  | inl t ↦ (publish a (attempted o), rw t, refl, refl)
  | inr t ↦ let (o', e, s, r) = insist_ok rounds a (attempted o) h in (o', rw t e, s, r)
]

-- Without room the spin does not end.
pub insist_waits {ℓ} :
    {A : Type ℓ} (rounds : ℕ) (a : A) (o : Outbox A)
    → ¬ HasRoom rounds o
    → insist rounds a o ≡ waiting
unfolding insist
insist_waits zero a o h = refl
insist_waits (suc rounds) a o h = elim (Bool-cases (has_room o)) [
  | inl t ↦ absurd (h (inl t))
  | inr t ↦ rw t (insist_waits rounds a (attempted o) (λ r. h (inr r)))
]
