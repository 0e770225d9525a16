-- ===== src/Flags.antt =====
-- alpha_tester.cpp, matching/matching.cpp, order_gateway/order_gateway.cpp: the flags `start` and
-- `terminate` by which main.cpp starts and ends the threads. What the readings of a flag answer is
-- any sequence.
use trade_engine.Prelude.{
  ℕ, zero, suc, ◌+◌, ◌<◌, ◌≤◌, ◌≡◌, refl, Bool, true, false, arith, Result, ok, fault, waiting,
  ◌>>=◌, if◌then◌else◌, Bool-cases, ◌⊎◌, inl, inr, ◌==◌,
}

-- The wait, from reading `k` on: whether the thread is to go on.
pub await_start : ℕ → (ℕ → Bool) → (ℕ → Bool) → ℕ → Result Bool
await_start zero start terminate k = waiting
await_start (suc rounds) start terminate k =
    let rest = await_start rounds start terminate (suc k) in
    if start k then ok true else (if terminate k then ok false else rest)

-- The loop that goes on until a reading of `terminate` is true, from reading `k` on.
pub until_terminated {ℓ} : {S : Type ℓ} → ℕ → (ℕ → Bool) → (ℕ → S → Result S) → ℕ → S → Result S
until_terminated zero terminate body k s = waiting
until_terminated (suc rounds) terminate body k s =
    let rest = body k s >>= until_terminated rounds terminate body (suc k) in
    if terminate k then ok s else rest

-- The bodies of `n` rounds, the first of them that of reading `k`.
unfoldable pub times {ℓ} : {S : Type ℓ} → ℕ → (ℕ → S → Result S) → ℕ → S → Result S
times zero body k s = ok s
times (suc n) body k s = body k s >>= times n body (suc k)

-- Reading `n` is the first one, from `k` on, that is true.
pub record IsFirst (flag : ℕ → Bool) (k n : ℕ) : Type 0 where
  pub down : (j : ℕ) → k ≤ j → j < n → flag j ≡ false
  pub up : flag n ≡ true

pub bind_ext {ℓ} :
    {S : Type ℓ} (r : Result S) (f g : S → Result S) → ((s : S) → f s ≡ g s) → (r >>= f) ≡ (r >>= g)
bind_ext fault f g h = refl
bind_ext waiting f g h = refl
bind_ext (ok s) f g h = h s

-- The loop runs the body once for each reading that is false.
pub until_terminated_lem {ℓ} :
    {S : Type ℓ} (n rounds : ℕ) (terminate : ℕ → Bool) (body : ℕ → S → Result S) (k m : ℕ) (s : S)
    → n < rounds
    → k + n ≡ m
    → IsFirst terminate k m
    → until_terminated rounds terminate body k s ≡ times n body k s
unfolding until_terminated times
until_terminated_lem zero (suc rounds) terminate body k m s h e first =
    let here : m ≡ k = omega arith in
    let up : terminate k ≡ true = rw here at first.up in rw up refl
until_terminated_lem (suc n) (suc rounds) terminate body k m s h e first =
    let down : terminate k ≡ false = first.down k (omega arith) (omega arith) in
    rw down (
      bind_ext (body k s) _ _ (λ s'.
        until_terminated_lem n rounds terminate body (suc k) m s' (omega arith) (omega arith)
          (record { down = λ j low high. first.down j (omega arith) high; up = first.up })))
until_terminated_lem n zero terminate body k m s h e first = absurd (omega arith)

-- No flag was up in the readings from `k` on and before `n`.
abbrev AreIdle : (ℕ → Bool) → (ℕ → Bool) → ℕ → ℕ → Type 0
AreIdle start terminate k n = (j : ℕ) → k ≤ j → j < n → (start j ≡ false) × (terminate j ≡ false)

-- How the wait ends.
data Ends (rounds : ℕ) (start terminate : ℕ → Bool) (k : ℕ) : Result Bool → Type 0 where
  started :
      (n : ℕ)
      → n < k + rounds
      → AreIdle start terminate k n
      → start n ≡ true
      → Ends rounds start terminate k (ok true)
  stopped :
      (n : ℕ)
      → n < k + rounds
      → AreIdle start terminate k n
      → start n ≡ false
      → terminate n ≡ true
      → Ends rounds start terminate k (ok false)
  waits : AreIdle start terminate k (k + rounds) → Ends rounds start terminate k waiting

AreIdle-step :
    (start terminate : ℕ → Bool) (k n : ℕ)
    → start k ≡ false
    → terminate k ≡ false
    → AreIdle start terminate (suc k) n
    → AreIdle start terminate k n
AreIdle-step start terminate k n s t idle j low high = elim (Bool-cases (j == k)) [
  | inl e ↦ let same : j ≡ k = ground arith in rw same (s, t)
  | inr e ↦ idle j (ground arith) high
]

Ends-step :
    (rounds : ℕ) (start terminate : ℕ → Bool) (k : ℕ) (r : Result Bool)
    → start k ≡ false
    → terminate k ≡ false
    → Ends rounds start terminate (suc k) r
    → Ends (suc rounds) start terminate k r
Ends-step rounds start terminate k _ s t (started n below idle up) =
    started n (omega arith) (AreIdle-step start terminate k n s t idle) up
Ends-step rounds start terminate k _ s t (stopped n below idle down up) =
    stopped n (omega arith) (AreIdle-step start terminate k n s t idle) down up
Ends-step rounds start terminate k _ s t (waits idle) =
    waits
      (λ j low high. AreIdle-step start terminate k (suc k + rounds) s t idle j low (omega arith))

await_start-Ends :
    (rounds : ℕ) (start terminate : ℕ → Bool) (k : ℕ)
    → Ends rounds start terminate k (await_start rounds start terminate k)
unfolding await_start
await_start-Ends zero start terminate k = waits (λ j low high. absurd (omega arith))
await_start-Ends (suc rounds) start terminate k = elim (Bool-cases (start k)) [
  | inl s ↦ rw s (started k (omega arith) (λ j low high. absurd (omega arith)) s)
  | inr s ↦ elim (Bool-cases (terminate k)) [
    | inl t ↦ rw (s, t) (stopped k (omega arith) (λ j low high. absurd (omega arith)) s t)
    | inr t ↦
        rw (s, t)
          (Ends-step rounds start terminate k (await_start rounds start terminate (suc k)) s t
            (await_start-Ends rounds start terminate (suc k)))
  ]
]

-- What a thread has come to that does `started` when it is started, and `stopped` when it is told
-- to stop before.
abbrev pub Behaves {ℓ} :
    {A : Type ℓ} → ℕ → (ℕ → Bool) → (ℕ → Bool) → Result A → Result A → Result A → Type ℓ
Behaves rounds start terminate started_result stopped_result r =
    ((n : ℕ) × (n < rounds) × AreIdle start terminate 0 n × (start n ≡ true) × (r ≡ started_result))
    ⊎ ((n : ℕ) × (n < rounds)
        × AreIdle start terminate 0 n
        × (start n ≡ false)
        × (terminate n ≡ true)
        × (r ≡ stopped_result))
    ⊎ (AreIdle start terminate 0 rounds × (r ≡ waiting))

Ends-Behaves {ℓ} :
    {A : Type ℓ} (rounds : ℕ) (start terminate : ℕ → Bool) (a b : Result A) (r : Result Bool)
    → Ends rounds start terminate 0 r
    → Behaves rounds start terminate a b (r >>= λ go. if go then a else b)
Ends-Behaves rounds start terminate a b _ (started n below idle up) =
    inl (n, omega arith, idle, up, refl)
Ends-Behaves rounds start terminate a b _ (stopped n below idle down up) =
    inr (inl (n, omega arith, idle, down, up, refl))
Ends-Behaves rounds start terminate a b _ (waits idle) =
    inr (inr (λ j low high. idle j low (omega arith), refl))

pub await_start-Behaves {ℓ} :
    {A : Type ℓ} (rounds : ℕ) (start terminate : ℕ → Bool) (a b : Result A)
    → Behaves rounds start terminate a b
        (await_start rounds start terminate 0 >>= λ go. if go then a else b)
await_start-Behaves rounds start terminate a b =
    Ends-Behaves rounds start terminate a b (await_start rounds start terminate 0)
      (await_start-Ends rounds start terminate 0)
