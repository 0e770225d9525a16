-- ===== src/Alpha.antt =====
-- alpha_tester.cpp: how the test trader sends the orders that it has prepared. Alpha/Fill prepares
-- them, and Alpha/Server is the whole of `AlphaRun`.
pub mod Fill
pub mod Server
mod Tests
use trade_engine.Prelude.{
  ℕ, zero, suc, ◌+◌, ◌≡◌, refl, sym, ◌∙◌, ap, none, some, List, [], ◌∷◌, ◌++◌, length, get_elem?,
  get_elem?-middle, append_assoc, append-nil, arith, Result, ok, fault, ◌>>=◌, or_fault,
  length-append,
}
use trade_engine.Structs.{UserOrder}
use trade_engine.Outbox.{Outbox, HasRoom, insist, insist_ok}

-- `run(i)`: yields until the queue has room, and publishes entry `i` of `TestStore`. A spin lasts
-- `patience` attempts before it counts as waiting.
pub run : ℕ → List UserOrder → ℕ → Outbox UserOrder → Result (Outbox UserOrder)
run patience test_store i queue = do
  order ← or_fault (get_elem? test_store i)
  insist patience order queue

-- The sending loop of `AlphaRun`, by the entries that are left, from `i` on.
pub send_from : ℕ → List UserOrder → ℕ → ℕ → Outbox UserOrder → Result (Outbox UserOrder)
send_from patience test_store zero i queue = ok queue
send_from patience test_store (suc left) i queue = do
  queue' ← run patience test_store i queue
  send_from patience test_store left (suc i) queue'

pub alpha_run : ℕ → List UserOrder → Outbox UserOrder → Result (Outbox UserOrder)
alpha_run patience test_store queue = send_from patience test_store (length test_store) 0 queue

-- Whatever has been sent and tried, there is room within the patience.
abbrev pub IsDrained : ℕ → Outbox UserOrder → Type 0
IsDrained patience queue = (o : Outbox UserOrder) → o.room ≡ queue.room → HasRoom patience o

send_from_lem :
    (patience : ℕ) (before rest : List UserOrder) (i : ℕ) (queue : Outbox UserOrder)
    → IsDrained patience queue
    → i ≡ length before
    → (queue' : Outbox UserOrder) × (send_from patience (before ++ rest) (length rest) i queue
        ≡ ok queue')
      × (queue'.sent ≡ queue.sent ++ rest)
unfolding send_from run
send_from_lem patience before [] i queue d e = (queue, refl, sym (append-nil queue.sent))
send_from_lem patience before (o ∷ rest) i queue d e =
    let (queue₁, spun, sent, room) = insist_ok patience o queue (d queue refl) in
    let (queue₂, runs, sent₂) =
      send_from_lem patience (before ++ o ∷ []) rest (suc i) queue₁ (λ x h. d x (h ∙ room))
        (omega (arith, length-append before (o ∷ []))) in
    (
      queue₂,
      rw (e, get_elem?-middle before rest o, ◌>>=◌, spun)
          (rw (append_assoc before (o ∷ []) rest, e) at runs),
      sent₂ ∙ ap (λ xs. xs ++ rest) sent ∙ append_assoc queue.sent (o ∷ []) rest,
    )

-- `AlphaRun` sends all prepared orders, each once and in their order, where the gateway makes
-- room within the patience of each spin.
pub alpha_run-sent :
    (patience : ℕ) (test_store : List UserOrder) (queue : Outbox UserOrder)
    → IsDrained patience queue
    → (queue' : Outbox UserOrder) × (alpha_run patience test_store queue ≡ ok queue')
      × (queue'.sent ≡ queue.sent ++ test_store)
unfolding alpha_run
alpha_run-sent patience test_store queue d = send_from_lem patience [] test_store 0 queue d refl
