-- ===== src/Engine/Measured.antt =====
-- matching/matching.cpp: how many times the engine has measured when its loop ends.
use trade_engine.Prelude.{
  ℕ, zero, suc, ◌+◌, ◌-◌, ◌<◌, ◌≡◌, refl, ◌∙◌, ap, false, Option, none, some, List, [], ◌∷◌, ◌++◌,
  length, length-append, ◌==◌, arith, Result, ok, fault, waiting, ◌>>=◌, if◌then◌else◌, bind_ok,
}
use trade_engine.Structs.{LobOrder, LobAck, BroadCast, LogElement}
use trade_engine.Outbox.{Outbox}
use trade_engine.Engine.{Engine, init}
use trade_engine.Engine.Handlers.{receive, dispatch, read_order, matching_engine}
use trade_engine.Engine.Measures.{Keeps, dispatch-Keeps}
use trade_engine.Engine.Requests.{booked, read_none}

-- The orders that the readings find.
abbrev pub served : List (Option LobOrder) → ℕ
served [] = 0
served (none ∷ slots) = served slots
served (some order ∷ slots) = suc (served slots)

-- `k` orders have been measured: each but the first has a throughput time.
pub record IsMeasured (k : ℕ) (e : Engine) : Type 0 where
  pub ticking : (j : ℕ) → 0 < e.cycles j
  pub queued : length e.queue_time ≡ k
  pub through : length e.throughput ≡ k - 1
  pub processed : length e.matching_processing_time ≡ k
  pub traded : length e.tick_to_trade ≡ k
  pub first : k ≡ 0 → e.last_order_time ≡ 0
  pub later : 0 < k → 0 < e.last_order_time

length-snoc {ℓ} : {A : Type ℓ} (xs : List A) (x : A) → length (xs ++ x ∷ []) ≡ suc (length xs)
length-snoc xs x = length-append xs (x ∷ []) ∙ omega arith

read_order-inv :
    (fuel : ℕ) (order : LobOrder) (e e' : Engine)
    → read_order fuel (some order) e ≡ ok e'
    → (t : ℕ × Engine) × (dispatch fuel order (receive order e) ≡ ok t)
      × (e' ≡ booked order e t.0 t.1)
unfolding read_order
read_order-inv fuel order e e' h =
    let (t, runs, rest) =
      bind_ok (dispatch fuel order (receive order e)) (λ t. ok (booked order e t.0 t.1)) e' h in
    (t, runs, cc)

-- The throughput times after one more order.
length-through :
    (k last : ℕ) (xs : List ℕ) (x : ℕ)
    → length xs ≡ k - 1
    → (k ≡ 0 → last ≡ 0)
    → (0 < k → 0 < last)
    → length (if last == 0 then xs else xs ++ x ∷ []) ≡ suc k - 1
length-through zero last xs x same first later =
    let z : last ≡ 0 = first refl in rw z (omega (arith, same))
length-through (suc k) last xs x same first later =
    let up : 0 < last = later (omega arith) in
    let nonzero : (last == 0) ≡ false = ground arith in
    rw nonzero (omega (arith, same, length-snoc xs x))

read_order-IsMeasured :
    (k fuel : ℕ) (order : LobOrder) (e e' : Engine)
    → IsMeasured k e
    → read_order fuel (some order) e ≡ ok e'
    → IsMeasured (suc k) e'
unfolding receive
read_order-IsMeasured k fuel order e e' m h =
    let (t, runs, same) = read_order-inv fuel order e e' h in
    let kept : Keeps (receive order e) t.1 = dispatch-Keeps fuel order (receive order e) t runs in
    rw same (record {
      ticking = λ j. rw (ap (λ s. s.5) kept) (m.ticking j);
      queued = rw (ap (λ s. s.0) kept) (length-snoc e.queue_time _ ∙ ap suc m.queued);
      through =
          rw (ap (λ s. s.1) kept)
            (length-through k e.last_order_time e.throughput _ m.through m.first m.later);
      processed =
          length-snoc t.1.matching_processing_time _
          ∙ ap suc (ap (λ s. length s.2) kept ∙ m.processed);
      traded = length-snoc t.1.tick_to_trade _ ∙ ap suc (ap (λ s. length s.3) kept ∙ m.traded);
      first = λ z. absurd (omega arith);
      later = λ _. rw (ap (λ s. s.4) kept) (m.ticking e.cycles_read);
    })

pub matching_engine-IsMeasured :
    (k fuel : ℕ) (slots : List (Option LobOrder)) (e e' : Engine)
    → IsMeasured k e
    → matching_engine fuel slots e ≡ ok e'
    → IsMeasured (k + served slots) e'
unfolding matching_engine
matching_engine-IsMeasured k fuel [] e e' m h =
    let same : e ≡ e' = ap (value e) h in
    let all : k + 0 ≡ k = omega arith in rw all (rw (← same) m)
  where
    value : Engine → Result Engine → Engine
    value d (ok x) = x
    value d fault = d
    value d waiting = d
matching_engine-IsMeasured k fuel (none ∷ slots) e e' m h =
    matching_engine-IsMeasured k fuel slots e e' m (rw (read_none fuel e, ◌>>=◌) at h)
matching_engine-IsMeasured k fuel (some order ∷ slots) e e' m h =
    let (e₁, runs, rest) =
      bind_ok (read_order fuel (some order) e) (matching_engine fuel slots) e' h in
    let all : k + suc (served slots) ≡ suc k + served slots = omega arith in
    rw all (
      matching_engine-IsMeasured (suc k) fuel slots e₁ e'
        (read_order-IsMeasured k fuel order e e₁ m runs) rest)

-- A waiting time is noted for each order that is taken.
pub matching_engine-queue_time :
    (fuel : ℕ) (slots : List (Option LobOrder)) (e e' : Engine)
    → matching_engine fuel slots e ≡ ok e'
    → length e'.queue_time ≡ length e.queue_time + served slots
unfolding matching_engine receive
matching_engine-queue_time fuel [] e e' h =
    let same : e'.queue_time ≡ e.queue_time = ground arith in rw same (omega arith)
matching_engine-queue_time fuel (none ∷ slots) e e' h =
    matching_engine-queue_time fuel slots e e' (rw (read_none fuel e, ◌>>=◌) at h)
matching_engine-queue_time fuel (some order ∷ slots) e e' h =
    let (e₁, runs, rest) =
      bind_ok (read_order fuel (some order) e) (matching_engine fuel slots) e' h in
    let (t, dispatched, same) = read_order-inv fuel order e e₁ runs in
    let kept : Keeps (receive order e) t.1 =
      dispatch-Keeps fuel order (receive order e) t dispatched in
    let one : length e₁.queue_time ≡ suc (length e.queue_time) =
      ap (λ s. length s.queue_time) same ∙ ap (λ s. length s.0) kept ∙ length-snoc e.queue_time _ in
    omega (arith, one, matching_engine-queue_time fuel slots e₁ e' rest)

pub init-IsMeasured :
    (max : ℕ) (acks : Outbox LobAck) (broadcast : Outbox BroadCast) (log : Outbox LogElement)
    (cycles : ℕ → ℕ) (patience : ℕ)
    → ((j : ℕ) → 0 < cycles j)
    → IsMeasured 0 (init max acks broadcast log cycles patience)
unfolding init
init-IsMeasured max acks broadcast log cycles patience h = record {
  ticking = h;
  queued = refl;
  through = refl;
  processed = refl;
  traded = refl;
  first = λ _. refl;
  later = λ l. l;
}
