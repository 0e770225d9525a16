-- ===== src/Engine/Ids.antt =====
-- matching/matching.cpp: the system ids that an engine knows.
use trade_engine.Prelude.{
  ℕ, zero, suc, ◌-◌, ◌<◌, ◌≡◌, ◌≢◌, refl, Bool, true, false, ◌||◌, none, some, List, [], ◌∷◌, ◌++◌,
  get_elem?, arith, ◌==◌, Bool-cases, Option-cases, inl, inr,
}
use trade_engine.Structs.{LobOrder}
use trade_engine.Book.{Book}
use trade_engine.Book.Rows.{live}
use trade_engine.Book.Inv.{IsValid, Resting}
use trade_engine.Book.Levels.{level}
use trade_engine.Engine.Consume.{consume}

-- An order with this id stands in the list.
pub has_id : ℕ → List LobOrder → Bool
has_id id [] = false
has_id id (o ∷ os) = o.system_id == id || has_id id os

has_id-live :
    (row : List LobOrder) (c : ℕ) (o : LobOrder)
    → get_elem? row c ≡ some o
    → 0 < o.quantity
    → has_id o.system_id (live row) ≡ true
unfolding has_id
has_id-live [] c o e k = cc
has_id-live (x ∷ row) zero o e k = ground arith
has_id-live (x ∷ row) (suc c) o e k = ground (arith, has_id-live row c o e k)

live-has_id :
    (id : ℕ) (row : List LobOrder)
    → has_id id (live row) ≡ true
    → (c : ℕ) × (o : LobOrder) × (get_elem? row c ≡ some o) × (0 < o.quantity) × (o.system_id ≡ id)
unfolding has_id
live-has_id id [] h = cc
live-has_id id (x ∷ row) h = elim (Bool-cases (x.quantity == 0)) [
  | inl t ↦ let (c, o, e, k, s) = live-has_id id row (rw t at h) in (suc c, o, e, k, s)
  | inr t ↦ elim (Bool-cases (x.system_id == id)) [
    | inl u ↦ (0, x, refl, ground arith, ground arith)
    | inr u ↦
        let (c, o, e, k, s) = live-has_id id row (rw (t, has_id, u) at h) in (suc c, o, e, k, s)
  ]
]

pub has_id-consume :
    (id q : ℕ) (os : List LobOrder) → has_id id (consume q os) ≡ true → has_id id os ≡ true
unfolding has_id consume
has_id-consume id q [] h = h
has_id-consume id q (o ∷ os) h = ground (arith, has_id-consume id (q - o.quantity) os)

pub has_id-append :
    (id : ℕ) (os : List LobOrder) (o : LobOrder)
    → has_id id (os ++ o ∷ []) ≡ true
    → o.system_id ≢ id
    → has_id id os ≡ true
unfolding has_id
has_id-append id [] o h n = ground arith
has_id-append id (x ∷ os) o h n = ground (arith, has_id-append id os o)

-- In a valid book an id that the LUT does not know stands in no queue, and the other way round.
pub unknown-level :
    (b : Book) (id p : ℕ)
    → IsValid b
    → b.lut id ≡ none
    → p < b.max_price_possible
    → has_id id (level b p) ≡ true
    → ⊥
unknown-level b id p v n h k =
    let (c, o, e, q, s) = live-has_id id (b.book p) k in
    absurd (cc (v.index.indexed p c o h e q, s, n))

pub level-unknown :
    (b : Book) (id : ℕ)
    → IsValid b
    → ((p : ℕ) → p < b.max_price_possible → has_id id (level b p) ≡ true → ⊥)
    → b.lut id ≡ none
level-unknown b id v h = elim (Option-cases (b.lut id)) [
  | inl n ↦ n
  | inr ((p, c), e) ↦
      let r : Resting b.book b.max_price_possible id p c = v.index.located id p c e in
      absurd (h p r.price_in (rw r.same_id at (has_id-live (b.book p) c r.order r.here r.positive)))
]
