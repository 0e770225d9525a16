-- ===== src/Book/Append.antt =====
-- header/lob_struct.h: a new order at the end of its row keeps the LUT, the rows and the counters
-- in step.
use trade_engine.Prelude.{
  ℕ, ◌<◌, ◌≡◌, inl, inr, refl, Option, none, some, List, [], ◌∷◌, ◌++◌, length, get_elem?, ℤ, pos,
  incr, arith, update, Bool-cases, ==_refl, ◌==◌, get_elem?-append_cases, get_elem?-append_left,
  get_elem?-append_last, get_elem?-lt,
}
use trade_engine.Structs.{LobOrder}
use trade_engine.Book.{Location, lut_size}
use trade_engine.Book.Rows.{live_count, live_count-append}
use trade_engine.Book.Inv.{Resting, IsIndexed}

module _ (rows : ℕ → List LobOrder) (lut : ℕ → Option Location) (counts : ℕ → ℤ) (max : ℕ)
    (v : IsIndexed rows lut counts max) where
  -- A new order at the end of its row.
  module _ (o : LobOrder) (p : ℕ) (fresh : lut o.system_id ≡ none) (id_in : o.system_id < lut_size)
      (p_in : p < max) (q : 0 < o.quantity) where
    abbrev pub append_rows : ℕ → List LobOrder
    append_rows = update rows p (rows p ++ o ∷ [])

    abbrev pub append_lut : ℕ → Option Location
    append_lut = update lut o.system_id (some (p, length (rows p)))

    append_here :
        (p' c : ℕ) {o' : LobOrder}
        → get_elem? (rows p') c ≡ some o'
        → get_elem? (append_rows p') c ≡ some o'
    append_here p' c {o'} h = elim (Bool-cases (p == p')) [
      | inl e ↦
          let row : p ≡ p' = ground arith in
          let old : get_elem? (rows p) c ≡ some o' = rw row h in
          rw (e, get_elem?-append_left (rows p) (o ∷ []) c (get_elem?-lt (rows p) c old)) old
      | inr e ↦ rw e h
    ]

    append_Resting : {id p' c : ℕ} → Resting rows max id p' c → Resting append_rows max id p' c
    append_Resting {id} {p'} {c} r = record {
      id_in = r.id_in;
      price_in = r.price_in;
      order = r.order;
      here = append_here p' c r.here;
      same_id = r.same_id;
      positive = r.positive;
    }

    append_new : Resting append_rows max o.system_id p (length (rows p))
    append_new = record {
      id_in = id_in;
      price_in = p_in;
      order = o;
      here = rw (==_refl p) (get_elem?-append_last (rows p) o);
      same_id = refl;
      positive = q;
    }

    append_located : (id p' c : ℕ) → append_lut id ≡ some (p', c) → Resting append_rows max id p' c
    append_located id p' c h = elim (Bool-cases (o.system_id == id)) [
      | inl e ↦
          let same : o.system_id ≡ id = ground arith in
          let row : p ≡ p' = ground arith in
          let column : length (rows p) ≡ c = ground arith in rw (← same, ← row, ← column) append_new
      | inr e ↦ append_Resting (v.located id p' c (ground arith))
    ]

    append_indexed :
        (p' c : ℕ) (o' : LobOrder)
        → p' < max
        → get_elem? (append_rows p') c ≡ some o'
        → 0 < o'.quantity
        → append_lut o'.system_id ≡ some (p', c)
    append_indexed p' c o' k h k' = elim (Bool-cases (p == p')) [
      | inl e ↦ ground (arith, v.indexed p c o', get_elem?-append_cases (rows p) o c {a = o'})
      | inr e ↦ ground (arith, v.indexed p' c o')
    ]

    append_counted :
        (p' : ℕ)
        → p' < max
        → update counts p (incr (counts p)) p' ≡ pos (live_count (append_rows p'))
    append_counted p' k = ground (arith, v.counted p' k, live_count-append (rows p) (o ∷ []))

    pub append-IsIndexed : IsIndexed append_rows append_lut (update counts p (incr (counts p))) max
    append-IsIndexed = record {
      located = append_located;
      indexed = append_indexed;
      counted = append_counted;
    }
