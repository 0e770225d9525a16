-- ===== src/Book/Index.antt =====
-- header/lob_struct.h: an order used up or resized in its place keeps the LUT, the rows and the
-- counters in step.
use trade_engine.Prelude.{
  ℕ, ◌+◌, ◌<◌, ◌≡◌, ◌≢◌, inl, inr, sym, ◌∙◌, ap, Option, none, some, List, set, get_elem?, ℤ, pos,
  decr, arith, update, Bool-cases, ==_refl, ◌==◌, if◌then◌else◌, get_elem?-set_cases, get_elem?-lt,
  get_elem?-set_ne, get_elem?-set_self,
}
use trade_engine.Structs.{LobOrder}
use trade_engine.Book.{Location}
use trade_engine.Book.Rows.{live_count, live_count-set}
use trade_engine.Book.Inv.{Resting, IsIndexed}

module _ (rows : ℕ → List LobOrder) (lut : ℕ → Option Location) (counts : ℕ → ℤ) (max : ℕ)
    (v : IsIndexed rows lut counts max) where
  -- A live order soft-deleted, and taken out of the LUT.
  module _ (id p c : ℕ) (o : LobOrder) (at : lut id ≡ some (p, c))
      (here : get_elem? (rows p) c ≡ some o) where
    abbrev pub zero_rows : ℕ → List LobOrder
    zero_rows = update rows p (set (rows p) c (record o { quantity = 0 }))

    abbrev pub zero_lut : ℕ → Option Location
    zero_lut = update lut id none

    pub o_id : o.system_id ≡ id
    o_id = ground (arith, v.located id p c at)

    pub o_live : 0 < o.quantity
    o_live = ground (arith, v.located id p c at)

    set_elsewhere :
        (w : LobOrder) (p' c' : ℕ) (o' : LobOrder)
        → get_elem? (rows p') c' ≡ some o'
        → o'.system_id ≢ id
        → get_elem? (update rows p (set (rows p) c w) p') c' ≡ some o'
    set_elsewhere w p' c' o' h n = elim (Bool-cases (p == p')) [
      | inl e ↦
          let row : p ≡ p' = ground arith in
          let old : get_elem? (rows p) c' ≡ some o' = rw row h in
          let column : c ≢ c' = λ k. n (ap_id old k) in
          rw (e, get_elem?-set_ne (rows p) c c' w column) old
      | inr e ↦ rw e h
    ]
      where
        ap_id : get_elem? (rows p) c' ≡ some o' → c ≡ c' → o'.system_id ≡ id
        ap_id old k = let both : get_elem? (rows p) c ≡ some o' = rw k old in ground (arith, o_id)

    zero_Resting :
        (id' p' c' : ℕ) → Resting rows max id' p' c' → id ≢ id' → Resting zero_rows max id' p' c'
    zero_Resting id' p' c' r n = record {
      id_in = r.id_in;
      price_in = r.price_in;
      order = r.order;
      here =
          set_elsewhere (record o { quantity = 0 }) p' c' r.order r.here
            (λ e. n (sym e ∙ r.same_id));
      same_id = r.same_id;
      positive = r.positive;
    }

    zero_located : (id' p' c' : ℕ) → zero_lut id' ≡ some (p', c') → Resting zero_rows max id' p' c'
    zero_located id' p' c' h = elim (Bool-cases (id == id')) [
      | inl e ↦ absurd (ground arith)
      | inr e ↦ zero_Resting id' p' c' (v.located id' p' c' (ground arith)) (ground arith)
    ]

    zero_indexed :
        (p' c' : ℕ) (o' : LobOrder)
        → p' < max
        → get_elem? (zero_rows p') c' ≡ some o'
        → 0 < o'.quantity
        → zero_lut o'.system_id ≡ some (p', c')
    zero_indexed p' c' o' k h k' = elim (Bool-cases (p == p')) [
      | inl e ↦ ground (
        arith,
        v.indexed p c' o',
        get_elem?-set_cases (rows p) c (record o { quantity = 0 }) c' {a = o'},
      )
      | inr e ↦ ground (arith, v.indexed p' c' o')
    ]

    zero_counted :
        (p' : ℕ) → p' < max → update counts p (decr (counts p)) p' ≡ pos (live_count (zero_rows p'))
    zero_counted p' k = ground (
      arith,
      o_live,
      v.counted p' k,
      live_count-set (rows p) c o (record o { quantity = 0 }) here,
    )

    pub live_count-zero :
        (p' : ℕ) → live_count (zero_rows p') + (if p == p' then 1 else 0) ≡ live_count (rows p')
    live_count-zero p' =
        ground (arith, o_live, live_count-set (rows p) c o (record o { quantity = 0 }) here)

    pub zero-IsIndexed : IsIndexed zero_rows zero_lut (update counts p (decr (counts p))) max
    zero-IsIndexed = record {
      located = zero_located;
      indexed = zero_indexed;
      counted = zero_counted;
    }

    -- The order with another quantity, in the same place.
    module _ (n : ℕ) (n_pos : 0 < n) where
      abbrev pub resize_rows : ℕ → List LobOrder
      resize_rows = update rows p (set (rows p) c (record o { quantity = n }))

      resize_Resting :
          (id' p' c' : ℕ)
          → Resting rows max id' p' c'
          → id ≢ id'
          → Resting resize_rows max id' p' c'
      resize_Resting id' p' c' r k = record {
        id_in = r.id_in;
        price_in = r.price_in;
        order = r.order;
        here =
            set_elsewhere (record o { quantity = n }) p' c' r.order r.here
              (λ e. k (sym e ∙ r.same_id));
        same_id = r.same_id;
        positive = r.positive;
      }

      resize_self : Resting resize_rows max id p c
      resize_self =
          let r = v.located id p c at in
          record {
            id_in = r.id_in;
            price_in = r.price_in;
            order = record o { quantity = n };
            here = rw (==_refl p) (
                get_elem?-set_self (rows p) c (record o { quantity = n })
                  (get_elem?-lt (rows p) c here));
            same_id = o_id;
            positive = n_pos;
          }

      resize_located : (id' p' c' : ℕ) → lut id' ≡ some (p', c') → Resting resize_rows max id' p' c'
      resize_located id' p' c' h = elim (Bool-cases (id == id')) [
        | inl e ↦
            let same : id ≡ id' = ground arith in
            let both : ◌≡◌ {A = Option Location} (some (p, c)) (some (p', c')) =
              sym at ∙ ap lut same ∙ h in
            let row : p ≡ p' = ground arith in
            let column : c ≡ c' = ground arith in rw (← same, ← row, ← column) resize_self
        | inr e ↦ resize_Resting id' p' c' (v.located id' p' c' h) (ground arith)
      ]

      resize_indexed :
          (p' c' : ℕ) (o' : LobOrder)
          → p' < max
          → get_elem? (resize_rows p') c' ≡ some o'
          → 0 < o'.quantity
          → lut o'.system_id ≡ some (p', c')
      resize_indexed p' c' o' k h k' = elim (Bool-cases (p == p')) [
        | inl e ↦ ground (
          arith,
          o_live,
          v.indexed p c o,
          v.indexed p c' o',
          get_elem?-set_cases (rows p) c (record o { quantity = n }) c' {a = o'},
        )
        | inr e ↦ ground (arith, v.indexed p' c' o')
      ]

      pub live_count-resize : (p' : ℕ) → live_count (resize_rows p') ≡ live_count (rows p')
      live_count-resize p' =
          ground (arith, o_live, live_count-set (rows p) c o (record o { quantity = n }) here)

      pub resize-IsIndexed : IsIndexed resize_rows lut counts max
      resize-IsIndexed = record {
        located = resize_located;
        indexed = resize_indexed;
        counted = λ p' k. v.counted p' k ∙ ap pos (sym (live_count-resize p'));
      }
