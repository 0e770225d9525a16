-- ===== src/Book/Spec.antt =====
-- header/lob_struct.h: what the three operations promise of the price levels and their queues.
use trade_engine.Prelude.{
  ◌≤◌, get_elem?, Option-cases, ℕ, ◌<◌, ◌≡◌, ◌≢◌, inl, inr, refl, none, some, List, [], ◌∷◌, ◌++◌,
  set, arith, update, Bool-cases, ◌==◌, if◌then◌else◌, ok, fault, ltb,
}
use trade_engine.Structs.{LobOrder}
use trade_engine.Book.{
  Book, lut_size, create_order, delete_order, update_order_quantity, create_at, delete_at, erase_at,
  glide_best_price, requeue, set_quantity,
}
use trade_engine.Book.Rows.{live, live-append}
use trade_engine.Book.Inv.{IsValid, Resting}
use trade_engine.Book.Valid.{
  IsNew, create_order_ok, create_at-IsValid, delete_order_ok, delete_at-IsValid,
}
use trade_engine.Book.Update.{update_order_quantity_ok, requeue-IsValid, set_quantity-IsValid}
use trade_engine.Book.Levels.{
  level, without, with_quantity, OnlyAt, Absent, without-Absent, with_quantity-Absent, without-set,
  with_quantity-set,
}

-- What an update of an order in row `p` from quantity `was` makes of the queue at `q`.
abbrev pub updated_level : LobOrder → ℕ → ℕ → ℕ → List LobOrder → List LobOrder
updated_level o p was q queue =
    if o.quantity == was
    then queue
    else (if ltb o.quantity was
        then with_quantity o.system_id o.quantity queue
        else (if p == q then without o.system_id queue ++ o ∷ [] else without o.system_id queue))

module _ (b : Book) (v : IsValid b) where
  pub level-create_at :
      (o : LobOrder) (p : ℕ)
      → IsNew b o p
      → (q : ℕ) → level (create_at b o p) q ≡ (if p == q then level b q ++ o ∷ [] else level b q)
  unfolding create_at
  level-create_at o p n q = ground (arith, live-append (b.book p) (o ∷ []), n.positive)

  -- `createOrder` succeeds on a new order, keeps the invariant, and puts the order at the end of
  -- the queue at its price; the other queues stay.
  pub create_order-levels :
      (o : LobOrder) (p : ℕ)
      → IsNew b o p
      → (b' : Book) × (create_order b o ≡ ok b')
        × IsValid b'
        × ((q : ℕ) → level b' q ≡ (if p == q then level b q ++ o ∷ [] else level b q))
  create_order-levels o p n = (
    create_at b o p,
    create_order_ok b v o p n,
    create_at-IsValid b v o p n,
    level-create_at o p n,
  )

  only_at : (id p c : ℕ) → b.lut id ≡ some (p, c) → OnlyAt id (b.book p) c
  only_at id p c at c' o e k s = ground (arith, v.index.indexed p c' o r.price_in e k, at)
    where
      r : Resting b.book b.max_price_possible id p c
      r = v.index.located id p c at

  absent :
      (id p c q : ℕ)
      → b.lut id ≡ some (p, c)
      → q < b.max_price_possible
      → p ≢ q
      → Absent id (b.book q)
  absent id p c q at h n c' o e k s = ground (arith, v.index.indexed q c' o h e k, at)

  module _ (id p c : ℕ) (at : b.lut id ≡ some (p, c)) where
    abbrev resting : Resting b.book b.max_price_possible id p c
    resting = v.index.located id p c at

    zeroed-level :
        (q : ℕ)
        → q < b.max_price_possible
        → live (update b.book p (set (b.book p) c (record resting.order { quantity = 0 })) q)
          ≡ without id (level b q)
    zeroed-level q h = elim (Bool-cases (p == q)) [
      | inl e ↦
          let same : p ≡ q = ground arith in
          rw (e, ← same)
            (without-set id (b.book p) c resting.order resting.here resting.same_id resting.positive
              (only_at id p c at))
      | inr e ↦ rw (e, without-Absent id (b.book q) (absent id p c q at h (ground arith)))
    ]

    resized-level :
        (n q : ℕ)
        → 0 < n
        → q < b.max_price_possible
        → live (update b.book p (set (b.book p) c (record resting.order { quantity = n })) q)
          ≡ with_quantity id n (level b q)
    resized-level n q k h = elim (Bool-cases (p == q)) [
      | inl e ↦
          let same : p ≡ q = ground arith in
          rw (e, ← same)
            (with_quantity-set id n (b.book p) c resting.order resting.here resting.same_id
              resting.positive k (only_at id p c at))
      | inr e ↦ rw (e, with_quantity-Absent id n (b.book q) (absent id p c q at h (ground arith)))
    ]

    pub delete_at-level :
        (q : ℕ)
        → q < b.max_price_possible
        → level (delete_at b id (p, c) resting.order) q ≡ without id (level b q)
    unfolding delete_at erase_at glide_best_price
    delete_at-level q h = ground (arith, zeroed-level q h)

    -- `deleteOrder` of an order in the book succeeds, keeps the invariant, frees the id, and
    -- takes the order out of its queue; the others keep their places.
    pub delete_order-levels :
        (b' : Book) × (delete_order b id ≡ ok b')
        × IsValid b'
        × (b'.lut id ≡ none)
        × ((q : ℕ) → q < b.max_price_possible → level b' q ≡ without id (level b q))
    unfolding delete_at erase_at glide_best_price
    delete_order-levels = (
      delete_at b id (p, c) resting.order,
      delete_order_ok b v id p c resting.order at resting.here,
      delete_at-IsValid b v id p c resting.order at resting.here,
      ground arith,
      delete_at-level,
    )

  requeue-level :
      (o : LobOrder) (p c : ℕ) (at : b.lut o.system_id ≡ some (p, c))
      → 0 < o.quantity
      → (q : ℕ) → q < b.max_price_possible
      → level (requeue b (p, c) (v.index.located o.system_id p c at).order o) q ≡ (
          if p == q
          then without o.system_id (level b q) ++ o ∷ []
          else without o.system_id (level b q))
  unfolding requeue
  requeue-level o p c at k q h = ground (
    arith,
    zeroed-level o.system_id p c at q h,
    live-append
        (set (b.book p) c (record (v.index.located o.system_id p c at).order { quantity = 0 }))
        (o ∷ []),
  )

  -- `UpdateOrderQuantity` with a quantity that is not zero succeeds on an order in the book and
  -- keeps the invariant. An equal quantity changes nothing, a smaller one changes the order in its
  -- place, and a larger one puts the new order at the end of the queue that it leaves.
  pub update_order_quantity-levels :
      (o : LobOrder) (p c : ℕ) (at : b.lut o.system_id ≡ some (p, c))
      → 0 < o.quantity
      → let old = (v.index.located o.system_id p c at).order in
        (b' : Book) × (update_order_quantity b o ≡ ok b')
        × IsValid b'
        × ((q : ℕ)
            → q < b.max_price_possible
            → level b' q ≡ updated_level o p old.quantity q (level b q))
  unfolding set_quantity
  update_order_quantity-levels o p c at k = elim (Bool-cases (o.quantity == old.quantity)) [
    | inl same ↦ (b, rw (ok_lem, same), v, λ q h. rw (updated_level, same))
    | inr differs ↦ elim (Bool-cases (ltb o.quantity old.quantity)) [
      | inl smaller ↦ (
        set_quantity b (p, c) old o.quantity,
        rw (ok_lem, differs, smaller),
        set_quantity-IsValid b v o.system_id p c old at here o.quantity k,
        λ q h.
            rw (updated_level, differs, smaller)
              (resized-level o.system_id p c at o.quantity q k h),
      )
      | inr larger ↦ (
        requeue b (p, c) old o,
        rw (ok_lem, differs, larger),
        requeue-IsValid b v o.system_id p c old at here o refl k,
        λ q h. rw (updated_level, differs, larger) (requeue-level o p c at k q h),
      )
    ]
  ]
    where
      open v.index.located o.system_id p c at use {order as old, here}

      ok_lem :
          update_order_quantity b o
          ≡ ok (
              if o.quantity == old.quantity
              then b
              else (if ltb o.quantity old.quantity
                  then set_quantity b (p, c) old o.quantity
                  else requeue b (p, c) old o))
      ok_lem = update_order_quantity_ok b v o p c old at here

-- On a valid book, the deletion of an id up to `lut_size` that no live order has is an access out
-- of range: the LUT has no such entry, or it has {-1, -1} there, which indexes the book.
pub delete_order-fault :
    (b : Book) (id : ℕ)
    → IsValid b
    → id ≤ lut_size
    → ((p c : ℕ) (o : LobOrder)
        → p < b.max_price_possible
        → get_elem? (b.book p) c ≡ some o
        → 0 < o.quantity
        → o.system_id ≢ id)
    → delete_order b id ≡ fault
unfolding delete_order
delete_order-fault b id v h free = elim (Option-cases (b.lut id)) [
  | inl none_at ↦ ground arith
  | inr ((p, c), at) ↦
      let r = v.index.located id p c at in
      absurd (free p c r.order r.price_in r.here r.positive r.same_id)
]
