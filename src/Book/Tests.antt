-- ===== src/Book/Tests.antt =====
-- header/lob_struct.h: a sell book of five price ticks with one or two orders in it.
use trade_engine.Prelude.{
  get_elem?, ◌<◌, ◌≢◌, none, some, ℕ, ◌<◌, ◌≡◌, refl, false, none, some, [], ◌∷◌, ◌++◌, arith, ◌==◌,
  if◌then◌else◌, ok, fault,
}
use trade_engine.Structs.{LobOrder}
use trade_engine.Price.{tick}
use trade_engine.Book
use trade_engine.Book.{Book, create_at, create_order, delete_order, update_order_quantity, lut_size}
use trade_engine.Book.Inv.{IsValid}
use trade_engine.Book.Valid.{IsNew, init-IsValid, create_at-IsValid}
use trade_engine.Book.Levels.{level, without}
use trade_engine.Book.Spec.{
  create_order-levels, delete_order-levels, update_order_quantity-levels, delete_order-fault,
  updated_level,
}

-- A sell order of this id and quantity at 0.3f.
abbrev pub ask : ℕ → ℕ → LobOrder
ask id quantity = record {
  arrival_cycle_count = 0;
  system_id = id;
  price = 0x3e99999a;
  quantity = quantity;
  trade_id = 1;
  order_type = b's';
  req_type = b'c';
  out_cycle_count = 0;
}

pub ask_tick : tick 0x3e99999a ≡ some 3
unfolding tick
ask_tick = refl

abbrev pub no_asks : Book
no_asks = Book.init false 5

pub ask-IsNew : IsNew no_asks (ask 7 4) 3
unfolding Book.init
ask-IsNew = record {
  fresh = refl;
  id_in = ground arith;
  priced = ask_tick;
  price_in = ground arith;
  positive = ground arith;
}

abbrev pub one_ask : Book
one_ask = create_at no_asks (ask 7 4) 3

pub one_ask-IsValid : IsValid one_ask
one_ask-IsValid =
    create_at-IsValid no_asks (init-IsValid false 5 (ground arith)) (ask 7 4) 3 ask-IsNew

one_ask_at : one_ask.lut 7 ≡ some (3, 0)
unfolding create_at Book.init
one_ask_at = refl

second-IsNew : IsNew one_ask (ask 8 2) 3
unfolding create_at Book.init
second-IsNew = record {
  fresh = refl;
  id_in = ground arith;
  priced = ask_tick;
  price_in = ground arith;
  positive = ground arith;
}

create_order-levels_example :
    (b' : Book) × (create_order one_ask (ask 8 2) ≡ ok b')
    × IsValid b'
    × ((q : ℕ) → level b' q ≡ (if 3 == q then level one_ask q ++ ask 8 2 ∷ [] else level one_ask q))
create_order-levels_example = create_order-levels one_ask one_ask-IsValid (ask 8 2) 3 second-IsNew

delete_order-levels_example :
    (b' : Book) × (delete_order one_ask 7 ≡ ok b')
    × IsValid b'
    × (b'.lut 7 ≡ none)
    × ((q : ℕ) → q < one_ask.max_price_possible → level b' q ≡ without 7 (level one_ask q))
delete_order-levels_example = delete_order-levels one_ask one_ask-IsValid 7 3 0 one_ask_at

update_order_quantity-levels_example :
    (b' : Book) × (update_order_quantity one_ask (ask 7 9) ≡ ok b')
    × IsValid b'
    × ((q : ℕ)
        → q < one_ask.max_price_possible
        → level b' q
          ≡ updated_level
              (ask 7 9)
              3
              (one_ask-IsValid.index.located 7 3 0 one_ask_at).order.quantity
              q
              (level one_ask q))
update_order_quantity-levels_example =
    update_order_quantity-levels one_ask one_ask-IsValid (ask 7 9) 3 0 one_ask_at (ground arith)

eight_free :
    (p c : ℕ) (o : LobOrder)
    → p < one_ask.max_price_possible
    → get_elem? (one_ask.book p) c ≡ some o
    → 0 < o.quantity
    → o.system_id ≢ 8
unfolding Book.init create_at
eight_free p c o h at positive same =
    let located : one_ask.lut o.system_id ≡ some (p, c) =
      one_ask-IsValid.index.indexed p c o h at positive in
    let nothing : one_ask.lut 8 ≡ none = refl in cc

delete_order-fault_example : delete_order one_ask 8 ≡ fault
delete_order-fault_example = delete_order-fault one_ask 8 one_ask-IsValid (ground arith) eight_free
