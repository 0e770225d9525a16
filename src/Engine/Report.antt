-- ===== src/Engine/Report.antt =====
-- matching/matching.cpp: `changeInQuantity` and the reports around it leave the books alone.
use trade_engine.Prelude.{ℕ, ◌≡◌, refl, inl, inr, Bool, some, [], ◌∷◌, ◌++◌, Bool-cases, ◌==◌, ok}
use trade_engine.Structs.{LobOrder}
use trade_engine.Price.{tick}
use trade_engine.Outbox.{HasRoom, insist_ok}
use trade_engine.Engine.{
  Engine, ack, write_log, now_cycle, cycle_passed, change_of, change_in_quantity, side_char,
}
use trade_engine.Engine.Handlers.{ack_own, report_change}

-- Where the broadcast queue has room within the engine's patience, a report ends; it publishes
-- the change, and leaves the books as they are.
pub record Reported (req_type : ℕ) (is_buy : Bool) (order : LobOrder) (e e' : Engine) : Type 0 where
  pub same_buys : e'.buy_order_book ≡ e.buy_order_book
  pub same_sells : e'.sell_order_book ≡ e.sell_order_book
  pub same_patience : e'.patience ≡ e.patience
  pub same_room : e'.broadcast.room ≡ e.broadcast.room
  pub published :
      e'.broadcast.sent ≡ e.broadcast.sent ++ change_of order req_type (side_char is_buy) ∷ []

ack_own_ok :
    (order : LobOrder) (p req_type : ℕ) (e : Engine)
    → tick order.price ≡ some p
    → (e' : Engine) × (ack_own order req_type e ≡ ok e')
      × (e'.buy_order_book ≡ e.buy_order_book)
      × (e'.sell_order_book ≡ e.sell_order_book)
      × (e'.patience ≡ e.patience)
      × (e'.broadcast ≡ e.broadcast)
unfolding ack_own
ack_own_ok order p req_type e h = elim (Bool-cases (order.trade_id == 1)) [
  | inl t ↦ (ack order p req_type order.quantity e, rw (t, h), refl, refl, refl, refl)
  | inr t ↦ (e, rw t, refl, refl, refl, refl)
]

pub report_change_ok :
    (log_id req_type : ℕ) (is_buy : Bool) (order : LobOrder) (p : ℕ) (e : Engine)
    → HasRoom e.patience e.broadcast
    → tick order.price ≡ some p
    → (e' : Engine) × (report_change log_id req_type is_buy order e ≡ ok e')
      × Reported req_type is_buy order e e'
unfolding report_change change_in_quantity
report_change_ok log_id req_type is_buy order p e room h =
    let (o, runs, sent, room_kept) =
      insist_ok e.patience (change_of order req_type (side_char is_buy)) e.broadcast room in
    let e₁ = record (write_log log_id (now_cycle e) order (cycle_passed e)) { broadcast = o } in
    let (e', acked, b, s, t, c) = ack_own_ok order p req_type e₁ h in
    (
      e',
      rw runs acked,
      record {
        same_buys = b;
        same_sells = s;
        same_patience = t;
        same_room = rw c room_kept;
        published = rw c sent;
      },
    )
