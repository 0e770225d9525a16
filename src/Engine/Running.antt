-- ===== src/Engine/Running.antt =====
-- matching/matching.cpp: the engine while it runs. It is sound, and the reader of the broadcast
-- queue makes room within the engine's patience, whatever has been written before.
use trade_engine.Prelude.{ℕ, ◌<◌, ◌≡◌, refl, ◌∙◌, ap, Bool, true, some, [], ok}
use trade_engine.Structs.{LobOrder, LobAck, BroadCast, LogElement}
use trade_engine.Outbox.{Outbox, HasRoom}
use trade_engine.Price.{tick}
use trade_engine.Book.{Book}
use trade_engine.Book.Valid.{IsNew}
use trade_engine.Engine.{Engine, init, own, set_own, cycle_passed}
use trade_engine.Engine.Sound.{IsSound, init-IsSound}
use trade_engine.Engine.Create.{create_order_kept}
use trade_engine.Engine.Own.{patience-set_own, broadcast-set_own}
use trade_engine.Engine.Report.{Reported, report_change_ok}
use trade_engine.Engine.Handlers.{create_order, report_change}

abbrev pub IsDrained : Engine → Type 0
IsDrained e = (o : Outbox BroadCast) → o.room ≡ e.broadcast.room → HasRoom e.patience o

pub record IsRunning (max : ℕ) (e : Engine) : Type 0 where
  pub sound : IsSound max e
  pub drained : IsDrained e

-- The constructor's engine, once the broadcast queue is drained.
pub init-IsRunning :
    (max : ℕ) (acks : Outbox LobAck) (broadcast : Outbox BroadCast) (log : Outbox LogElement)
    (cycles : ℕ → ℕ) (patience : ℕ)
    → 0 < max
    → ((o : Outbox BroadCast) → o.room ≡ broadcast.room → HasRoom patience o)
    → IsRunning max (init max acks broadcast log cycles patience)
unfolding init
init-IsRunning max acks broadcast log cycles patience h d = record {
  sound = init-IsSound max acks broadcast log cycles patience h;
  drained = d;
}

pub IsRunning-after :
    (max : ℕ) (e e' : Engine)
    → IsRunning max e
    → IsSound max e'
    → e'.patience ≡ e.patience
    → e'.broadcast.room ≡ e.broadcast.room
    → IsRunning max e'
IsRunning-after max e e' r sound patience room = record {
  sound = sound;
  drained = λ o h. rw patience (r.drained o (h ∙ room));
}

-- Reading the cycle counter changes nothing else.
pub IsRunning-cycle : (max : ℕ) (e : Engine) → IsRunning max e → IsRunning max (cycle_passed e)
IsRunning-cycle max e r = IsRunning-after max e (cycle_passed e) r r.sound refl refl

pub create_order-IsRunning :
    (is_buy : Bool) (max p fuel : ℕ) (order : LobOrder) (e : Engine)
    → IsRunning max e
    → IsNew (own is_buy e) order p
    → (is_buy ≡ true → 0 < p)
    → max < fuel
    → (t : ℕ) × (order' : LobOrder) × (e' : Engine) × (create_order fuel is_buy order e
        ≡ ok (t, order', e'))
      × IsRunning max e'
create_order-IsRunning is_buy max p fuel order e r new above enough =
    let (t, order', e', runs, sound, patience, room) =
      create_order_kept is_buy max p fuel order e r.sound new above enough
        (r.drained e.broadcast refl) in
    (t, order', e', runs, IsRunning-after max e e' r sound patience room)

-- The report of a change that has put `b` in the place of the order's own book.
pub record Told (log_id req_type : ℕ) (is_buy : Bool) (order : LobOrder) (b : Book) (e e' : Engine)
    : Type 0 where
  pub runs : report_change log_id req_type is_buy order (set_own is_buy b e) ≡ ok e'
  pub reported : Reported req_type is_buy order (set_own is_buy b e) e'

pub report_change-Told :
    (log_id req_type : ℕ) (is_buy : Bool) (max p : ℕ) (order : LobOrder) (b : Book) (e : Engine)
    → IsRunning max e
    → tick order.price ≡ some p
    → IsSound max (set_own is_buy b e)
    → (e' : Engine) × Told log_id req_type is_buy order b e e' × IsRunning max e'
report_change-Told log_id req_type is_buy max p order b e r priced sound =
    let (e', runs, told) =
      report_change_ok log_id req_type is_buy order p (set_own is_buy b e)
        (rw (patience-set_own is_buy b e, broadcast-set_own is_buy b e)
          (r.drained e.broadcast refl))
        priced in
    (
      e',
      record { runs = runs; reported = told },
      IsRunning-after max e e' r (rw (told.same_buys, told.same_sells) sound)
          (told.same_patience ∙ patience-set_own is_buy b e)
          (told.same_room ∙ ap (λ o. o.room) (broadcast-set_own is_buy b e)),
    )

-- The constructor's engine has measured nothing.
pub init-queue_time :
    (max : ℕ) (acks : Outbox LobAck) (broadcast : Outbox BroadCast) (log : Outbox LogElement)
    (cycles : ℕ → ℕ) (patience : ℕ)
    → (init max acks broadcast log cycles patience).queue_time ≡ []
unfolding init
init-queue_time max acks broadcast log cycles patience = refl
