-- ===== src/Engine/Kept.antt =====
-- matching/matching.cpp: changes of the order's own book that bring in no live price keep the
-- engine sound. The deletion and both changes of a quantity are such.
use trade_engine.Prelude.{
  ℕ, ◌<◌, ◌≡◌, ◌≢◌, refl, ◌∙◌, ap, Bool, some, [], get_elem?, arith, Bool-cases, ◌==◌, inl, inr,
}
use trade_engine.Structs.{LobOrder}
use trade_engine.Book.{Book, set_quantity, requeue, delete_at, erase_at, glide_best_price}
use trade_engine.Book.Rows.{live_count, live_count_pos}
use trade_engine.Book.Inv.{IsValid, Resting}
use trade_engine.Engine.{Engine, own, opposite, set_own}
use trade_engine.Engine.Own.{own-set_own, opposite-set_own}
use trade_engine.Engine.Sound.{IsSound, IsSoundFor, sound_for, IsSound-from}

-- All rows but `p` are as they were, and row `p` is live only if it was.
pub record IsKept (p : ℕ) (b b' : Book) : Type 0 where
  pub same_side : b'.is_buy ≡ b.is_buy
  pub same_max : b'.max_price_possible ≡ b.max_price_possible
  pub elsewhere : (q : ℕ) → p ≢ q → b'.book q ≡ b.book q
  pub live_before : 0 < live_count (b'.book p) → 0 < live_count (b.book p)

pub kept-IsSound :
    (is_buy : Bool) (max p c : ℕ) (o : LobOrder) (b' : Book) (e : Engine)
    → IsSound max e
    → get_elem? ((own is_buy e).book p) c ≡ some o
    → IsValid b'
    → IsKept p (own is_buy e) b'
    → IsSound max (set_own is_buy b' e)
kept-IsSound is_buy max p c o b' e sound here valid k =
    IsSound-from is_buy max (set_own is_buy b' e) (
      rw (own-set_own is_buy b' e, opposite-set_own is_buy b' e)
        (record {
          valid = valid;
          side = k.same_side ∙ s.side;
          own_max = k.same_max ∙ s.own_max;
          opposite_max = s.opposite_max;
          own_floor = λ t.
              k.elsewhere 0 (λ z. nonempty (ap (own is_buy e).book z ∙ s.own_floor t))
              ∙ s.own_floor t;
          ready = s.ready;
          apart = λ a b h l m n. s.apart a b h l (before a m) n;
        }))
  where
    s : IsSoundFor is_buy max (own is_buy e) (opposite is_buy e)
    s = sound_for is_buy max e sound

    nonempty : (own is_buy e).book p ≢ []
    nonempty t = absurd (ground (arith, rw t at here))

    before : (a : ℕ) → 0 < live_count (b'.book a) → 0 < live_count ((own is_buy e).book a)
    before a m = elim (Bool-cases (p == a)) [
      | inl t ↦ let same : p ≡ a = ground arith in rw same at (k.live_before (rw (← same) at m))
      | inr t ↦ rw (k.elsewhere a (ground arith)) at m
    ]

module _ (b : Book) (v : IsValid b) (id p c : ℕ) (old : LobOrder) (at : b.lut id ≡ some (p, c))
    (here : get_elem? (b.book p) c ≡ some old) where
  was_live : 0 < live_count (b.book p)
  was_live = live_count_pos (b.book p) c r.order r.here r.positive
    where
      r : Resting b.book b.max_price_possible id p c
      r = v.index.located id p c at

  pub set_quantity-IsKept : (n : ℕ) → IsKept p b (set_quantity b (p, c) old n)
  unfolding set_quantity
  set_quantity-IsKept n = record {
    same_side = refl;
    same_max = refl;
    elsewhere = λ q n. ground arith;
    live_before = λ _. was_live;
  }

  pub requeue-IsKept : (o : LobOrder) → IsKept p b (requeue b (p, c) old o)
  unfolding requeue
  requeue-IsKept o = record {
    same_side = refl;
    same_max = refl;
    elsewhere = λ q n. ground arith;
    live_before = λ _. was_live;
  }

  pub delete_at-IsKept : IsKept p b (delete_at b id (p, c) old)
  unfolding delete_at erase_at glide_best_price
  delete_at-IsKept = record {
    same_side = ground arith;
    same_max = ground arith;
    elsewhere = λ q n. ground arith;
    live_before = λ _. was_live;
  }
