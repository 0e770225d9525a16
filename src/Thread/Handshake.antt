-- ===== src/Thread/Handshake.antt =====
-- header/Thread.h: what the flags tell the caller of `createAndStartThread`, in every order of the
-- two threads' steps.
use trade_engine.Prelude.{
  ℕ, ℤ, ◌≡◌, refl, sym, ◌∙◌, ap, Bool, true, false, ◌&&◌, ◌||◌, List, [], ◌∷◌, arith, if◌then◌else◌,
  if-cases, ap₂,
}
use trade_engine.Thread.{
  Child, entering, ready, working, finished, failing, ended, Caller, polling, leaving, joining,
  returned_thread, returned_null, Launch, start, is_pinned, child_step, has_ended, caller_step,
  Mover, the_child, the_caller, advance, advances,
}

-- The thread runs `func`, or is about to, or has.
abbrev pub is_up : Child → Bool
is_up ready = true
is_up working = true
is_up finished = true
is_up entering = false
is_up failing = false
is_up ended = false

abbrev pub is_down : Child → Bool
is_down failing = true
is_down ended = true
is_down entering = false
is_down ready = false
is_down working = false
is_down finished = false

-- What the caller's place says of the thread.
abbrev pub fits : Caller → Child → Bool
fits polling c = true
fits leaving c = is_up c || is_down c
fits joining c = is_down c
fits returned_thread c = is_up c
fits returned_null c = is_down c && has_ended c

pub record IsHandshake (pinned : Bool) (l : Launch) : Type 0 where
  pub up : l.running ≡ is_up l.child
  pub down : l.failed ≡ is_down l.child
  pub taken : (if pinned then is_down l.child else is_up l.child) ≡ false
  pub placed : fits l.caller l.child ≡ true

-- A step of the thread that has set its flag, and has not ended.
fits-later :
    (k : Caller) (c c' : Child)
    → is_up c ≡ is_up c'
    → is_down c ≡ is_down c'
    → has_ended c ≡ false
    → fits k c ≡ true
    → fits k c' ≡ true
fits-later polling c c' u d e h = refl
fits-later leaving c c' u d e h = rw (← u, ← d) h
fits-later joining c c' u d e h = rw (← d) h
fits-later returned_thread c c' u d e h = rw (← u) h
fits-later returned_null c c' u d e h = ground arith

-- Until it has set a flag, the caller polls.
fits-entering : (k : Caller) (c : Child) → fits k entering ≡ true → fits k c ≡ true
fits-entering polling c h = refl
fits-entering leaving c h = ground arith
fits-entering joining c h = ground arith
fits-entering returned_thread c h = ground arith
fits-entering returned_null c h = ground arith

steps_on :
    (pinned : Bool) (l : Launch) (c c' : Child)
    → l.child ≡ c
    → is_up c ≡ is_up c'
    → is_down c ≡ is_down c'
    → has_ended c ≡ false
    → IsHandshake pinned l
    → IsHandshake pinned (record l { child = c' })
steps_on pinned l c c' e u d n h = record {
  up = h.up ∙ ap is_up e ∙ u;
  down = h.down ∙ ap is_down e ∙ d;
  taken = rw (← u, ← d, ← e) h.taken;
  placed = fits-later l.caller c c' u d n (rw e at h.placed);
}

child_step-IsHandshake :
    (pinned : Bool) (l : Launch) (c : Child)
    → l.child ≡ c
    → IsHandshake pinned l
    → IsHandshake pinned (child_step pinned c l)
child_step-IsHandshake true l entering e h = record {
  up = refl;
  down = h.down ∙ ap is_down e;
  taken = refl;
  placed = fits-entering l.caller ready (rw e at h.placed);
}
child_step-IsHandshake false l entering e h = record {
  up = h.up ∙ ap is_up e;
  down = refl;
  taken = refl;
  placed = fits-entering l.caller failing (rw e at h.placed);
}
child_step-IsHandshake pinned l ready e h = steps_on pinned l ready working e refl refl refl h
child_step-IsHandshake pinned l working e h = steps_on pinned l working finished e refl refl refl h
child_step-IsHandshake pinned l failing e h = steps_on pinned l failing ended e refl refl refl h
child_step-IsHandshake pinned l finished e h = h
child_step-IsHandshake pinned l ended e h = h

moved_to :
    (pinned : Bool) (l : Launch) (k : Caller)
    → fits k l.child ≡ true
    → IsHandshake pinned l
    → IsHandshake pinned (record l { caller = k })
moved_to pinned l k f h = record { up = h.up; down = h.down; taken = h.taken; placed = f }

left_true : (a b : Bool) → (a || b) ≡ true → b ≡ false → a ≡ true
left_true a b h k = ground arith

both_true : (a b : Bool) → a ≡ true → b ≡ true → (a && b) ≡ true
both_true a b h k = ground arith

caller_step-IsHandshake :
    (pinned : Bool) (l : Launch) (k : Caller)
    → l.caller ≡ k
    → IsHandshake pinned l
    → IsHandshake pinned (caller_step k l)
caller_step-IsHandshake pinned l polling e h =
    if-cases (IsHandshake pinned) (l.running || l.failed) (record l { caller = leaving }) l
      (λ t. moved_to pinned l leaving (ap₂ ◌||◌ (sym h.up) (sym h.down) ∙ t) h) (λ t. h)
caller_step-IsHandshake pinned l leaving e h =
    if-cases (IsHandshake pinned) l.failed (record l { caller = joining })
      (record l { caller = returned_thread }) (λ t. moved_to pinned l joining (sym h.down ∙ t) h)
      (λ t.
        moved_to pinned l returned_thread
          (left_true (is_up l.child) (is_down l.child) (rw e at h.placed) (sym h.down ∙ t)) h)
caller_step-IsHandshake pinned l joining e h =
    if-cases (IsHandshake pinned) (has_ended l.child) (record l { caller = returned_null }) l
      (λ t.
        moved_to pinned l returned_null
          (both_true (is_down l.child) (has_ended l.child) (rw e at h.placed) t) h)
      (λ t. h)
caller_step-IsHandshake pinned l returned_thread e h = h
caller_step-IsHandshake pinned l returned_null e h = h

pub advance-IsHandshake :
    (pinned : Bool) (m : Mover) (l : Launch)
    → IsHandshake pinned l
    → IsHandshake pinned (advance pinned m l)
advance-IsHandshake pinned the_child l h = child_step-IsHandshake pinned l l.child refl h
advance-IsHandshake pinned the_caller l h = caller_step-IsHandshake pinned l l.caller refl h

pub advances-IsHandshake :
    (pinned : Bool) (ms : List Mover) (l : Launch)
    → IsHandshake pinned l
    → IsHandshake pinned (advances pinned ms l)
advances-IsHandshake pinned [] l h = h
advances-IsHandshake pinned (m ∷ ms) l h =
    advances-IsHandshake pinned ms (advance pinned m l) (advance-IsHandshake pinned m l h)

pub start-IsHandshake : (pinned : Bool) → IsHandshake pinned start
start-IsHandshake true = record { up = refl; down = refl; taken = refl; placed = refl }
start-IsHandshake false = record { up = refl; down = refl; taken = refl; placed = refl }

-- What the caller's answer says of the thread. Before it has returned, nothing.
abbrev pub Answers : Bool → Caller → Child → Type 0
Answers pinned returned_null c = (pinned ≡ false) × (c ≡ ended)
Answers pinned returned_thread c = (pinned ≡ true) × (is_up c ≡ true)
Answers pinned polling c = Unit {0}
Answers pinned leaving c = Unit {0}
Answers pinned joining c = Unit {0}

down_ended : (c : Child) → (is_down c && has_ended c) ≡ true → c ≡ ended
down_ended ended h = refl
down_ended entering h = ground arith
down_ended ready h = ground arith
down_ended working h = ground arith
down_ended finished h = ground arith
down_ended failing h = ground arith

Answers_lem :
    (pinned : Bool) (k : Caller) (c : Child)
    → (if pinned then is_down c else is_up c) ≡ false
    → fits k c ≡ true
    → Answers pinned k c
Answers_lem pinned polling c t f = tt
Answers_lem pinned leaving c t f = tt
Answers_lem pinned joining c t f = tt
Answers_lem true returned_thread c t f = (refl, f)
Answers_lem false returned_thread c t f = ground arith
Answers_lem true returned_null c t f = ground arith
Answers_lem false returned_null c t f = (refl, down_ended c f)

-- In whatever order the two threads take their steps, a null pointer from `createAndStartThread`
-- means that the core was refused and that the thread has ended without calling the function; a
-- thread means that the core was accepted (or none was asked for), and that the thread is about to
-- call the function, or has called it.
pub advances-Answers :
    (set_thread_core : ℕ → Bool) (core_id : ℤ) (ms : List Mover)
    → let pinned = is_pinned set_thread_core core_id in
      let l = advances pinned ms start in Answers pinned l.caller l.child
advances-Answers set_thread_core core_id ms =
    let pinned = is_pinned set_thread_core core_id in
    let h = advances-IsHandshake pinned ms start (start-IsHandshake pinned) in
    Answers_lem pinned (advances pinned ms start).caller (advances pinned ms start).child h.taken
      h.placed
