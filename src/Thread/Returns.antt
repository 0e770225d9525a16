-- ===== src/Thread/Returns.antt =====
-- header/Thread.h: `createAndStartThread` returns.
use trade_engine.Prelude.{
  ℕ, ℤ, suc, ◌+◌, ◌≤◌, ◌≡◌, refl, ◌∙◌, ap, ap₂, Bool, true, false, ◌||◌, List, [], ◌∷◌, ◌++◌, arith,
  if◌then◌else◌, if-cases, ◌⊎◌, inl, inr,
}
use trade_engine.Thread.{
  Child, entering, ready, working, finished, failing, ended, Caller, polling, leaving, joining,
  returned_thread, returned_null, Launch, start, is_pinned, child_step, has_ended, caller_step,
  Mover, the_child, the_caller, advance, advances,
}
use trade_engine.Thread.Handshake.{
  IsHandshake, advance-IsHandshake, advances-IsHandshake, start-IsHandshake, Answers,
  advances-Answers, is_up, is_down,
}

abbrev pub child_moves : List Mover → ℕ
child_moves [] = 0
child_moves (the_child ∷ ms) = suc (child_moves ms)
child_moves (the_caller ∷ ms) = child_moves ms

abbrev pub caller_moves : List Mover → ℕ
caller_moves [] = 0
caller_moves (the_child ∷ ms) = caller_moves ms
caller_moves (the_caller ∷ ms) = suc (caller_moves ms)

-- How far the threads have come.
abbrev child_rank : Child → ℕ
child_rank entering = 0
child_rank ready = 1
child_rank failing = 1
child_rank working = 2
child_rank finished = 2
child_rank ended = 2

abbrev caller_rank : Caller → ℕ
caller_rank polling = 0
caller_rank leaving = 1
caller_rank joining = 2
caller_rank returned_thread = 3
caller_rank returned_null = 3

advances-append :
    (pinned : Bool) (ms ms' : List Mover) (l : Launch)
    → advances pinned (ms ++ ms') l ≡ advances pinned ms' (advances pinned ms l)
advances-append pinned [] ms' l = refl
advances-append pinned (m ∷ ms) ms' l = advances-append pinned ms ms' (advance pinned m l)

child_step-rank :
    (pinned : Bool) (c : Child) (l : Launch)
    → l.child ≡ c
    → (2 ≤ child_rank (child_step pinned c l).child)
      ⊎ (child_rank (child_step pinned c l).child ≡ suc (child_rank c))
child_step-rank true entering l e = inr refl
child_step-rank false entering l e = inr refl
child_step-rank pinned ready l e = inr refl
child_step-rank pinned failing l e = inr refl
child_step-rank pinned working l e = inl (omega arith)
child_step-rank pinned finished l e = inl (omega (arith, ap child_rank e))
child_step-rank pinned ended l e = inl (omega (arith, ap child_rank e))

caller_step-child : (k : Caller) (l : Launch) → (caller_step k l).child ≡ l.child
caller_step-child polling l =
    if-cases (λ x. x.child ≡ l.child) (l.running || l.failed) (record l { caller = leaving }) l
      (λ t. refl) (λ t. refl)
caller_step-child leaving l =
    if-cases (λ x. x.child ≡ l.child) l.failed (record l { caller = joining })
      (record l { caller = returned_thread }) (λ t. refl) (λ t. refl)
caller_step-child joining l =
    if-cases (λ x. x.child ≡ l.child) (has_ended l.child) (record l { caller = returned_null }) l
      (λ t. refl) (λ t. refl)
caller_step-child returned_thread l = refl
caller_step-child returned_null l = refl

-- With two steps the thread has set a flag, and has ended if it is to end at once.
advances-settled :
    (pinned : Bool) (ms : List Mover) (l : Launch)
    → 2 ≤ child_rank l.child + child_moves ms
    → 2 ≤ child_rank (advances pinned ms l).child
advances-settled pinned [] l h = omega arith
advances-settled pinned (the_child ∷ ms) l h =
    advances-settled pinned ms (child_step pinned l.child l)
      (elim (child_step-rank pinned l.child l refl) [
        | inl settled ↦ omega (arith, settled)
        | inr next ↦ omega (arith, next)
      ])
advances-settled pinned (the_caller ∷ ms) l h =
    advances-settled pinned ms (caller_step l.caller l)
      (omega (arith, h, ap child_rank (caller_step-child l.caller l)))

settled_flag : (c : Child) → 2 ≤ child_rank c → (is_up c || is_down c) ≡ true
settled_flag working h = refl
settled_flag finished h = refl
settled_flag ended h = refl
settled_flag entering h = absurd (omega arith)
settled_flag ready h = absurd (omega arith)
settled_flag failing h = absurd (omega arith)

settled_down : (c : Child) → 2 ≤ child_rank c → is_down c ≡ true → has_ended c ≡ true
settled_down ended h d = refl
settled_down working h d = ground arith
settled_down finished h d = ground arith
settled_down entering h d = absurd (omega arith)
settled_down ready h d = absurd (omega arith)
settled_down failing h d = absurd (omega arith)

opposites : (b : Bool) → b ≡ true → b ≡ false → ⊥
opposites b h k = ground arith

-- Then each step of the caller takes it further.
caller_step-rank :
    (pinned : Bool) (k : Caller) (l : Launch)
    → l.caller ≡ k
    → IsHandshake pinned l
    → 2 ≤ child_rank l.child
    → (3 ≤ caller_rank (caller_step k l).caller)
      ⊎ (caller_rank (caller_step k l).caller ≡ suc (caller_rank k))
caller_step-rank pinned polling l e h s =
    if-cases (λ x. (3 ≤ caller_rank x.caller) ⊎ (caller_rank x.caller ≡ 1)) (l.running || l.failed)
      (record l { caller = leaving }) l (λ t. inr refl)
      (λ t.
        absurd
          (opposites (l.running || l.failed) (ap₂ ◌||◌ h.up h.down ∙ settled_flag l.child s) t))
caller_step-rank pinned leaving l e h s =
    if-cases (λ x. (3 ≤ caller_rank x.caller) ⊎ (caller_rank x.caller ≡ 2)) l.failed
      (record l { caller = joining }) (record l { caller = returned_thread }) (λ t. inr refl)
      (λ t. inl (omega arith))
caller_step-rank pinned joining l e h s =
    if-cases (λ x. (3 ≤ caller_rank x.caller) ⊎ (caller_rank x.caller ≡ 3)) (has_ended l.child)
      (record l { caller = returned_null }) l (λ t. inr refl)
      (λ t. absurd (opposites (has_ended l.child) (settled_down l.child s (rw e at h.placed)) t))
caller_step-rank pinned returned_thread l e h s = inl (omega (arith, ap caller_rank e))
caller_step-rank pinned returned_null l e h s = inl (omega (arith, ap caller_rank e))

child_step-caller :
    (pinned : Bool) (c : Child) (l : Launch) → (child_step pinned c l).caller ≡ l.caller
child_step-caller true entering l = refl
child_step-caller false entering l = refl
child_step-caller pinned ready l = refl
child_step-caller pinned working l = refl
child_step-caller pinned failing l = refl
child_step-caller pinned finished l = refl
child_step-caller pinned ended l = refl

advances-returned :
    (pinned : Bool) (ms : List Mover) (l : Launch)
    → IsHandshake pinned l
    → 2 ≤ child_rank l.child
    → 3 ≤ caller_rank l.caller + caller_moves ms
    → 3 ≤ caller_rank (advances pinned ms l).caller
advances-returned pinned [] l h s r = omega arith
advances-returned pinned (the_child ∷ ms) l h s r =
    advances-returned pinned ms (child_step pinned l.child l)
      (advance-IsHandshake pinned the_child l h)
      (elim (child_step-rank pinned l.child l refl) [
        | inl settled ↦ settled
        | inr next ↦ omega (arith, next)
      ])
      (omega (arith, r, ap caller_rank (child_step-caller pinned l.child l)))
advances-returned pinned (the_caller ∷ ms) l h s r =
    advances-returned pinned ms (caller_step l.caller l) (advance-IsHandshake pinned the_caller l h)
      (omega (arith, s, ap child_rank (caller_step-child l.caller l)))
      (elim (caller_step-rank pinned l.caller l refl h s) [
        | inl done ↦ omega (arith, done)
        | inr next ↦ omega (arith, next)
      ])

which :
    (pinned : Bool) (k : Caller) (c : Child)
    → 3 ≤ caller_rank k
    → Answers pinned k c
    → k ≡ (if pinned then returned_thread else returned_null)
which pinned polling c h a = absurd (omega arith)
which pinned leaving c h a = absurd (omega arith)
which pinned joining c h a = absurd (omega arith)
which pinned returned_thread c h (a, b) = rw a refl
which pinned returned_null c h (a, b) = rw a refl

-- Once the new thread has taken two steps, three steps of the caller are enough, whatever the
-- threads do in between: `createAndStartThread` has returned, the thread if the core was accepted
-- and the null pointer if not.
pub advances_return :
    (set_thread_core : ℕ → Bool) (core_id : ℤ) (ms ms' : List Mover)
    → 2 ≤ child_moves ms
    → 3 ≤ caller_moves ms'
    → (advances (is_pinned set_thread_core core_id) (ms ++ ms') start).caller
      ≡ (if is_pinned set_thread_core core_id then returned_thread else returned_null)
advances_return set_thread_core core_id ms ms' h k =
    let pinned = is_pinned set_thread_core core_id in
    let between = advances pinned ms start in
    let returned =
      advances-returned pinned ms' between
        (advances-IsHandshake pinned ms start (start-IsHandshake pinned))
        (advances-settled pinned ms start (omega arith)) (omega arith) in
    which pinned (advances pinned (ms ++ ms') start).caller
      (advances pinned (ms ++ ms') start).child
      (omega
        (arith, returned, ap (λ l. caller_rank l.caller) (advances-append pinned ms ms' start)))
      (advances-Answers set_thread_core core_id (ms ++ ms'))
