-- ===== src/Thread.antt =====
-- header/Thread.h: `createAndStartThread`, the calling thread and the new one step by step. The two
-- flags are atomics that both threads see. The system call that pins a thread to a core is a
-- parameter: which cores it accepts.
pub mod Handshake
pub mod Returns
mod Tests
use trade_engine.Prelude.{ℕ, ℤ, pos, negsuc, Bool, true, false, ◌||◌, List, [], ◌∷◌, if◌then◌else◌}

-- Where the new thread stands: in `thread_body` before and after it has set a flag, in `func`, or
-- at its end.
pub data Child : Type 0 where
  entering ready working finished failing ended : Child

-- Where the caller stands: in the `while` loop, behind it, in `join`, or returned with the thread
-- or the null pointer.
pub data Caller : Type 0 where
  polling leaving joining returned_thread returned_null : Caller

pub record Launch : Type 0 where
  pub running : Bool
  pub failed : Bool
  pub child : Child
  pub caller : Caller

abbrev pub start : Launch
start = record { running = false; failed = false; child = entering; caller = polling }

-- `core_id >= 0 && !setThreadCore(core_id)`, negated: a negative core is no core.
abbrev pub is_pinned : (ℕ → Bool) → ℤ → Bool
is_pinned set_thread_core (pos core) = set_thread_core core
is_pinned set_thread_core (negsuc core) = true

abbrev at_child : Child → Launch → Launch
at_child c l = record l { child = c }

-- The next step of `thread_body`.
abbrev pub child_step : Bool → Child → Launch → Launch
child_step pinned entering l =
    if pinned
    then record l { running = true; child = ready }
    else record l { failed = true; child = failing }
child_step pinned ready l = at_child working l
child_step pinned working l = at_child finished l
child_step pinned failing l = at_child ended l
child_step pinned finished l = l
child_step pinned ended l = l

-- `join` returns when the thread has ended.
abbrev pub has_ended : Child → Bool
has_ended finished = true
has_ended ended = true
has_ended entering = false
has_ended ready = false
has_ended working = false
has_ended failing = false

abbrev at_caller : Caller → Launch → Launch
at_caller c l = record l { caller = c }

-- The next step of the caller.
abbrev pub caller_step : Caller → Launch → Launch
caller_step polling l = if l.running || l.failed then at_caller leaving l else l
caller_step leaving l = if l.failed then at_caller joining l else at_caller returned_thread l
caller_step joining l = if has_ended l.child then at_caller returned_null l else l
caller_step returned_thread l = l
caller_step returned_null l = l

pub data Mover : Type 0 where
  the_child the_caller : Mover

abbrev pub advance : Bool → Mover → Launch → Launch
advance pinned the_child l = child_step pinned l.child l
advance pinned the_caller l = caller_step l.caller l

-- The two threads in any order.
abbrev pub advances : Bool → List Mover → Launch → Launch
advances pinned [] l = l
advances pinned (m ∷ ms) l = advances pinned ms (advance pinned m l)
