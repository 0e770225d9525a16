-- ===== src/Thread/Tests.antt =====
-- header/Thread.h: threads for core 3, which is refused, and for no core.
use trade_engine.Prelude.{
  pos, negsuc, ◌≡◌, refl, false, not, true, List, [], ◌∷◌, ◌++◌, arith, ◌==◌,
}
use trade_engine.Thread.{
  ready, returned_thread, returned_null, start, is_pinned, Mover, the_child, the_caller, advances,
}
use trade_engine.Thread.Handshake.{Answers, advances-Answers}
use trade_engine.Thread.Returns.{advances_return}

abbrev turns : List Mover
turns = the_caller ∷ the_child ∷ the_child ∷ the_caller ∷ the_child ∷ the_caller ∷ the_caller ∷ []

refused_test : (advances false turns start).caller ≡ returned_null
refused_test = refl

-- The caller has its thread, and the thread is yet to call the function.
early_test :
    let l = advances true (the_child ∷ the_caller ∷ the_caller ∷ []) start in
    (l.caller ≡ returned_thread) × (l.child ≡ ready)
early_test = (refl, refl)

advances-Answers_example :
    let pinned = is_pinned (λ core. not (core == 3)) (pos 3) in
    let l = advances pinned turns start in Answers pinned l.caller l.child
advances-Answers_example = advances-Answers (λ core. not (core == 3)) (pos 3) turns

advances_return_example :
    (advances (is_pinned (λ core. not (core == 3)) (negsuc 0)) (turns ++ turns) start).caller
    ≡ returned_thread
advances_return_example =
    advances_return (λ core. not (core == 3)) (negsuc 0) turns turns (ground arith) (ground arith)
