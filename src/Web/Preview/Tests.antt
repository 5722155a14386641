-- ===== src/Web/Preview/Tests.antt =====
-- web/src/hooks/useFullscreenDialog.ts: runs at concrete inputs.
use mailpeek.Prelude.{none, true, ◌≡◌, refl, true, false, some, List, [], ◌∷◌, if◌then◌else◌}
use mailpeek.Web.Preview.{
  closed, closing, Event, open_asked, close_asked, animation_finished, timer_fired, initial,
  closed_now, step, run,
}
use mailpeek.Web.Preview.Closing.{is_ending, IsTidy, gone, run-IsTidy}

abbrev visit : List Event
visit = open_asked ∷ (close_asked false (some (300, 200)) ∷ [])

visit_test : (run initial visit).fullscreen ≡ closing
unfolding step
visit_test = refl

reduced_test :
    (run initial (open_asked ∷ (close_asked true (some (300, 200)) ∷ []))).fullscreen ≡ closed
unfolding step closed_now
reduced_test = refl

run-IsTidy_example :
    let p = run initial visit in
    IsTidy p
    × (step p animation_finished ≡ (if is_ending p.fullscreen then gone p else p))
    × (step p timer_fired ≡ (if is_ending p.fullscreen then gone p else p))
    × ((step (step p (close_asked true none)) timer_fired).fullscreen ≡ closed)
run-IsTidy_example = run-IsTidy visit true none
