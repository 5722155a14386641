-- ===== src/Web/Search/Tests.antt =====
-- web/src/hooks/useSearchQuery.ts: runs at concrete inputs.
use mailpeek.Prelude.{◌≡◌, refl, some, List, [], ◌∷◌, codes, trim}
use mailpeek.Web.Search.{
  Event, typed, timer_fired, opened, type_query, fire_timer, set_debounced, step, run,
}
use mailpeek.Web.Search.Settled.{IsSettling, run-opened-IsSettling}

-- `?q=inv`, then "invoice " is typed in two goes, the timer expiring once between them and once after.
abbrev typing : List Event
typing =
    timer_fired
    ∷ (typed (codes "invo"))
    ∷ (typed (codes "invoice "))
    ∷ timer_fired
    ∷ (typed (codes "  "))
    ∷ []

typing-search : (run (opened (some (codes "inv"))) typing).search ≡ codes "invoice"
unfolding step type_query fire_timer set_debounced opened trim
typing-search = refl

typing-timer : (run (opened (some (codes "inv"))) typing).timer ≡ some []
unfolding step type_query fire_timer set_debounced opened trim
typing-timer = refl

run-opened-IsSettling_example : IsSettling (run (opened (some (codes "inv"))) typing)
run-opened-IsSettling_example = run-opened-IsSettling (some (codes "inv")) typing
