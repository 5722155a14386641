-- ===== src/Web/Source/Tests.antt =====
-- A source that comes after the message is another one.
use mailpeek.Prelude.{◌≡◌, refl, none, List, [], ◌∷◌, ◌++◌, arith, Text, codes}
use mailpeek.Web.Source.{
  answered, Event, id_changed, replied, mounted, change_id, finish, step, run, current,
}
use mailpeek.Web.Source.Current.{AllTruthful, IsShown, run-IsShown}

abbrev server_raw : Text → Text
server_raw id = codes "From: " ++ id

-- The reply for the first message comes when the second one is shown.
abbrev replies : List Event
replies =
    id_changed (codes "b")
    ∷ replied 1 (answered (codes "From: a"))
    ∷ replied 0 (answered (codes "From: b"))
    ∷ []

working : Unit {0}
unfolding step change_id finish
working = tt

late_test :
    current (
      run
        (mounted (codes "a"))
        (id_changed (codes "b") ∷ (replied 1 (answered (codes "From: a")) ∷ [])))
    ≡ none
unfolding working
late_test = refl

replies-AllTruthful : AllTruthful server_raw (mounted (codes "a")) replies
unfolding working
replies-AllTruthful = (tt, ((λ r e. ground arith), ((λ r e. ground arith), tt)))

run-IsShown_example :
    let s = run (mounted (codes "a")) replies in IsShown server_raw s.id s.requests (current s)
run-IsShown_example = run-IsShown server_raw (codes "a") replies replies-AllTruthful
