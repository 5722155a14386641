-- ===== src/Web/Tests/Opened.antt =====
-- Runs of the page: the message that is open.
use mailpeek.Prelude.{ℕ, ◌≡◌, refl, false, none, some, List, [], ◌∷◌, arith, length, Text, codes}
use mailpeek.Web.Viewer as Viewer
use mailpeek.Web.Viewer.{answered, initial, change_id, view}
use mailpeek.Web.Viewer.Shown.{AllTruthful as AnswersAll, view-run}

-- A message that is opened, left before its answer comes, and opened again.
abbrev opening : List (Viewer.Event ℕ)
opening =
    Viewer.id_changed (some (codes "a"))
    ∷ Viewer.id_changed (some (codes "b"))
    ∷ Viewer.replied 1 (answered 1)
    ∷ Viewer.id_changed (some (codes "a"))
    ∷ []

viewing : Unit {0}
unfolding Viewer.step change_id Viewer.finish view
viewing = tt

view_test :
    view (Viewer.run initial opening) ≡ record { message = some 1; error = none; loading = false }
unfolding viewing
view_test = refl

opening-AllTruthful : AnswersAll length initial opening
unfolding viewing
opening-AllTruthful = (tt, (tt, ((λ r at. ground arith), (tt, tt))))

opening_shows : (view (Viewer.run initial opening)).message ≡ some 1
unfolding viewing
opening_shows = refl

view-run_example :
    (id : Text) × ((Viewer.run initial opening).id ≡ some id) × (◌≡◌ {A = ℕ} 1 (length id))
view-run_example = view-run length opening 1 opening-AllTruthful opening_shows
