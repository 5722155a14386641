-- ===== src/Web/Favicon/Tests.antt =====
-- web/src/hooks/useFaviconBadge.ts: a drawing that ends when another has started.
use mailpeek.Prelude.{ℕ, ◌+◌, ◌≡◌, refl, true, List, [], ◌∷◌, Text, codes}
use mailpeek.Web.Favicon.{
  badge, Event, count_changed, ended, end_drawing, title_for, show_count, step, run, mounted,
}
use mailpeek.Web.Favicon.Latest.{IsLatest, run-IsLatest}

abbrev digit : ℕ → Text
digit n = (48 + n) ∷ []

abbrev counts : List Event
counts = count_changed 1 ∷ (count_changed 2 ∷ (ended 0 true ∷ (ended 1 true ∷ [])))

counts_test : (run digit (codes "Mail") (mounted digit (codes "Mail") 0) counts).icon ≡ badge 2
unfolding step show_count end_drawing
counts_test = refl

title_test :
    (run digit (codes "Mail") (mounted digit (codes "Mail") 0) counts).title ≡ codes "(2) Mail"
unfolding step show_count end_drawing
title_test = refl

run-IsLatest_example :
    let f = run digit (codes "Mail") (mounted digit (codes "Mail") 0) counts in
    (f.title ≡ title_for digit (codes "Mail") f.count) × IsLatest f.count f.icon f.drawings
run-IsLatest_example = run-IsLatest digit (codes "Mail") 0 counts
