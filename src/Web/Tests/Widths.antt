-- ===== src/Web/Tests/Widths.antt =====
-- Runs of the page: the width of the list and a menu.
use mailpeek.Prelude.{
  true, false, ◌+◌, ◌-◌, ◌≤◌, ◌<◌, ◌≡◌, refl, ◌⊎◌, false, none, some, List, [], ◌∷◌, ◌++◌, map,
  arith, length, get_elem?, Text, codes, Memᴰ,
}
use mailpeek.Web.Layout as Layout
use mailpeek.Web.Layout.{
  Sidebar, start, width, pointer_down, pointer_move, window_resized, bound, fit, menu_run,
  menu_step, toggled, MenuEvent, trigger_arrow, arrow_down,
}
use mailpeek.Web.Layout.Width.{width-run, drag_follows}
use mailpeek.Web.Layout.Menu.{menu_run-active}

-- A drag from the position 100 in a wide window, which then becomes narrow.
abbrev wide : Sidebar
wide = start none 1280

resizing : Unit {0}
unfolding Layout.step menu_step
resizing = tt

drag_test : width (Layout.run wide (pointer_down 0 100 ∷ pointer_move 150 ∷ [])) ≡ 410
unfolding resizing
drag_test = refl

narrow_test :
    width (Layout.run wide (pointer_down 0 100 ∷ pointer_move 600 ∷ window_resized 800 ∷ [])) ≡ 380
unfolding resizing
narrow_test = refl

width-run_example :
    let s = Layout.run (start (some 900) 1280) (window_resized 700 ∷ []) in
    (240 ≤ width s) × (width s ≤ 640) × ((width s ≡ 240) ⊎ (width s + 420 ≤ s.viewport))
width-run_example = width-run (some 900) 1280 (window_resized 700 ∷ [])

drag_follows_example :
    width (Layout.run wide (pointer_down 0 100 ∷ map pointer_move ((900 ∷ []) ++ (150 ∷ []))))
    ≡ fit (bound (width wide + 150 - 100)) 1280
drag_follows_example = drag_follows wide 100 (900 ∷ []) 150

abbrev languages : List Text
languages = codes "en" ∷ codes "fr" ∷ []

menu_run-active_example :
    let m =
      menu_run languages
        (codes "fr")
        (record { is_open = false; active = 0 })
        (trigger_arrow ∷ arrow_down ∷ []) in
    (m.active < length languages)
    × ((m.is_open ≡ true) ⊎ ((menu_step languages (codes "fr") m toggled).is_open ≡ true))
    × ((menu_step languages (codes "fr") m trigger_arrow).is_open ≡ true)
    × (Memᴰ (codes "fr") languages
        → (get_elem? languages (menu_step languages (codes "fr") m trigger_arrow).active
            ≡ some (codes "fr"))
          × ((e : MenuEvent)
              → (m.is_open ≡ true)
                ⊎ ((menu_step languages (codes "fr") m e).is_open ≡ false)
                ⊎ (get_elem? languages (menu_step languages (codes "fr") m e).active
                    ≡ some (codes "fr"))))
menu_run-active_example =
    menu_run-active languages (codes "fr") (trigger_arrow ∷ arrow_down ∷ []) (omega arith)
