-- ===== src/Web/Layout/Width.antt =====
-- web/src/hooks/useSidebarWidth.ts and useResizeHandle.ts: the width stays within its bounds, and a
-- drag follows the pointer.
use mailpeek.Prelude.{
  ℕ, ◌+◌, ◌-◌, ◌≤◌, ◌≡◌, refl, ap, ◌∙◌, ◌⊎◌, Option, none, some, List, [], ◌∷◌, ◌++◌, map, arith,
}
use mailpeek.Web.Layout.{
  Sidebar, Event, pointer_down, pointer_move, pointer_up, double_click, key_down, window_resized,
  start, read, width, set_width, bound, fit, key_width, step, run, sidebar_default,
}

abbrev IsBounded : Sidebar → Type 0
IsBounded s = (240 ≤ s.preferred) × (s.preferred ≤ 640)

set_width-IsBounded : (w : ℕ) (s : Sidebar) → IsBounded (set_width w s)
set_width-IsBounded w s = ground arith

step-IsBounded : (s : Sidebar) (e : Event) → IsBounded s → IsBounded (step s e)
unfolding step
step-IsBounded s (pointer_down button x) h = ground arith
step-IsBounded s (pointer_move x) h = ground (arith)
step-IsBounded s pointer_up h = h
step-IsBounded s double_click h = set_width-IsBounded sidebar_default s
step-IsBounded s (key_down key) h = set_width-IsBounded (key_width key (width s)) s
step-IsBounded s (window_resized v) h = h

run-IsBounded : (s : Sidebar) (es : List Event) → IsBounded s → IsBounded (run s es)
run-IsBounded s [] h = h
run-IsBounded s (e ∷ es) h = run-IsBounded (step s e) es (step-IsBounded s e h)

-- From any stored width, after any events, the width is between 240 and 640 pixels, and it is 240 or
-- leaves 420 pixels of the viewport to the message.
pub width-run :
    (stored : Option ℕ) (viewport : ℕ) (es : List Event)
    → let s = run (start stored viewport) es in
      (240 ≤ width s) × (width s ≤ 640) × ((width s ≡ 240) ⊎ (width s + 420 ≤ s.viewport))
width-run stored viewport es =
    let h = run-IsBounded (start stored viewport) es (read-bounds stored) in ground arith
  where
    read-bounds : (o : Option ℕ) → (240 ≤ read o) × (read o ≤ 640)
    read-bounds none = (omega arith, omega arith)
    read-bounds (some n) = ground arith

-- In a drag that began at `from` with the width `w`, the last position of the pointer alone decides
-- the width that is preferred.
drag-moves :
    (s : Sidebar) (from w : ℕ) (xs : List ℕ) (x : ℕ)
    → s.drag ≡ some (from, w)
    → let t = run s (map pointer_move (xs ++ (x ∷ []))) in
      (t.preferred ≡ fit (bound (w + x - from)) s.viewport) × (t.viewport ≡ s.viewport)
unfolding step
drag-moves s from w [] x h = (ground (arith, h), ground (arith, h))
drag-moves s from w (y ∷ xs) x h =
    let keeps : (step s (pointer_move y)).viewport ≡ s.viewport = ground (arith, h) in
    let rest = drag-moves (step s (pointer_move y)) from w xs x (ground (arith, h)) in
    (rest.0 ∙ ap (fit (bound (w + x - from))) keeps, rest.1 ∙ keeps)

-- However the pointer moves, once it has been pressed at `from` the width is the one at that time
-- changed by the distance to the last position, within the bounds.
pub drag_follows :
    (s : Sidebar) (from : ℕ) (xs : List ℕ) (x : ℕ)
    → width (run s (pointer_down 0 from ∷ map pointer_move (xs ++ (x ∷ []))))
      ≡ fit (bound (width s + x - from)) s.viewport
unfolding step
drag_follows s from xs x =
    let (at, view) = drag-moves (step s (pointer_down 0 from)) from (width s) xs x refl in
    ground (arith, at, view)
