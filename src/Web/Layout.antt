-- ===== src/Web/Layout.antt =====
-- web/src/hooks/useSidebarWidth.ts, useResizeHandle.ts and useListboxMenu.ts. Widths and positions are
-- whole pixels; a difference below 0 is 0, which `bound` lifts to the same width.
pub mod Width
pub mod Menu
use mailpeek.Prelude.{
  ℕ, ◌+◌, ◌-◌, min, max, Bool, true, false, Option, none, some, get_or, List, [], ◌∷◌, ◌==◌,
  if◌then◌else◌, length, find_index, Text, text_eq,
}

abbrev pub sidebar_min : ℕ
sidebar_min = 240

abbrev pub sidebar_max : ℕ
sidebar_max = 640

abbrev pub sidebar_default : ℕ
sidebar_default = 360

abbrev pub bound : ℕ → ℕ
bound width = min (max width sidebar_min) sidebar_max

abbrev pub fit : (width viewport : ℕ) → ℕ
fit width viewport = min width (max sidebar_min (viewport - 420))

-- The stored width, `none` where there is none, it is no number, or storage is refused.
abbrev pub read : Option ℕ → ℕ
read none = sidebar_default
read (some n) = if n == 0 then sidebar_default else bound n

-- A drag keeps the position of the pointer and the width at its start.
pub record Sidebar : Type 0 where
  pub preferred : ℕ
  pub viewport : ℕ
  pub drag : Option (ℕ × ℕ)

abbrev pub start : (stored : Option ℕ) → (viewport : ℕ) → Sidebar
start stored viewport = record { preferred = read stored; viewport = viewport; drag = none }

-- `width` as the hook returns it.
abbrev pub width : Sidebar → ℕ
width s = fit s.preferred s.viewport

abbrev pub set_width : ℕ → Sidebar → Sidebar
set_width w s = record s { preferred = fit (bound w) s.viewport }

pub data ArrowKey : Type 0 where
  arrow_left arrow_right home_key end_key : ArrowKey

pub data Event : Type 0 where
  pointer_down : (button client_x : ℕ) → Event
  pointer_move : (client_x : ℕ) → Event
  pointer_up : Event
  double_click : Event
  key_down : ArrowKey → Event
  window_resized : (viewport : ℕ) → Event

abbrev pub key_width : ArrowKey → ℕ → ℕ
key_width arrow_left w = w - 16
key_width arrow_right w = w + 16
key_width home_key w = sidebar_min
key_width end_key w = sidebar_max

unfoldable pub step : Sidebar → Event → Sidebar
step s (pointer_down button x) = if button == 0 then record s { drag = some (x, width s) } else s
step s (pointer_move x) = elim s.drag [ none ↦ s | some (from, w) ↦ set_width (w + x - from) s ]
step s pointer_up = record s { drag = none }
step s double_click = set_width sidebar_default s
step s (key_down key) = set_width (key_width key (width s)) s
step s (window_resized v) = record s { viewport = v }

abbrev pub run : Sidebar → List Event → Sidebar
run s [] = s
run s (e ∷ es) = run (step s e) es

-- `useListboxMenu`: whether the list is shown, and the active option.
pub record Listbox : Type 0 where
  pub is_open : Bool
  pub active : ℕ

pub data MenuEvent : Type 0 where
  toggled : MenuEvent
  trigger_arrow : MenuEvent
  arrow_down arrow_up home_pressed end_pressed escape : MenuEvent
  chosen : MenuEvent
  left : MenuEvent

module _ (options : List Text) (value : Text) where
  -- `Math.max(0, options.indexOf(value))`
  abbrev pub show : Listbox → Listbox
  show m = record { is_open = true; active = get_or (find_index (text_eq value) options) 0 }

  -- The keys of the list are heard where it is shown.
  unfoldable pub menu_step : Listbox → MenuEvent → Listbox
  menu_step m toggled = if m.is_open then record m { is_open = false } else show m
  menu_step m trigger_arrow = show m
  menu_step m arrow_down = record m { active = min (m.active + 1) (length options - 1) }
  menu_step m arrow_up = record m { active = m.active - 1 }
  menu_step m home_pressed = record m { active = 0 }
  menu_step m end_pressed = record m { active = length options - 1 }
  menu_step m escape = record m { is_open = false }
  menu_step m chosen = record m { is_open = false }
  menu_step m left = record m { is_open = false }

  abbrev pub menu_run : Listbox → List MenuEvent → Listbox
  menu_run m [] = m
  menu_run m (e ∷ es) = menu_run (menu_step m e) es
