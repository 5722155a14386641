-- ===== src/Web/Preview.antt =====
-- web/src/hooks/usePreview.ts and useFullscreenDialog.ts, as components/panels/HtmlPanel.tsx joins them:
-- the dialog is there unless the preview is closed. The document of the frame is in Web.Html; the focus
-- and the animation of the opening are left out.
pub mod Closing
mod Tests
use mailpeek.Prelude.{
  ℕ, Bool, true, false, not, ◌||◌, Option, none, some, List, [], ◌∷◌, ◌==◌, if◌then◌else◌,
}

pub data PreviewWidth : Type 0 where
  desktop tablet mobile : PreviewWidth

pub data FullscreenState : Type 0 where
  closed opened closing : FullscreenState

-- `is_modal`: `showModal` was called and `close` was not; `has_timer` and `heard` are the timer and the
-- handler `onfinish` of the closing animation.
pub record Preview : Type 0 where
  pub width : PreviewWidth
  pub fullscreen : FullscreenState
  pub is_modal : Bool
  pub has_timer : Bool
  pub heard : Bool

-- `close_asked` is a click of the button in the dialog or its event `cancel`, at a time when motion is
-- reduced or the rectangle of the stage, if there is one, has a width and a height.
pub data Event : Type 0 where
  width_set : PreviewWidth → Event
  open_asked : Event
  close_asked : (reduced : Bool) → (rect : Option (ℕ × ℕ)) → Event
  animation_finished timer_fired : Event

abbrev pub initial : Preview
initial = record {
  width = desktop;
  fullscreen = closed;
  is_modal = false;
  has_timer = false;
  heard = false;
}

-- Whether `clipTo` gives a clip.
abbrev pub has_clip : Option (ℕ × ℕ) → Bool
has_clip none = false
has_clip (some (width, height)) = not (width == 0 || height == 0)

abbrev pub clean_up : Preview → Preview
clean_up p = record p { has_timer = false; heard = false }

-- `onClosed`, after which the dialog goes, with the clean-ups of both effects.
unfoldable pub closed_now : Preview → Preview
closed_now p = record (clean_up p) { fullscreen = closed; is_modal = false }

-- The effect for `closing`.
abbrev pub start_closing : (reduced : Bool) → Option (ℕ × ℕ) → Preview → Preview
start_closing reduced rect p =
    if reduced || not (has_clip rect)
    then closed_now p
    else record p { has_timer = true; heard = true }

abbrev pub open_from : FullscreenState → Preview → Preview
open_from closed p = record p { fullscreen = opened; is_modal = true }
open_from opened p = p
open_from closing p = record (clean_up p) { fullscreen = opened }

-- A closed preview has no dialog to close.
abbrev pub close_from : FullscreenState → (reduced : Bool) → Option (ℕ × ℕ) → Preview → Preview
close_from closed reduced rect p = p
close_from opened reduced rect p = start_closing reduced rect (record p { fullscreen = closing })
close_from closing reduced rect p = p

unfoldable pub step : Preview → Event → Preview
step p (width_set width) = record p { width = width }
step p open_asked = open_from p.fullscreen p
step p (close_asked reduced rect) = close_from p.fullscreen reduced rect p
step p animation_finished = if p.heard then closed_now p else p
step p timer_fired = if p.has_timer then closed_now p else p

abbrev pub run : Preview → List Event → Preview
run p [] = p
run p (e ∷ es) = run (step p e) es
