-- ===== src/Web/Clipboard.antt =====
-- web/src/hooks/useCopyToClipboard.ts: a copy, and the note that it was made. `written` holds the texts
-- that reached the clipboard, the latest first; `has_timer` is the timer that takes the note back.
pub mod Noted
mod Tests
use mailpeek.Prelude.{Bool, true, false, not, ◌&&◌, ◌||◌, List, [], ◌∷◌, if◌then◌else◌, Text}

pub record Clipboard : Type 0 where
  pub copied : Bool
  pub has_timer : Bool
  pub is_mounted : Bool
  pub written : List Text

-- The page has a clipboard in a secure context, or else copies a text area; the browser accepts what is
-- written or not.
pub record Write : Type 0 where
  pub value : Text
  pub is_secure : Bool
  pub is_accepted : Bool

pub data Event : Type 0 where
  copy_ended : Write → Event
  timer_fired unmounted : Event

abbrev pub initial : Clipboard
initial = record { copied = false; has_timer = false; is_mounted = true; written = [] }

-- `writeClipboard`: whether it returns. What `execCommand` returns is not looked at.
abbrev pub returns : Write → Bool
returns w = not w.is_secure || w.is_accepted

abbrev pub write : Write → Clipboard → Clipboard
write w c = if w.is_accepted then record c { written = w.value ∷ c.written } else c

-- A component that is gone sets no state; its timer is set all the same.
abbrev pub note : Clipboard → Clipboard
note c = record c { copied = c.is_mounted || c.copied; has_timer = true }

unfoldable pub step : Clipboard → Event → Clipboard
step c (copy_ended w) = if returns w then note (write w c) else write w c
step c timer_fired =
    if c.has_timer then record c { copied = not c.is_mounted && c.copied; has_timer = false } else c
step c unmounted = record c { has_timer = false; is_mounted = false }

abbrev pub run : Clipboard → List Event → Clipboard
run c [] = c
run c (e ∷ es) = run (step c e) es
