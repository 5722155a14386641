-- ===== src/Web/Clipboard/Noted.antt =====
-- web/src/hooks/useCopyToClipboard.ts: the note goes again, and what it is a note of.
use mailpeek.Prelude.{◌≡◌, refl, true, not, ◌&&◌, ◌||◌, List, [], ◌∷◌, arith, if-cases}
use mailpeek.Web.Clipboard.{
  Clipboard, Write, Event, copy_ended, timer_fired, unmounted, initial, returns, write, note, step,
  run,
}

-- While the component is there, the note is shown exactly while the timer that takes it back runs.
pub IsNoted : Clipboard → Type 0
IsNoted c =
    (not c.is_mounted || (not c.copied || c.has_timer) && (not c.has_timer || c.copied)) ≡ true

note-IsNoted : (c : Clipboard) → IsNoted (note c)
unfolding IsNoted
note-IsNoted c = ground arith

write-IsNoted : (w : Write) (c : Clipboard) → IsNoted c → IsNoted (write w c)
unfolding IsNoted
write-IsNoted w c h = ground arith

timer_fired-IsNoted : (c : Clipboard) → IsNoted c → IsNoted (step c timer_fired)
unfolding IsNoted step
timer_fired-IsNoted c h = ground arith

unmounted-IsNoted : (c : Clipboard) → IsNoted (step c unmounted)
unfolding IsNoted step
unmounted-IsNoted c = refl

step-IsNoted : (c : Clipboard) (e : Event) → IsNoted c → IsNoted (step c e)
unfolding step
step-IsNoted c (copy_ended w) h =
    if-cases IsNoted (returns w) _ _ (note-IsNoted (write w c)) (write-IsNoted w c h)
step-IsNoted c timer_fired h = timer_fired-IsNoted c h
step-IsNoted c unmounted h = unmounted-IsNoted c

run_from-IsNoted : (c : Clipboard) (es : List Event) → IsNoted c → IsNoted (run c es)
run_from-IsNoted c [] h = h
run_from-IsNoted c (e ∷ es) h = run_from-IsNoted (step c e) es (step-IsNoted c e h)

-- While the component is there, after any copies and expiries of the timer the note of a copy is shown
-- exactly while the timer that takes it back runs.
run-IsNoted : (es : List Event) → IsNoted (run initial es)
unfolding IsNoted
run-IsNoted es = run_from-IsNoted initial es refl
