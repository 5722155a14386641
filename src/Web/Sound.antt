-- ===== src/Web/Sound.antt =====
-- web/src/lib/sound.ts, with the call of useInboxState.ts and useArrivals.ts that makes a chime. Times are
-- milliseconds; the notes of a chime are left out, and `played` holds the times of those made, the
-- latest first.
pub mod Spacing
mod Tests
use mailpeek.Prelude.{
  ℕ, ◌+◌, Bool, true, false, not, ◌&&◌, ◌||◌, Option, none, some, List, [], ◌∷◌, ltb, if◌then◌else◌,
  Text, is_empty,
}
use mailpeek.Web.Live.{MailpeekEvent, message_created}

pub data ContextState : Type 0 where
  suspended running closed : ContextState

pub record Sound : Type 0 where
  pub context : Option ContextState
  pub last_played : ℕ
  pub played : List ℕ

-- `audio_unlocked` carries the state of a new `AudioContext`, or `none` if its constructor throws;
-- `context_became` is a change that the browser makes.
pub data Event : Type 0 where
  audio_unlocked : Option ContextState → Event
  context_became : ContextState → Event
  server_event : MailpeekEvent → Option Text → (enabled : Bool) → (now : ℕ) → Event

abbrev pub silent : Sound
silent = record { context = none; last_played = 0; played = [] }

-- `ctx ??= new AudioContext()`; what `resume` does comes as an event of its own.
abbrev pub unlock_audio : Option ContextState → Sound → Sound
unlock_audio made s = record s { context = or_context s.context made }
  where
    or_context : Option ContextState → Option ContextState → Option ContextState
    or_context (some c) made = some c
    or_context none made = made

abbrev pub is_running : Option ContextState → Bool
is_running (some running) = true
is_running _ = false

unfoldable pub play_chime : (now : ℕ) → Sound → Sound
play_chime now s =
    if not (is_running s.context) || ltb now (s.last_played + 1000)
    then s
    else record s { last_played = now; played = now ∷ s.played }

abbrev pub became : ContextState → Option ContextState → Option ContextState
became c none = none
became c (some c') = some c

-- `onCreated` of the arrivals, which is `chime`.
abbrev pub is_created : MailpeekEvent → Option Text → Bool
is_created message_created (some id) = not (is_empty id)
is_created _ id = false

unfoldable pub step : Sound → Event → Sound
step s (audio_unlocked made) = unlock_audio made s
step s (context_became c) = record s { context = became c s.context }
step s (server_event type id enabled now) =
    if is_created type id && enabled then play_chime now s else s

abbrev pub run : Sound → List Event → Sound
run s [] = s
run s (e ∷ es) = run (step s e) es
