-- ===== src/Web/Sound/Tests.antt =====
-- web/src/lib/sound.ts: runs at concrete inputs.
use mailpeek.Prelude.{◌≡◌, refl, true, false, some, List, [], ◌∷◌, codes}
use mailpeek.Web.Live.{message_created}
use mailpeek.Web.Sound.{
  Event, suspended, running, audio_unlocked, context_became, server_event, silent, play_chime, step,
  run,
}
use mailpeek.Web.Sound.Spacing.{IsSpaced, run-IsSpaced}

-- Three messages in two seconds make two chimes; one that comes before the context runs makes none.
abbrev three_mails : List Event
three_mails =
    (server_event message_created (some (codes "a")) true 3000)
    ∷ (audio_unlocked (some suspended))
    ∷ (context_became running)
    ∷ (server_event message_created (some (codes "b")) true 5000)
    ∷ (server_event message_created (some (codes "c")) true 5400)
    ∷ (server_event message_created (some (codes "d")) false 6900)
    ∷ (server_event message_created (some (codes "e")) true 7000)
    ∷ []

three_mails-played : (run silent three_mails).played ≡ 7000 ∷ 5000 ∷ []
unfolding step play_chime
three_mails-played = refl

run-IsSpaced_example : IsSpaced (run silent three_mails).last_played (run silent three_mails).played
run-IsSpaced_example = run-IsSpaced three_mails
