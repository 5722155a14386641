-- ===== src/Web/Tests/Connection.antt =====
-- Runs of the page: the connection to the events.
use mailpeek.Prelude.{◌*◌, ◌^◌, min, ◌≡◌, refl, true, false, some, List, [], ◌∷◌, ◌++◌}
use mailpeek.Web.Live as Live
use mailpeek.Web.Live.{
  MailpeekEvent, message_created, message_deleted, messages_cleared, connect_live_events,
}
use mailpeek.Web.Live.Single.{IsSingle, connect-IsSingle}
use mailpeek.Web.Live.Retries.{close_is_final, failed_rounds, backoff}

abbrev two_failures : List Live.Event
two_failures =
    Live.opened ∷ Live.errored true false ∷ Live.timer_fired ∷ Live.errored true false ∷ []

connect-IsSingle_example : IsSingle (Live.run connect_live_events two_failures)
connect-IsSingle_example = connect-IsSingle two_failures

close_is_final_example :
    let c = Live.step (Live.run connect_live_events two_failures) Live.close_called in
    Live.run c (Live.timer_fired ∷ Live.opened ∷ []) ≡ c
close_is_final_example = close_is_final two_failures (Live.timer_fired ∷ Live.opened ∷ [])

backoff_example :
    (Live.run connect_live_events
      (Live.opened ∷ failed_rounds 4 ++ (Live.errored true false ∷ []))).retry_timer
    ≡ some (min (1000 * 2 ^ 4) 15000)
backoff_example = backoff [] 4 refl refl
