-- ===== src/Web/Live/Retries.antt =====
-- web/src/lib/liveEvents.ts: the end of the connection, and the delays of its retries.
use mailpeek.Prelude.{
  ℕ, zero, suc, ◌+◌, ◌*◌, ◌^◌, min, ◌≡◌, refl, sym, ap, subst, ◌∙◌, true, false, none, some, List,
  [], ◌∷◌, ◌++◌, arith, if◌then◌else◌, All,
}
use mailpeek.Web.Live.{
  Connection, Event, opened, received, errored, timer_fired, close_called, close, delay, give_up,
  heard, fire_timer, listens, step, run, connect_live_events,
}
use mailpeek.Web.Live.Single.{
  IsShut, IsSingle, is_connected, is_waiting, is_over, step-IsSingle, connect-IsSingle,
  listens-shut, fire_timer-idle, close-idle, give_up-stays,
}

module _ (c : Connection) (shut : All IsShut c.sources) (source : c.has_source ≡ false)
    (timer : c.retry_timer ≡ none) (over : c.closed ≡ true) where
  over-source_event : (e : Event) → (if listens c.sources then heard e c else c) ≡ c
  over-source_event e = rw (listens-shut c.sources shut) refl

  step-over : (e : Event) → step c e ≡ c
  unfolding step
  step-over opened = over-source_event opened
  step-over (received type id) = over-source_event (received type id)
  step-over (errored ready closes) = over-source_event (errored ready closes)
  step-over timer_fired = fire_timer-idle c timer
  step-over close_called = close-idle c source ∙ ground (arith, timer, over)

run-closed : (c : Connection) (es : List Event) → IsSingle c → c.closed ≡ true → run c es ≡ c
run-closed c [] h over = refl
run-closed c (e ∷ es) (is_connected s ss at ears up shut source timer alive) over = cc
run-closed c (e ∷ es) (is_waiting d shut source timer ge le alive) over = cc
run-closed c (e ∷ es) (is_over shut source timer over') over =
    ap (λ c. run c es) (step-over c shut source timer over e)
    ∙ run-closed c es (is_over shut source timer over') over

close-closed : (c : Connection) → (close c).closed ≡ true
close-closed c = ground arith

-- Once `close` is called, whatever the browser and the page do later leaves the connection as it is:
-- no source is opened, no timer set, and nothing handed to `onStatus` and `onEvent`.
pub close_is_final :
    (es fs : List Event) → let c = step (run connect_live_events es) close_called in run c fs ≡ c
unfolding step
close_is_final es fs =
    let c = run connect_live_events es in
    run-closed (step c close_called) fs (step-IsSingle c close_called (connect-IsSingle es))
      (close-closed c)

-- Failures of the source, each followed by the retry.
abbrev pub failed_rounds : ℕ → List Event
failed_rounds zero = []
failed_rounds (suc n) = errored true false ∷ timer_fired ∷ failed_rounds n

abbrev IsUp : Connection → Type 0
IsUp c = (listens c.sources ≡ true) × (c.has_source ≡ true) × (c.closed ≡ false)

failure-delay : (c : Connection) → IsUp c → step c (errored true false) ≡ give_up false c
unfolding step
failure-delay c up = rw up.0 refl

round-IsUp :
    (c : Connection)
    → IsUp c
    → IsUp (step (step c (errored true false)) timer_fired)
      × ((step (step c (errored true false)) timer_fired).attempt ≡ c.attempt + 1)
unfolding step
round-IsUp c up =
    subst (λ d. IsUp (fire_timer d) × ((fire_timer d).attempt ≡ c.attempt + 1))
      (sym (failure-delay c up ∙ give_up-stays c up.1 up.2)) ((refl, refl, up.2), refl)

rounds-delay :
    (n : ℕ) (c : Connection)
    → IsUp c
    → (run c (failed_rounds n ++ (errored true false ∷ []))).retry_timer
      ≡ some (delay (c.attempt + n))
rounds-delay zero c up =
    ap (λ d. d.retry_timer) (failure-delay c up ∙ give_up-stays c up.1 up.2)
    ∙ ap (λ k. some (delay k)) (omega arith)
rounds-delay (suc n) c up =
    let next = round-IsUp c up in
    rounds-delay n (step (step c (errored true false)) timer_fired) next.0
    ∙ ap (λ k. some (delay k)) (omega (arith, next.1))

single-IsUp : (c : Connection) → IsSingle c → c.closed ≡ false → c.retry_timer ≡ none → IsUp c
single-IsUp c (is_connected s ss at ears up shut source timer alive) unclosed idle =
    (ground (arith, at, ears), source, alive)
single-IsUp c (is_waiting d shut source timer ge le alive) unclosed idle = cc
single-IsUp c (is_over shut source timer over) unclosed idle = cc

opened-IsUp : (c : Connection) → IsUp c → IsUp (step c opened) × ((step c opened).attempt ≡ 0)
unfolding step
opened-IsUp c up = rw up.0 (up, refl)

-- While the connection is up, `n` failures in a row after a successful opening, each retried, make
-- the next failure wait for 1000 · 2ⁿ milliseconds, 15 seconds at most.
pub backoff :
    (es : List Event) (n : ℕ)
    → let c = run connect_live_events es in
      c.closed ≡ false
      → c.retry_timer ≡ none
      → (run c (opened ∷ failed_rounds n ++ (errored true false ∷ []))).retry_timer
        ≡ some (min (1000 * 2 ^ n) 15000)
backoff es n alive idle =
    let c = run connect_live_events es in
    let up = single-IsUp c (connect-IsSingle es) alive idle in
    let start = opened-IsUp c up in
    rounds-delay n (step c opened) start.0 ∙ ap (λ k. some (delay k)) (omega (arith, start.1))
