-- ===== src/Web/Live/Single.antt =====
-- web/src/lib/liveEvents.ts: one source at most is heard, and a retry waits only where none is.
use mailpeek.Prelude.{
  if-cases, ℕ, zero, suc, ◌+◌, ◌^◌, ◌≤◌, ◌≡◌, refl, sym, subst, true, false, none, some, List, [],
  ◌∷◌, ◌++◌, arith, if◌then◌else◌, All,
}
use native.Mathlib.Omega.{pow_step}
use mailpeek.Web.Live.{
  Source, Connection, Event, opened, received, errored, timer_fired, close_called, offline,
  close_latest, disconnect, connect, close, delay, schedule, give_up, heard, fire_timer, listens,
  step, run, connect_live_events, on_status,
}

abbrev pub IsShut : Source → Type 0
IsShut s = (s.has_listeners ≡ false) × (s.is_closed ≡ true)

-- Connected: the latest source is open and heard, no timer runs, and every other source is shut.
-- Waiting: every source is shut, and a timer of 1 to 15 seconds runs. Closed: every source is shut
-- and no timer runs.
pub data IsSingle : Connection → Type 0 where
  is_connected :
      {c : Connection} (s : Source) (ss : List Source)
      → c.sources ≡ s ∷ ss
      → s.has_listeners ≡ true
      → s.is_closed ≡ false
      → All IsShut ss
      → c.has_source ≡ true
      → c.retry_timer ≡ none
      → c.closed ≡ false
      → IsSingle c
  is_waiting :
      {c : Connection} (d : ℕ)
      → All IsShut c.sources
      → c.has_source ≡ false
      → c.retry_timer ≡ some d
      → 1000 ≤ d
      → d ≤ 15000
      → c.closed ≡ false
      → IsSingle c
  is_over :
      {c : Connection}
      → All IsShut c.sources
      → c.has_source ≡ false
      → c.retry_timer ≡ none
      → c.closed ≡ true
      → IsSingle c

one_le_pow : (n : ℕ) → 1 ≤ 2 ^ n
one_le_pow zero = ground arith
one_le_pow (suc n) = omega (arith, one_le_pow n, pow_step 2 n)

delay_bounds : (n : ℕ) → (1000 ≤ delay n) × (delay n ≤ 15000)
delay_bounds n = ground (arith, one_le_pow n)

pub listens-shut : (ss : List Source) → All IsShut ss → listens ss ≡ false
listens-shut [] h = refl
listens-shut (s ∷ ss) h = h.0.0

module _ (c : Connection) where
  disconnect-source :
      c.has_source ≡ true
      → disconnect c ≡ record c { sources = close_latest c.sources; has_source = false }
  disconnect-source h = ground arith

  disconnect-none : c.has_source ≡ false → disconnect c ≡ c
  disconnect-none h = ground arith

  schedule-open :
      c.closed ≡ false
      → schedule c ≡ record c { retry_timer = some (delay c.attempt); attempt = c.attempt + 1 }
  schedule-open h = ground arith

  schedule-closed : c.closed ≡ true → schedule c ≡ c
  schedule-closed h = ground arith

  pub close-idle : c.has_source ≡ false → close c ≡ record c { closed = true; retry_timer = none }
  close-idle h = ground arith

  close_latest-IsShut :
      (s : Source) (ss : List Source)
      → c.sources ≡ s ∷ ss
      → All IsShut ss
      → All IsShut (close_latest c.sources)
  close_latest-IsShut s ss e shut = rw e ((refl, refl), shut)

  close-IsSingle : IsSingle c → IsSingle (close c)
  close-IsSingle (is_connected s ss e ears up shut source timer alive) =
      subst IsSingle (sym (disconnect-closing source))
        (is_over (close_latest-IsShut s ss e shut) refl refl refl)
    where
      disconnect-closing :
          c.has_source ≡ true
          → close c ≡ record c {
            closed = true;
            retry_timer = none;
            sources = close_latest c.sources;
            has_source = false;
          }
      disconnect-closing h = ground arith
  close-IsSingle (is_waiting d shut source timer ge le alive) =
      subst IsSingle (sym (close-idle source)) (is_over shut source refl refl)
  close-IsSingle (is_over shut source timer over) =
      subst IsSingle (sym (close-idle source)) (is_over shut source refl refl)

  pub give_up-stays :
      c.has_source ≡ true
      → c.closed ≡ false
      → give_up false c ≡ record c {
        log = c.log ++ (on_status offline ∷ []);
        sources = close_latest c.sources;
        has_source = false;
        retry_timer = some (delay c.attempt);
        attempt = c.attempt + 1;
      }
  give_up-stays source alive = ground arith

  give_up-closes :
      c.has_source ≡ true
      → give_up true c ≡ record c {
        log = c.log ++ (on_status offline ∷ []);
        closed = true;
        retry_timer = none;
        sources = close_latest c.sources;
        has_source = false;
      }
  give_up-closes source = ground arith

  heard-IsSingle :
      (e : Event)
      → (s : Source) (ss : List Source) → c.sources ≡ s ∷ ss
      → s.has_listeners ≡ true
      → s.is_closed ≡ false
      → All IsShut ss
      → c.has_source ≡ true
      → c.retry_timer ≡ none
      → c.closed ≡ false
      → IsSingle (heard e c)
  heard-IsSingle opened s ss e ears up shut source timer alive =
      is_connected s ss e ears up shut source timer alive
  heard-IsSingle (received type id) s ss e ears up shut source timer alive =
      is_connected s ss e ears up shut source timer alive
  heard-IsSingle (errored true true) s ss e ears up shut source timer alive =
      subst IsSingle (sym (give_up-closes source))
        (is_over (close_latest-IsShut s ss e shut) refl refl refl)
  heard-IsSingle (errored true false) s ss e ears up shut source timer alive =
      let bounds = delay_bounds c.attempt in
      subst IsSingle (sym (give_up-stays source alive)) (
        is_waiting (delay c.attempt) (close_latest-IsShut s ss e shut) refl refl bounds.0 bounds.1
          alive)
  heard-IsSingle (errored false closes) s ss e ears up shut source timer alive =
      is_connected s ss e ears up shut source timer alive
  heard-IsSingle timer_fired s ss e ears up shut source timer alive =
      is_connected s ss e ears up shut source timer alive
  heard-IsSingle close_called s ss e ears up shut source timer alive =
      is_connected s ss e ears up shut source timer alive

  -- An event of the browser in any of the three states.
  source_event-IsSingle :
      (e : Event) → IsSingle c → IsSingle (if listens c.sources then heard e c else c)
  source_event-IsSingle e (is_connected s ss at ears up shut source timer alive) =
      if-cases IsSingle (listens c.sources) (heard e c) c
        (heard-IsSingle e s ss at ears up shut source timer alive)
        (is_connected s ss at ears up shut source timer alive)
  source_event-IsSingle e (is_waiting d shut source timer ge le alive) =
      subst (λ b. IsSingle (if b then heard e c else c)) (sym (listens-shut c.sources shut))
        (is_waiting d shut source timer ge le alive)
  source_event-IsSingle e (is_over shut source timer over) =
      subst (λ b. IsSingle (if b then heard e c else c)) (sym (listens-shut c.sources shut))
        (is_over shut source timer over)

  pub fire_timer-idle : c.retry_timer ≡ none → fire_timer c ≡ c
  fire_timer-idle h = ground arith

  pub fire_timer-due :
      (d : ℕ) → c.retry_timer ≡ some d → fire_timer c ≡ connect (record c { retry_timer = none })
  fire_timer-due d h = ground arith

  fire_timer-IsSingle : IsSingle c → IsSingle (fire_timer c)
  fire_timer-IsSingle (is_connected s ss at ears up shut source timer alive) =
      subst IsSingle (sym (fire_timer-idle timer))
        (is_connected s ss at ears up shut source timer alive)
  fire_timer-IsSingle (is_waiting d shut source timer ge le alive) =
      subst IsSingle (sym (fire_timer-due d timer)) (
        is_connected (record { has_listeners = true; is_closed = false }) c.sources refl refl refl
          shut refl refl alive)
  fire_timer-IsSingle (is_over shut source timer over) =
      subst IsSingle (sym (fire_timer-idle timer)) (is_over shut source timer over)

pub step-IsSingle : (c : Connection) (e : Event) → IsSingle c → IsSingle (step c e)
unfolding step
step-IsSingle c opened h = source_event-IsSingle c opened h
step-IsSingle c (received type id) h = source_event-IsSingle c (received type id) h
step-IsSingle c (errored ready closes) h = source_event-IsSingle c (errored ready closes) h
step-IsSingle c timer_fired h = fire_timer-IsSingle c h
step-IsSingle c close_called h = close-IsSingle c h

run-IsSingle_from : (c : Connection) (es : List Event) → IsSingle c → IsSingle (run c es)
run-IsSingle_from c [] h = h
run-IsSingle_from c (e ∷ es) h = run-IsSingle_from (step c e) es (step-IsSingle c e h)

-- After any events, one of three holds: the latest source is open and heard, every other source is
-- closed and unheard, no timer runs and the connection is not closed; or every source is closed and
-- unheard, the timer runs with a delay of 1000 to 15000 milliseconds and the connection is not closed;
-- or every source is closed and unheard, no timer runs and the connection is closed.
pub connect-IsSingle : (es : List Event) → IsSingle (run connect_live_events es)
connect-IsSingle es = run-IsSingle_from connect_live_events es (
    is_connected (record { has_listeners = true; is_closed = false }) [] refl refl refl tt refl refl
      refl)
