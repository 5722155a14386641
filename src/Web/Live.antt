-- ===== src/Web/Live.antt =====
-- web/src/lib/liveEvents.ts: the connection to the server's events, its retries and its end. The event
-- sources stand in the order of their start, the latest first; `has_source` tells whether `source`
-- names the latest or is undefined. A step is a call of the browser or of the page, with what it
-- hands to `onStatus` and `onEvent` put behind the log.
pub mod Single
pub mod Retries
use mailpeek.Prelude.{
  ℕ, ◌+◌, ◌*◌, ◌^◌, min, Bool, true, false, Option, none, some, List, [], ◌∷◌, ◌++◌, if◌then◌else◌,
  Text,
}

pub data ConnectionStatus : Type 0 where
  connecting live offline : ConnectionStatus

pub data MailpeekEvent : Type 0 where
  message_created message_deleted messages_cleared resync connected : MailpeekEvent

pub data Output : Type 0 where
  on_status : ConnectionStatus → Output
  on_event : MailpeekEvent → Option Text → Output

-- Whether the handlers of the connection are set on an event source, and whether it was closed.
pub record Source : Type 0 where
  pub has_listeners : Bool
  pub is_closed : Bool

-- `retry_timer` holds the delay of the timer that runs.
pub record Connection : Type 0 where
  pub sources : List Source
  pub has_source : Bool
  pub retry_timer : Option ℕ
  pub attempt : ℕ
  pub closed : Bool
  pub log : List Output

-- `errored` carries whether the source's `readyState` is `CLOSED`, and whether the page's `onStatus`
-- calls `close` when it hears `offline`.
pub data Event : Type 0 where
  opened : Event
  received : MailpeekEvent → Option Text → Event
  errored : (ready_closed closes : Bool) → Event
  timer_fired : Event
  close_called : Event

abbrev pub emit : List Output → Connection → Connection
emit os c = record c { log = c.log ++ os }

abbrev pub close_latest : List Source → List Source
close_latest [] = []
close_latest (s ∷ ss) = record { has_listeners = false; is_closed = true } ∷ ss

abbrev pub disconnect : Connection → Connection
disconnect c =
    if c.has_source then record c { sources = close_latest c.sources; has_source = false } else c

abbrev pub connect : Connection → Connection
connect c = record c {
  sources = record { has_listeners = true; is_closed = false } ∷ c.sources;
  has_source = true;
}

abbrev pub close : Connection → Connection
close c = disconnect (record c { closed = true; retry_timer = none })

abbrev pub delay : ℕ → ℕ
delay attempt = min (1000 * 2 ^ attempt) 15000

abbrev pub schedule : Connection → Connection
schedule c =
    if c.closed
    then c
    else record c { retry_timer = some (delay c.attempt); attempt = c.attempt + 1 }

-- `onerror` of a source that is closed.
abbrev pub give_up : (closes : Bool) → Connection → Connection
give_up closes c =
    let told = emit (on_status offline ∷ []) c in
    schedule (disconnect (if closes then close told else told))

-- Whether the handlers are set on the latest source; a removed handler is not called.
abbrev pub listens : List Source → Bool
listens [] = false
listens (s ∷ ss) = s.has_listeners

abbrev pub heard : Event → Connection → Connection
heard opened c = emit (on_status live ∷ on_event connected none ∷ []) (record c { attempt = 0 })
heard (received type id) c = emit (on_event type id ∷ []) c
heard (errored true closes) c = give_up closes c
heard (errored false closes) c = emit (on_status connecting ∷ []) c
heard _ c = c

abbrev pub fire_timer : Connection → Connection
fire_timer c = elim c.retry_timer [ none ↦ c | some d ↦ connect (record c { retry_timer = none }) ]

unfoldable pub step : Connection → Event → Connection
step c timer_fired = fire_timer c
step c close_called = close c
step c opened = if listens c.sources then heard opened c else c
step c (received type id) = if listens c.sources then heard (received type id) c else c
step c (errored ready closes) = if listens c.sources then heard (errored ready closes) c else c

abbrev pub run : Connection → List Event → Connection
run c [] = c
run c (e ∷ es) = run (step c e) es

abbrev pub connect_live_events : Connection
connect_live_events = connect (record {
  sources = [];
  has_source = false;
  retry_timer = none;
  attempt = 0;
  closed = false;
  log = [];
})
