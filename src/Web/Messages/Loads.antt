-- ===== src/Web/Messages/Loads.antt =====
-- web/src/hooks/useMessages.ts: in any run only the latest load counts, and what is out of date is on
-- its way.

use mailpeek.Prelude.{
  ℕ, suc, ◌≡◌, ◌≢◌, ◌⊎◌, inl, inr, true, false, none, some, List, [], ◌∷◌, arith, Text,
}
use mailpeek.Web.Messages.{
  Load, Store, Reply, Event, query_changed, refreshed, timer_fired, more_wanted, replied, initial,
  change_query, finish, step, run,
}
use mailpeek.Web.Messages.Latest.{
  HasLatest, load-HasLatest, change_query-HasLatest, refresh-HasLatest, fire_timer-HasLatest,
  load_more-HasLatest,
}
use mailpeek.Web.Messages.Ends.{finish-older, finish-cases, settle-HasLatest}

pub step-HasLatest : (s : Store) (e : Event) → HasLatest s → HasLatest (step s e)
unfolding step
step-HasLatest s (query_changed q) h = change_query-HasLatest s h q
step-HasLatest s refreshed h = refresh-HasLatest s h
step-HasLatest s timer_fired h = fire_timer-HasLatest s h
step-HasLatest s more_wanted h = load_more-HasLatest s h
step-HasLatest s (replied i r) h =
    finish-cases s HasLatest i r h h (λ active e. settle-HasLatest s h active r)

pub run-HasLatest : (s : Store) (es : List Event) → HasLatest s → HasLatest (run s es)
run-HasLatest s [] h = h
run-HasLatest s (e ∷ es) h = run-HasLatest (step s e) es (step-HasLatest s e h)

-- The hook after its first effect, and then a run of events.
abbrev pub mounted : Text → List Event → Store
mounted q es = run (step (initial q) (query_changed q)) es

pub mounted-HasLatest : (q : Text) (es : List Event) → HasLatest (mounted q es)
unfolding step change_query
mounted-HasLatest q es =
    run-HasLatest (step (initial q) (query_changed q)) es
      (load-HasLatest (record (initial q) { generation = 1 }) tt (λ g e. ground arith))

-- The latest load, and whether it is for the store's query and generation.
pub record IsCurrentLoad (s : Store) (l : Load) : Type 0 where
  pub latest : (older : List Load) × (s.loads ≡ l ∷ older)
  pub gen : l.gen ≡ s.generation
  pub query : l.query ≡ s.query
  pub not_aborted : l.is_aborted ≡ false

-- At any time after the first effect, the timer of `refresh` runs, or the latest load is not aborted,
-- has the current generation and query, and is in flight, or the list is the one of the current
-- generation, or an error is shown.
pub mounted_on_its_way :
    (q : Text) (es : List Event)
    → let s = mounted q es in
      (s.is_pending ≡ true)
      ⊎ ((l : Load) × IsCurrentLoad s l
          × ((l.is_settled ≡ false) ⊎ ((s.synced ≡ some s.generation) ⊎ (s.state.error ≢ none))))
mounted_on_its_way q es =
    let h = mounted-HasLatest q es in
    elim h.on_its_way [
      | inl pending ↦ inl pending
      | inr (now, rest) ↦ inr (
        h.latest,
        record {
          latest = (h.older, h.loads_are);
          gen = now;
          query = h.same_query now;
          not_aborted = h.not_aborted;
        },
        rest,
      )
    ]

-- At any time after the first effect, the end of a load that another load was started after leaves
-- the whole store as it is.
pub finish_older :
    (q : Text) (es : List Event) (i : ℕ) (r : Reply)
    → finish (suc i) r (mounted q es) ≡ mounted q es
finish_older q es i r = finish-older (mounted q es) i r (mounted-HasLatest q es)
