-- ===== src/Web/Search.antt =====
-- web/src/hooks/useSearchQuery.ts, and `useDebounced` of useMessages.ts: the text of the search, the
-- search that is made, and the `q` of the address. `timer` holds the value that the timer will set.
pub mod Settled
mod Tests
use mailpeek.Prelude.{
  Option, none, some, get_or, List, [], ◌∷◌, if◌then◌else◌, Text, text_eq, is_empty, trim,
}

pub record Search : Type 0 where
  pub query : Text
  pub search : Text
  pub timer : Option Text
  pub q : Option Text

pub data Event : Type 0 where
  typed : Text → Event
  timer_fired : Event

-- The effect for a search: an empty one takes `q` out of the address.
abbrev pub q_for : Text → Option Text
q_for search = if is_empty search then none else some search

-- The first render, and its effects.
unfoldable pub opened : (q : Option Text) → Search
opened q = record {
  query = get_or q [];
  search = trim (get_or q []);
  timer = some (trim (get_or q []));
  q = q_for (trim (get_or q []));
}

-- The effect of `useDebounced` runs if the trimmed text is another one.
unfoldable pub type_query : Text → Search → Search
type_query text s =
    if text_eq (trim text) (trim s.query)
    then record s { query = text }
    else record s { query = text; timer = some (trim text) }

-- `setDebounced(value)`; the effect for the address runs if the search is another one.
unfoldable pub set_debounced : (timer : Option Text) → Search → Search
set_debounced none s = s
set_debounced (some value) s =
    if text_eq value s.search
    then record s { timer = none }
    else record s { timer = none; search = value; q = q_for value }

unfoldable pub fire_timer : Search → Search
fire_timer s = set_debounced s.timer s

unfoldable pub step : Search → Event → Search
step s (typed text) = type_query text s
step s timer_fired = fire_timer s

abbrev pub run : Search → List Event → Search
run s [] = s
run s (e ∷ es) = run (step s e) es
