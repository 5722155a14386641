-- ===== src/Web/Search/Settled.antt =====
-- web/src/hooks/useSearchQuery.ts: the search follows what is typed.
use mailpeek.Prelude.{
  get_or, ◌≡◌, refl, sym, subst, ◌∙◌, ◌⊎◌, inl, inr, Option, none, some, List, [], ◌∷◌, Bool-cases,
  Text, text_eq, text_eq_sound, trim,
}
use mailpeek.Web.Search.{
  Search, Event, typed, timer_fired, q_for, opened, type_query, set_debounced, fire_timer, step,
  run,
}

-- The `q` of the address for a search: none for an empty one, else the search.
pub IsAddressed : (search : Text) → (q : Option Text) → Type 0
IsAddressed [] q = q ≡ none
IsAddressed (c ∷ search) q = q ≡ some (c ∷ search)

q_for-IsAddressed : (search : Text) → IsAddressed search (q_for search)
unfolding IsAddressed
q_for-IsAddressed [] = refl
q_for-IsAddressed (c ∷ search) = refl

-- The timer runs for the text typed last, or has made it the search; the address has the search.
pub record IsSettling (s : Search) : Type 0 where
  pub follows : (s.timer ≡ some (trim s.query)) ⊎ ((s.timer ≡ none) × (s.search ≡ trim s.query))
  pub addressed : IsAddressed s.search s.q

type_query-IsSettling : (text : Text) (s : Search) → IsSettling s → IsSettling (type_query text s)
unfolding type_query
type_query-IsSettling text s h = elim (Bool-cases (text_eq (trim text) (trim s.query))) [
  | inl e ↦ rw e (record {
    follows =
        subst (λ t. (s.timer ≡ some t) ⊎ ((s.timer ≡ none) × (s.search ≡ t)))
          (sym (text_eq_sound (trim text) (trim s.query) e)) h.follows;
    addressed = h.addressed;
  })
  | inr e ↦ rw e (record { follows = inl refl; addressed = h.addressed })
]

-- The value of the timer is the text typed last.
timer_value :
    (value : Text) (s : Search) → IsSettling s → s.timer ≡ some value → value ≡ trim s.query
timer_value value s h e = elim h.follows [ inl p ↦ cc | inr p ↦ cc ]

set_debounced-IsSettling :
    (timer : Option Text) (s : Search)
    → s.timer ≡ timer
    → IsSettling s
    → IsSettling (set_debounced timer s)
unfolding set_debounced
set_debounced-IsSettling none s e h = h
set_debounced-IsSettling (some value) s e h = elim (Bool-cases (text_eq value s.search)) [
  | inl same ↦ rw same (record {
    follows = inr (refl, sym (text_eq_sound value s.search same) ∙ timer_value value s h e);
    addressed = h.addressed;
  })
  | inr other ↦ rw other (record {
    follows = inr (refl, timer_value value s h e);
    addressed = q_for-IsAddressed value;
  })
]

fire_timer-IsSettling : (s : Search) → IsSettling s → IsSettling (fire_timer s)
unfolding fire_timer
fire_timer-IsSettling s h = set_debounced-IsSettling s.timer s refl h

step-IsSettling : (s : Search) (e : Event) → IsSettling s → IsSettling (step s e)
unfolding step
step-IsSettling s (typed text) h = type_query-IsSettling text s h
step-IsSettling s timer_fired h = fire_timer-IsSettling s h

run_from-IsSettling : (s : Search) (es : List Event) → IsSettling s → IsSettling (run s es)
run_from-IsSettling s [] h = h
run_from-IsSettling s (e ∷ es) h = run_from-IsSettling (step s e) es (step-IsSettling s e h)

opened-IsSettling : (q : Option Text) → IsSettling (opened q)
unfolding opened
opened-IsSettling q = record {
  follows = inl refl;
  addressed = q_for-IsAddressed (trim (get_or q []));
}

-- However the page was opened and after any typing and any expiry of the timer: the timer runs for
-- the trimmed text that was typed last, or no timer runs and that text is the search; and the `q` of
-- the address is the search, left out where the search is empty.
pub run-opened-IsSettling : (q : Option Text) (es : List Event) → IsSettling (run (opened q) es)
run-opened-IsSettling q es = run_from-IsSettling (opened q) es (opened-IsSettling q)
