-- ===== src/Web/Messages/Listing.antt =====
-- web/src/hooks/useMessages.ts against a server: `listing g q` is the whole list for a query `q` at
-- the generation `g` of the hook, and `after l c` what stands behind the cursor `c` in a list.
use mailpeek.Prelude.{
  ℕ, ◌+◌, ◌≡◌, subst, ◌∙◌, false, Option, none, some, List, [], ◌∷◌, ◌++◌, arith, length, Text,
}
use mathlib.Core.List.{append_assoc}
use mailpeek.Web.Types.{MessageSummary, MessagePage}
use mailpeek.Web.Messages.{
  State, Load, Store, Reply, page, failed, Event, query_changed, refreshed, timer_fired,
  more_wanted, replied, load, refresh, change_query, settle, show_page, load_at, step, run,
}
use mailpeek.Web.Messages.Latest.{HasLatest, fire_timer-cases, load_more-cases, behind_lem}
use mailpeek.Web.Messages.Ends.{finish-cases, settle-cases, settled}
use mailpeek.Web.Messages.Loads.{mounted, mounted-HasLatest, step-HasLatest}

abbrev pub rest_of :
    (after : List MessageSummary → Text → List MessageSummary)
    → List MessageSummary
    → Option Text
    → List MessageSummary
rest_of after l none = []
rest_of after l (some c) = after l c

module _ (listing : ℕ → Text → List MessageSummary)
    (after : List MessageSummary → Text → List MessageSummary) where
  -- A page and what stands behind its cursor are what the load asked for, and the count is right.
  abbrev pub Answers : Load → Reply → Type 0
  Answers l (page p total) =
      let whole = listing l.gen l.query in
      elim l.appended [
        | none ↦ (p.messages ++ rest_of after whole p.next_cursor ≡ whole) × (total ≡ length whole)
        | some (ms, c) ↦ p.messages ++ rest_of after whole p.next_cursor ≡ after whole c
      ]
  Answers l (failed e) = Unit

  -- A load that ends in the generation it started in has a right answer.
  abbrev pub IsTruthful : Store → Event → Type 0
  IsTruthful s (replied i r) =
      (l : Load) → load_at s.loads i ≡ some l → l.gen ≡ s.generation → Answers l r
  IsTruthful s _ = Unit

  abbrev pub AllTruthful : Store → List Event → Type 0
  AllTruthful s [] = Unit
  AllTruthful s (e ∷ es) = IsTruthful s e × AllTruthful (step s e) es

  -- The messages shown and what stands behind the cursor are the server's list, and the total is its
  -- length.
  abbrev pub Shows : State → List MessageSummary → Type 0
  Shows t whole =
      (t.messages ++ rest_of after whole t.next_cursor ≡ whole) × (t.total ≡ length whole)

  abbrev IsRight : Store → Type 0
  IsRight s = s.synced ≡ some s.generation → Shows s.state (listing s.generation s.query)

  append-Shows :
      (t : State) (ms : List MessageSummary) (c : Text) (p : MessagePage)
      (whole : List MessageSummary)
      → ms ≡ t.messages
      → t.next_cursor ≡ some c
      → p.messages ++ rest_of after whole p.next_cursor ≡ after whole c
      → Shows t whole
      → Shows (record t { messages = ms ++ p.messages; next_cursor = p.next_cursor }) whole
  append-Shows t ms c p whole same at answer shows =
      let behind : after whole c ≡ rest_of after whole t.next_cursor = cc in
      (
        append_assoc ms p.messages (rest_of after whole p.next_cursor)
            ∙ (cc (answer, behind, same, shows.0)),
        shows.1,
      )

  Answers-fresh :
      (l : Load) (p : MessagePage) (total : ℕ)
      → l.appended ≡ none
      → Answers l (page p total)
      → let whole = listing l.gen l.query in
        (p.messages ++ rest_of after whole p.next_cursor ≡ whole) × (total ≡ length whole)
  Answers-fresh l p total e a = rw e at a

  Answers-more :
      (l : Load) (p : MessagePage) (total : ℕ) (ms : List MessageSummary) (c : Text)
      → l.appended ≡ some (ms, c)
      → Answers l (page p total)
      → let whole = listing l.gen l.query in
        p.messages ++ rest_of after whole p.next_cursor ≡ after whole c
  Answers-more l p total ms c e a = rw e at a

  -- What the latest load asked for is the list of its generation, as long as that is the current one.
  listing-latest :
      (s : Store) (h : HasLatest s)
      → h.latest.gen ≡ s.generation
      → listing h.latest.gen h.latest.query ≡ listing s.generation s.query
  listing-latest s h now = cc (now, h.same_query now)

  settle-IsRight :
      (s : Store) (r : Reply) (h : HasLatest s) (active : h.latest.is_settled ≡ false)
      → IsRight s
      → (h.latest.gen ≡ s.generation → Answers h.latest r)
      → IsRight (settle h.latest r (settled s h active))
  settle-IsRight s (page p total) h active right answers =
      settle-cases h.latest p total (settled s h active) IsRight
        (λ e now.
          let same : h.latest.gen ≡ s.generation = ground arith in
          subst (Shows (show_page h.latest.gen p total s).state) (listing-latest s h same)
            (Answers-fresh h.latest p total e (answers same)))
        (λ ms c e now.
          append-Shows s.state ms c p (listing s.generation s.query) (h.goes_on ms c active e).0
            (h.goes_on ms c active e).1.0
            (let same : h.latest.gen ≡ s.generation =
                ground (arith, (h.goes_on ms c active e).1.1, now) in
              subst (λ whole. p.messages ++ rest_of after whole p.next_cursor ≡ after whole c)
                (listing-latest s h same) (Answers-more h.latest p total ms c e (answers same)))
            (right now))
  settle-IsRight s (failed e) h active right answers = right

  step-IsRight :
      (s : Store) (e : Event) → HasLatest s → IsTruthful s e → IsRight s → IsRight (step s e)
  unfolding step change_query refresh load
  step-IsRight s (query_changed q) h t right =
      λ e. absurd (omega (arith, behind_lem s h (s.generation + 1) e))
  step-IsRight s refreshed h t right =
      λ e. absurd (omega (arith, behind_lem s h (s.generation + 1) e))
  step-IsRight s timer_fired h t right = fire_timer-cases s IsRight right right
  step-IsRight s more_wanted h t right = load_more-cases s IsRight right right
  step-IsRight s (replied i r) h t right = finish-cases s IsRight i r h right (λ active at_0.
      settle-IsRight s r h active right (λ now. t h.latest (ground (arith, h.loads_are)) now))

  run-IsRight :
      (s : Store) (es : List Event)
      → HasLatest s
      → AllTruthful s es
      → IsRight s
      → IsRight (run s es)
  run-IsRight s [] h t right = right
  run-IsRight s (e ∷ es) h t right =
      run-IsRight (step s e) es (step-HasLatest s e h) t.1 (step-IsRight s e h t.0 right)

  -- On a server that answers truthfully the loads that end in the generation they started in, at any
  -- time when the list is the one of the current generation, the messages shown and what stands
  -- behind the cursor are the server's list for the current query, and the total is its length.
  pub mounted-Shows :
      (q : Text) (es : List Event)
      → AllTruthful (mounted q []) es
      → (mounted q es).synced ≡ some (mounted q es).generation
      → Shows (mounted q es).state (listing (mounted q es).generation (mounted q es).query)
  unfolding step change_query load
  mounted-Shows q es t =
      run-IsRight (mounted q []) es (mounted-HasLatest q []) t (λ e. ground arith)
