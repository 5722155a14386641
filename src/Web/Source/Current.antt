-- ===== src/Web/Source/Current.antt =====
-- web/src/hooks/useRawSource.ts: the source shown is that of the message.
use mailpeek.Prelude.{
  ℕ, ◌≡◌, refl, ap, ◌∙◌, inl, inr, true, false, Option, none, some, List, [], ◌∷◌, arith,
  Bool-cases, Text, text_eq, text_eq_sound, text_eq_iff, if-cases,
}
use mailpeek.Web.Viewer.{Request, request_at}
use mailpeek.Web.Source.{
  Reply, answered, threw, State, got, failed, Source, Event, id_changed, replied, mounted,
  current_of, change_id, state_of, settle, finish_at, finish, step, run, state_id, current,
}
-- All requests but the latest are cancelled.
use mailpeek.Web.Source.Latest.{
  HasState, IsCurrent, IsCurrentIn, change_id-IsCurrent, finish-IsCurrent,
}

-- `raw` gives the source that the server has for an id.
module _ (raw : Text → Text) where
  abbrev pub IsTruthful : Source → Event → Type 0
  IsTruthful s (replied i (answered text)) =
      (r : Request) → request_at s.requests i ≡ some r → text ≡ raw r.id
  IsTruthful s _ = Unit

  abbrev pub AllTruthful : Source → List Event → Type 0
  AllTruthful s [] = Unit
  AllTruthful s (e ∷ es) = IsTruthful s e × AllTruthful (step s e) es

  abbrev IsRight : Option State → Type 0
  IsRight (some (got id text)) = text ≡ raw id
  IsRight _ = Unit

  state_of-IsRight :
      (s : Source) (i : ℕ) (r : Request) (reply : Reply)
      → IsTruthful s (replied i reply)
      → request_at s.requests i ≡ some r
      → IsRight (some (state_of r.id reply))
  state_of-IsRight s i r (answered text) h e = h r e
  state_of-IsRight s i r (threw t) h e = tt

  settle-IsRight :
      (r : Request) (reply : Reply) (s : Source)
      → IsRight (some (state_of r.id reply))
      → IsRight s.state
      → IsRight (settle r reply s).state
  settle-IsRight r reply s new h =
      if-cases (λ (t : Source). IsRight t.state) r.is_cancelled s _ h new

  finish-IsRight :
      (i : ℕ) (reply : Reply) (s : Source)
      → IsTruthful s (replied i reply)
      → IsRight s.state
      → IsRight (finish i reply s).state
  unfolding finish
  finish-IsRight i reply s truth h =
      at (request_at s.requests i) (λ r e. state_of-IsRight s i r reply truth e)
    where
      at :
          (o : Option Request)
          → ((r : Request) → o ≡ some r → IsRight (some (state_of r.id reply)))
          → IsRight (finish_at o i reply s).state
      at none new = h
      at (some r) new =
          if-cases (λ (t : Source). IsRight t.state) r.is_settled _ _ h
            (settle-IsRight r reply _ (new r refl) h)

  step-lem :
      (s : Source) (e : Event)
      → IsTruthful s e
      → IsCurrentIn s × IsRight s.state
      → IsCurrentIn (step s e) × IsRight (step s e).state
  unfolding step change_id
  step-lem s (id_changed id) truth h = (
    change_id-IsCurrent id s h.0,
    if-cases (λ (t : Source). IsRight t.state) (text_eq id s.id) s _ h.1 h.1,
  )
  step-lem s (replied i reply) truth h =
      (finish-IsCurrent i reply s h.0, finish-IsRight i reply s truth h.1)

  run_lem :
      (s : Source) (es : List Event)
      → AllTruthful s es
      → IsCurrentIn s × IsRight s.state
      → IsCurrentIn (run s es) × IsRight (run s es).state
  run_lem s [] truth h = h
  run_lem s (e ∷ es) truth h = run_lem (step s e) es truth.1 (step-lem s e truth.0 h)

-- The latest request is for the id, not cancelled, and not answered yet.
pub IsInFlight : Text → List Request → Type 0
IsInFlight id [] = false ≡ true
IsInFlight id (r ∷ rs) = (r.id ≡ id) × (r.is_cancelled ≡ false) × (r.is_settled ≡ false)

-- What is shown for the id: nothing while the request is in flight, its source, or its error.
pub IsShown : (raw : Text → Text) (id : Text) (requests : List Request) → Option State → Type 0
IsShown raw id requests none = IsInFlight id requests
IsShown raw id requests (some (got i text)) = (i ≡ id) × (text ≡ raw id)
IsShown raw id requests (some (failed i problem)) = i ≡ id

HasState-IsInFlight :
    (id : Text) (state : Option State) (rs : List Request)
    → IsCurrent id state rs
    → (HasState id state → false ≡ true)
    → IsInFlight id rs
unfolding IsCurrent IsInFlight
HasState-IsInFlight id state [] h miss = h
HasState-IsInFlight id state (r ∷ rs) h miss = elim (Bool-cases r.is_settled) [
  | inl settled ↦ let contra = miss (h.2 settled) in cc
  | inr waits ↦ (h.0, h.1, waits)
]

current_of-IsShown :
    (raw : Text → Text) (id : Text) (state : Option State) (rs : List Request)
    → IsCurrent id state rs
    → IsRight raw state
    → IsShown raw id rs (current_of id state)
unfolding IsShown HasState
current_of-IsShown raw id none rs h right = HasState-IsInFlight id none rs h (λ e. e)
current_of-IsShown raw id (some state) rs h right =
    elim (Bool-cases (text_eq (state_id state) id)) [
      | inl hit ↦ rw hit (found state (text_eq_sound (state_id state) id hit) right)
      | inr miss ↦ rw miss (
          HasState-IsInFlight id (some state) rs h
            (λ e. ground (arith, miss, e, text_eq_iff (state_id state) id)))
    ]
  where
    found :
        (state : State)
        → state_id state ≡ id
        → IsRight raw (some state)
        → IsShown raw id rs (some state)
    found (got i text) e right = (e, right ∙ ap raw e)
    found (failed i problem) e right = e

-- On a server that answers each request with the source of its message, after any changes of the
-- message and any replies, in any order: the source or the error that is shown is that of the message;
-- and while neither is, the latest request is for that message, not cancelled, and not answered yet.
pub run-IsShown :
    (raw : Text → Text) (id : Text) (es : List Event)
    → AllTruthful raw (mounted id) es
    → let s = run (mounted id) es in IsShown raw s.id s.requests (current s)
unfolding IsCurrent
run-IsShown raw id es truth =
    let s = run (mounted id) es in
    let h = run_lem raw (mounted id) es truth ((refl, refl, (λ e. cc), tt), tt) in
    current_of-IsShown raw s.id s.state s.requests h.0 h.1
