-- ===== src/Web/Viewer/Shown.antt =====
-- web/src/hooks/useMessage.ts: what is shown is the message of the open id.
use mailpeek.Prelude.{
  ℕ, ◌≡◌, refl, sym, ◌∙◌, inl, inr, true, false, ◌||◌, none, some, List, [], ◌∷◌, arith,
  if◌then◌else◌, Bool-cases, Option-cases, any, All, Text, text_eq, text_eq_sound, text_eq_iff,
  is_empty,
}
use mailpeek.Web.Types.{describe_error}
use mailpeek.Web.Viewer.{
  Request, State, empty, got, failed, Viewer, Reply, answered, threw, Event, id_changed, replied,
  pruned, cancel_latest, request_at, mark_settled, lookup, is_cached, prune, change_id, settle,
  finish, step, run, initial, current, view_of, view,
}

pub finish-cases :
    {A : Type 0} (v : Viewer A) (i : ℕ) (reply : Reply A) (P : Viewer A → Type 0)
    → P v
    → ((r : Request)
        → request_at v.requests i ≡ some r
        → P (settle r reply (record v { requests = mark_settled v.requests i })))
    → P (finish i reply v)
unfolding finish
finish-cases v i reply P still ended =
    elim (request_at v.requests i)
        as (λ o.
          request_at v.requests i ≡ o
          → P (elim o [
            | none ↦ v
            | some r ↦
                if r.is_settled
                then v
                else settle r reply (record v { requests = mark_settled v.requests i })
          ])) [
            | none ↦ λ e. still
            | some r ↦ λ e.
                elim r.is_settled
                  as (λ b. P (
                    if b
                    then v
                    else settle r reply (record v { requests = mark_settled v.requests i }))) [
                      | true ↦ still
                      | false ↦ ended r e
                    ]
          ]
      refl

-- `answers` gives the message that the server has for an id.
module _ {A : Type 0} (answers : Text → A) where
  abbrev pub IsTruthful : Viewer A → Event A → Type 0
  IsTruthful v (replied i (answered a)) =
      (r : Request) → request_at v.requests i ≡ some r → a ≡ answers r.id
  IsTruthful v _ = Unit

  abbrev pub AllTruthful : Viewer A → List (Event A) → Type 0
  AllTruthful v [] = Unit
  AllTruthful v (e ∷ es) = IsTruthful v e × AllTruthful (step v e) es

  abbrev StateIsRight : State A → Type 0
  StateIsRight (got i a) = a ≡ answers i
  StateIsRight _ = Unit

  abbrev CacheIsRight : List (Text × A) → Type 0
  CacheIsRight cache = All (λ (e : Text × A). e.1 ≡ answers e.0) cache

  abbrev IsRight : Viewer A → Type 0
  IsRight v = CacheIsRight v.cache × StateIsRight v.state

  lookup-right :
      (cache : List (Text × A)) (id : Text) (a : A)
      → CacheIsRight cache
      → lookup cache id ≡ some a
      → a ≡ answers id
  lookup-right [] id a h e = cc
  lookup-right ((k, b) ∷ cache) id a h e = elim (Bool-cases (text_eq k id)) [
    | inl hit ↦ let same = text_eq_sound k id hit in let right = h.0 in ground (arith, same, right)
    | inr miss ↦ lookup-right cache id a h.1 (ground arith)
  ]

  prune-CacheIsRight :
      (keep : List Text) (cache : List (Text × A))
      → CacheIsRight cache
      → CacheIsRight (prune keep cache)
  prune-CacheIsRight keep [] h = tt
  prune-CacheIsRight keep ((k, a) ∷ cache) h =
      let rest = prune-CacheIsRight keep cache h.1 in
      elim (any (text_eq k) keep)
        as (λ b. CacheIsRight (if b then (k, a) ∷ prune keep cache else prune keep cache)) [
          | true ↦ (h.0, rest)
          | false ↦ rest
        ]

  settle-IsRight :
      (r : Request) (reply : Reply A) (v : Viewer A)
      → ((a : A) → reply ≡ answered a → a ≡ answers r.id)
      → IsRight v
      → IsRight (settle r reply v)
  settle-IsRight r (answered a) v t h = (
    (t a refl, h.0),
    elim r.is_cancelled as (λ b. StateIsRight (if b then v.state else got r.id a)) [
      | true ↦ h.1
      | false ↦ t a refl
    ],
  )
  settle-IsRight r (threw e) v t h = (
    h.0,
    elim r.is_cancelled
        as (λ b. StateIsRight (if b then v.state else failed r.id (describe_error e))) [
          | true ↦ h.1
          | false ↦ tt
        ],
  )

  truthful-answer :
      (v : Viewer A) (i : ℕ) (reply : Reply A) (r : Request)
      → IsTruthful v (replied i reply)
      → request_at v.requests i ≡ some r
      → (a : A) → reply ≡ answered a
      → a ≡ answers r.id
  truthful-answer v i (answered b) r t at a e = let same : b ≡ a = cc in sym same ∙ t r at
  truthful-answer v i (threw thrown) r t at a e = cc

  step-IsRight : (v : Viewer A) (e : Event A) → IsTruthful v e → IsRight v → IsRight (step v e)
  unfolding step change_id finish
  step-IsRight v (id_changed none) t h = h
  step-IsRight v (id_changed (some id)) t h =
      elim (is_empty id || is_cached v.cache id)
        as (λ b. IsRight (
          if b then record v { id = some id; requests = cancel_latest v.requests } else record v {
            id = some id;
            requests =
                record { id = id; is_cancelled = false; is_settled = false }
                ∷ cancel_latest v.requests;
          })) [ true ↦ h | false ↦ h ]
  step-IsRight v (pruned keep) t h = (prune-CacheIsRight keep v.cache h.0, h.1)
  step-IsRight v (replied i reply) t h = finish-cases v i reply IsRight h (λ r at.
      settle-IsRight r reply (record v { requests = mark_settled v.requests i })
        (truthful-answer v i reply r t at) h)

  run-IsRight :
      (v : Viewer A) (es : List (Event A)) → AllTruthful v es → IsRight v → IsRight (run v es)
  run-IsRight v [] t h = h
  run-IsRight v (e ∷ es) t h = run-IsRight (step v e) es t.1 (step-IsRight v e t.0 h)

  current-right :
      (id : Text) (s : State A) (a : A)
      → StateIsRight s
      → (current id s).message ≡ some a
      → a ≡ answers id
  current-right id empty a h e = cc
  current-right id (got i b) a h e = ground (arith, text_eq_iff i id)
  current-right id (failed i p) a h e = cc

  view_of-right :
      (id : Text) (v : Viewer A) (a : A)
      → IsRight v
      → (view_of id v).message ≡ some a
      → a ≡ answers id
  view_of-right id v a h e = elim (Bool-cases (is_empty id)) [
    | inl none_open ↦ ground arith
    | inr opened ↦ elim (Option-cases (lookup v.cache id)) [
      | inl missing ↦ current-right id v.state a h.1 (ground arith)
      | inr (b, cached) ↦ lookup-right v.cache id a h.0 (ground arith)
    ]
  ]

  -- On a server that answers each request with the message of its id, whatever message is shown after
  -- any events is the server's message of the id that is open.
  pub view-run :
      (es : List (Event A)) (a : A)
      → AllTruthful initial es
      → (view (run initial es)).message ≡ some a
      → (id : Text) × ((run initial es).id ≡ some id) × (a ≡ answers id)
  unfolding view
  view-run es a t h =
      let v = run initial es in
      elim (Option-cases v.id) [
        | inl e ↦ ground arith
        | inr (id, e) ↦
            (id, e, view_of-right id v a (run-IsRight initial es t (tt, tt)) (ground (arith, e)))
      ]
