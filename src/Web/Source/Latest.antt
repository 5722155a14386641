-- ===== src/Web/Source/Latest.antt =====
-- web/src/hooks/useRawSource.ts: the latest request is for the message.
use mailpeek.Prelude.{
  ℕ, zero, suc, ◌≡◌, refl, sym, subst, ◌∙◌, true, false, Option, none, some, List, [], ◌∷◌, All,
  Text, text_eq, if-cases,
}
use mailpeek.Web.Viewer.{Request, cancel_latest, request_at, mark_settled}
use mailpeek.Web.Source.{
  Reply, answered, threw, State, Source, change_id, state_of, settle, finish_at, finish, state_id,
}

-- All requests but the latest are cancelled.
abbrev pub AllCancelled : List Request → Type 0
AllCancelled rs = All (λ (r : Request). r.is_cancelled ≡ true) rs

unfoldable pub HasState : Text → Option State → Type 0
HasState id none = false ≡ true
HasState id (some state) = state_id state ≡ id

-- The latest request is for the id and not cancelled, and once it is settled the state is for the id.
unfoldable pub IsCurrent : (id : Text) (state : Option State) (requests : List Request) → Type 0
IsCurrent id state [] = false ≡ true
IsCurrent id state (r ∷ rs) =
    (r.id ≡ id)
    × (r.is_cancelled ≡ false)
    × (r.is_settled ≡ true → HasState id state)
    × AllCancelled rs

state_of-state_id : (id : Text) (reply : Reply) → state_id (state_of id reply) ≡ id
state_of-state_id id (answered text) = refl
state_of-state_id id (threw e) = refl

cancel_latest-AllCancelled :
    (id : Text) (state : Option State) (rs : List Request)
    → IsCurrent id state rs
    → AllCancelled (cancel_latest rs)
unfolding IsCurrent
cancel_latest-AllCancelled id state [] h = tt
cancel_latest-AllCancelled id state (r ∷ rs) h = (refl, h.3)

mark_settled-AllCancelled :
    (rs : List Request) (i : ℕ) → AllCancelled rs → AllCancelled (mark_settled rs i)
mark_settled-AllCancelled [] i h = tt
mark_settled-AllCancelled (r ∷ rs) zero h = h
mark_settled-AllCancelled (r ∷ rs) (suc i) h = (h.0, mark_settled-AllCancelled rs i h.1)

request_at-cancelled :
    (rs : List Request) (i : ℕ) (r : Request)
    → AllCancelled rs
    → request_at rs i ≡ some r
    → r.is_cancelled ≡ true
request_at-cancelled [] i r h e = cc
request_at-cancelled (q ∷ rs) zero r h e = let c = h.0 in cc
request_at-cancelled (q ∷ rs) (suc i) r h e = request_at-cancelled rs i r h.1 e

abbrev pub IsCurrentIn : Source → Type 0
IsCurrentIn s = IsCurrent s.id s.state s.requests

pub change_id-IsCurrent : (id : Text) (s : Source) → IsCurrentIn s → IsCurrentIn (change_id id s)
unfolding change_id IsCurrent
change_id-IsCurrent id s h =
    if-cases IsCurrentIn (text_eq id s.id) s _ h
      (refl, refl, (λ e. cc), cancel_latest-AllCancelled s.id s.state s.requests h)

settle_latest :
    (r : Request) (rs : List Request) (reply : Reply) (s : Source)
    → IsCurrent s.id s.state (r ∷ rs)
    → IsCurrentIn (settle r reply (record s { requests = record r { is_settled = true } ∷ rs }))
unfolding IsCurrent HasState
settle_latest r rs reply s h =
    let q = record s { requests = record r { is_settled = true } ∷ rs } in
    let e : settle r reply q ≡ record q { state = some (state_of r.id reply) } = rw (h.1) refl in
    subst IsCurrentIn (sym e) (h.0, h.1, (λ settled. state_of-state_id r.id reply ∙ h.0), h.3)

settle_older :
    (q r : Request) (rs : List Request) (i : ℕ) (reply : Reply) (s : Source)
    → q.is_cancelled ≡ true
    → IsCurrent s.id s.state (r ∷ rs)
    → IsCurrentIn (settle q reply (record s { requests = r ∷ mark_settled rs i }))
unfolding IsCurrent
settle_older q r rs i reply s c h =
    let t = record s { requests = r ∷ mark_settled rs i } in
    let e : settle q reply t ≡ t = rw c refl in
    subst IsCurrentIn (sym e) (h.0, h.1, h.2, mark_settled-AllCancelled rs i h.3)

older_cancelled :
    (id : Text) (state : Option State) (r q : Request) (rs : List Request) (i : ℕ)
    → IsCurrent id state (r ∷ rs)
    → request_at rs i ≡ some q
    → q.is_cancelled ≡ true
unfolding IsCurrent
older_cancelled id state r q rs i h e = request_at-cancelled rs i q h.3 e

finish_at-IsCurrent :
    (rs : List Request) (i : ℕ) (reply : Reply) (s : Source)
    → IsCurrent s.id s.state rs
    → IsCurrentIn (finish_at (request_at rs i) i reply (record s { requests = rs }))
finish_at-IsCurrent [] i reply s h = h
finish_at-IsCurrent (r ∷ rs) zero reply s h =
    if-cases IsCurrentIn r.is_settled _ _ h (settle_latest r rs reply s h)
finish_at-IsCurrent (r ∷ rs) (suc i) reply s h =
    at (request_at rs i) (λ q e. older_cancelled s.id s.state r q rs i h e)
  where
    at :
        (o : Option Request)
        → ((q : Request) → o ≡ some q → q.is_cancelled ≡ true)
        → IsCurrentIn (finish_at o (suc i) reply (record s { requests = r ∷ rs }))
    at none c = h
    at (some q) c =
        if-cases IsCurrentIn q.is_settled _ _ h (settle_older q r rs i reply s (c q refl) h)

pub finish-IsCurrent :
    (i : ℕ) (reply : Reply) (s : Source) → IsCurrentIn s → IsCurrentIn (finish i reply s)
unfolding finish
finish-IsCurrent i reply s h = finish_at-IsCurrent s.requests i reply s h
