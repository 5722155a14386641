-- ===== src/Web/Viewer.antt =====
-- web/src/hooks/useMessage.ts: the message that is open, its cache and the requests for it. The
-- requests stand in the order of their start, the latest first, which is the one that the clean-up of
-- the effect cancels. An empty id counts as none.
pub mod Shown
use mailpeek.Prelude.{
  ℕ, zero, suc, Bool, true, false, not, ◌||◌, Option, none, some, List, [], ◌∷◌, any, if◌then◌else◌,
  Text, text_eq, is_empty,
}
use mailpeek.Web.Types.{Problem, Thrown, describe_error}

pub record Request : Type 0 where
  pub id : Text
  pub is_cancelled : Bool
  pub is_settled : Bool

-- `State`: empty, or for an id the message or the error.
pub data State (A : Type 0) : Type 0 where
  empty : State A
  got : Text → A → State A
  failed : Text → Problem → State A

pub record Viewer (A : Type 0) : Type 0 where
  pub id : Option Text
  pub cache : List (Text × A)
  pub state : State A
  pub requests : List Request

pub data Reply (A : Type 0) : Type 0 where
  answered : A → Reply A
  threw : Thrown → Reply A

pub data Event (A : Type 0) : Type 0 where
  id_changed : Option Text → Event A
  replied : (request : ℕ) → Reply A → Event A
  pruned : (keep : List Text) → Event A

pub record View (A : Type 0) : Type 0 where
  pub message : Option A
  pub error : Option Problem
  pub loading : Bool

abbrev pub cancel_latest : List Request → List Request
cancel_latest [] = []
cancel_latest (r ∷ rs) = record r { is_cancelled = true } ∷ rs

abbrev pub request_at : List Request → ℕ → Option Request
request_at [] i = none
request_at (r ∷ rs) zero = some r
request_at (r ∷ rs) (suc i) = request_at rs i

abbrev pub mark_settled : List Request → ℕ → List Request
mark_settled [] i = []
mark_settled (r ∷ rs) zero = record r { is_settled = true } ∷ rs
mark_settled (r ∷ rs) (suc i) = r ∷ mark_settled rs i

module _ {A : Type 0} where
  abbrev pub lookup : List (Text × A) → Text → Option A
  lookup [] id = none
  lookup ((k, a) ∷ cache) id = let rest = lookup cache id in if text_eq k id then some a else rest

  abbrev pub is_cached : List (Text × A) → Text → Bool
  is_cached cache id = elim (lookup cache id) [ none ↦ false | some a ↦ true ]

  -- `cache.set`: a later pair stands before an earlier one of the same key.
  abbrev pub set : List (Text × A) → Text → A → List (Text × A)
  set cache id a = (id, a) ∷ cache

  -- `pruneMessageCache`
  abbrev pub prune : List Text → List (Text × A) → List (Text × A)
  prune keep [] = []
  prune keep ((k, a) ∷ cache) =
      let rest = prune keep cache in if any (text_eq k) keep then (k, a) ∷ rest else rest

  -- The clean-up of the last effect and the effect for the new id.
  abbrev pub ask_for : Text → Viewer A → Viewer A
  ask_for id v = if is_empty id || is_cached v.cache id then v else record v {
    requests = record { id = id; is_cancelled = false; is_settled = false } ∷ v.requests;
  }

  unfoldable pub change_id : Option Text → Viewer A → Viewer A
  change_id none v = record v { id = none; requests = cancel_latest v.requests }
  change_id (some id) v =
      ask_for id (record v { id = some id; requests = cancel_latest v.requests })

  abbrev pub settle : Request → Reply A → Viewer A → Viewer A
  settle r (answered a) v = record v {
    cache = set v.cache r.id a;
    state = if r.is_cancelled then v.state else got r.id a;
  }
  settle r (threw e) v = record v {
    state = if r.is_cancelled then v.state else failed r.id (describe_error e);
  }

  unfoldable pub finish : ℕ → Reply A → Viewer A → Viewer A
  finish i reply v = elim (request_at v.requests i) [
    | none ↦ v
    | some r ↦
        if r.is_settled
        then v
        else settle r reply (record v { requests = mark_settled v.requests i })
  ]

  unfoldable pub step : Viewer A → Event A → Viewer A
  step v (id_changed id) = change_id id v
  step v (replied i reply) = finish i reply v
  step v (pruned keep) = record v { cache = prune keep v.cache }

  abbrev pub run : Viewer A → List (Event A) → Viewer A
  run v [] = v
  run v (e ∷ es) = run (step v e) es

  abbrev pub initial : Viewer A
  initial = record { id = none; cache = []; state = empty; requests = [] }

  abbrev pub current : Text → State A → View A
  current id empty = record { message = none; error = none; loading = true }
  current id (got i a) = record {
    message = if text_eq i id then some a else none;
    error = none;
    loading = true;
  }
  current id (failed i p) = record {
    message = none;
    error = if text_eq i id then some p else none;
    loading = not (text_eq i id);
  }

  abbrev pub no_view : View A
  no_view = record { message = none; error = none; loading = false }

  -- What the hook returns.
  abbrev pub view_of : Text → Viewer A → View A
  view_of id v = if is_empty id then no_view else elim (lookup v.cache id) [
    | some a ↦ record { message = some a; error = none; loading = false }
    | none ↦ current id v.state
  ]

  unfoldable pub view : Viewer A → View A
  view v = elim v.id [ none ↦ no_view | some id ↦ view_of id v ]
