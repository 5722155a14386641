-- ===== src/Web/Source.antt =====
-- web/src/hooks/useRawSource.ts: the raw source of a message. The requests stand in the order of their
-- start, the latest first, which is the one that the clean-up of the effect cancels.
pub mod Current
pub mod Latest
mod Tests
use mailpeek.Prelude.{
  ℕ, Bool, true, false, Option, none, some, List, [], ◌∷◌, if◌then◌else◌, Text, text_eq,
}
use mailpeek.Web.Types.{Problem, Thrown, describe_error}
use mailpeek.Web.Viewer.{Request, cancel_latest, request_at, mark_settled}

pub data Reply : Type 0 where
  answered : Text → Reply
  threw : Thrown → Reply

-- `State`, for an id the text or the error.
pub data State : Type 0 where
  got : Text → Text → State
  failed : Text → Problem → State

pub record Source : Type 0 where
  pub id : Text
  pub state : Option State
  pub requests : List Request

pub data Event : Type 0 where
  id_changed : Text → Event
  replied : (request : ℕ) → Reply → Event

abbrev pub asked : Text → Request
asked id = record { id = id; is_cancelled = false; is_settled = false }

abbrev pub mounted : Text → Source
mounted id = record { id = id; state = none; requests = asked id ∷ [] }

-- The effect and the clean-up of the last one run if the id is another one.
unfoldable pub change_id : Text → Source → Source
change_id id s =
    if text_eq id s.id
    then s
    else record s { id = id; requests = asked id ∷ cancel_latest s.requests }

abbrev pub state_of : Text → Reply → State
state_of id (answered text) = got id text
state_of id (threw e) = failed id (describe_error e)

abbrev pub settle : Request → Reply → Source → Source
settle r reply s = if r.is_cancelled then s else record s { state = some (state_of r.id reply) }

abbrev pub finish_at : Option Request → ℕ → Reply → Source → Source
finish_at none i reply s = s
finish_at (some r) i reply s =
    if r.is_settled then s else settle r reply (record s { requests = mark_settled s.requests i })

unfoldable pub finish : ℕ → Reply → Source → Source
finish i reply s = finish_at (request_at s.requests i) i reply s

unfoldable pub step : Source → Event → Source
step s (id_changed id) = change_id id s
step s (replied i reply) = finish i reply s

abbrev pub run : Source → List Event → Source
run s [] = s
run s (e ∷ es) = run (step s e) es

abbrev pub state_id : State → Text
state_id (got id text) = id
state_id (failed id problem) = id

-- `current`, and what the hook returns.
abbrev pub current_of : Text → Option State → Option State
current_of id none = none
current_of id (some state) = if text_eq (state_id state) id then some state else none

abbrev pub current : Source → Option State
current s = current_of s.id s.state

abbrev pub text_of : Option State → Option Text
text_of (some (got id text)) = some text
text_of _ = none

abbrev pub error_of : Option State → Option Problem
error_of (some (failed id problem)) = some problem
error_of _ = none

abbrev pub is_loading : Option State → Bool
is_loading none = true
is_loading (some state) = false
