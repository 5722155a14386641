-- ===== src/Web/Messages.antt =====
-- web/src/hooks/useMessages.ts: the list of messages, its pages, and the loads in flight. The refs
-- of the hook are fields of a store; an event is a call of the hook, of its timer, or the end of a
-- load. The loads stand in the order of their start, the latest first, so the latest is the one that
-- `controller` aborts.
pub mod Latest
pub mod Ends
pub mod Loads
pub mod Listing
use mailpeek.Prelude.{
  ℕ, zero, suc, ◌+◌, ◌-◌, max, Bool, true, false, ◌&&◌, ◌||◌, Option, none, some, List, [], ◌∷◌,
  ◌++◌, ltb, ◌==◌, if◌then◌else◌, length, Text,
}
use mailpeek.Web.Types.{MessageSummary, MessagePage, Thrown, Problem, describe_error}

abbrev pub page_size : ℕ
page_size = 50

pub record State : Type 0 where
  pub messages : List MessageSummary
  pub total : ℕ
  pub next_cursor : Option Text
  pub loaded : Bool
  pub error : Option Problem

-- A run of `load` up to its `await`: the query, the generation and the limit it read, and the
-- messages and the cursor that it goes on from when it appends.
pub record Load : Type 0 where
  pub query : Text
  pub gen : ℕ
  pub limit : ℕ
  pub appended : Option (List MessageSummary × Text)
  pub is_aborted : Bool
  pub is_settled : Bool

-- `synced` is `none` where the ref is -1; `is_pending` tells whether the timer of `refresh` runs.
pub record Store : Type 0 where
  pub state : State
  pub wanted : ℕ
  pub generation : ℕ
  pub synced : Option ℕ
  pub is_pending : Bool
  pub query : Text
  pub loads : List Load

-- What the requests of a load end with: a page, with the count where the load asked for it, or
-- something thrown.
pub data Reply : Type 0 where
  page : MessagePage → (total : ℕ) → Reply
  failed : Thrown → Reply

pub data Event : Type 0 where
  query_changed : Text → Event
  refreshed : Event
  timer_fired : Event
  more_wanted : Event
  replied : (load : ℕ) → Reply → Event

abbrev pub initial : Text → Store
initial q = record {
  state = record { messages = []; total = 0; next_cursor = none; loaded = false; error = none };
  wanted = page_size;
  generation = 0;
  synced = none;
  is_pending = false;
  query = q;
  loads = [];
}

-- `controller.current?.abort()`
abbrev pub abort_latest : List Load → List Load
abort_latest [] = []
abort_latest (l ∷ ls) = record l { is_aborted = true } ∷ ls

abbrev pub is_synced : Store → Bool
is_synced s = elim s.synced [ none ↦ false | some g ↦ g == s.generation ]

-- The messages and the cursor that `load` goes on from, if it appends.
abbrev pub append_from : Store → Option (List MessageSummary × Text)
append_from s = elim s.state.next_cursor [
  | none ↦ none
  | some c ↦
      if is_synced s && ltb (length s.state.messages) s.wanted
      then some (s.state.messages, c)
      else none
]

abbrev pub start_load : Store → Load
start_load s = record {
  query = s.query;
  gen = s.generation;
  limit = elim (append_from s) [
    | none ↦ max s.wanted page_size
    | some m ↦ s.wanted - length s.state.messages
  ];
  appended = append_from s;
  is_aborted = false;
  is_settled = false;
}

unfoldable pub load : Store → Store
load s = record s { loads = start_load s ∷ abort_latest s.loads }

unfoldable pub refresh : Store → Store
refresh s = record s { generation = s.generation + 1; is_pending = true }

unfoldable pub fire_timer : Store → Store
fire_timer s = if s.is_pending then load (record s { is_pending = false }) else s

unfoldable pub load_more : Store → Store
load_more s = elim s.state.next_cursor [
  | none ↦ s
  | some c ↦
      if ltb (length s.state.messages) s.wanted
      then s
      else load (record s { wanted = length s.state.messages + page_size })
]

unfoldable pub change_query : Text → Store → Store
change_query q s = load (record s { query = q; wanted = page_size; generation = s.generation + 1 })

-- The two ways a page is shown: behind the messages that the load went on from, or afresh.
abbrev pub append_page : List MessageSummary → MessagePage → Store → Store
append_page messages p s = record s {
  state = record s.state { messages = messages ++ p.messages; next_cursor = p.next_cursor };
}

abbrev pub show_page : ℕ → MessagePage → (total : ℕ) → Store → Store
show_page gen p total s = record s {
  synced = some gen;
  state = record {
    messages = p.messages;
    total = total;
    next_cursor = p.next_cursor;
    loaded = true;
    error = none;
  };
}

-- The rest of `load` behind its `await`, for a load that is not aborted.
abbrev pub settle : Load → Reply → Store → Store
settle l (page p total) s = elim l.appended [
  | some (messages, cursor) ↦ append_page messages p s
  | none ↦ show_page l.gen p total s
]
settle l (failed thrown) s = record s {
  wanted = length s.state.messages;
  state = record s.state { loaded = true; error = some (describe_error thrown) };
}

abbrev pub load_at : List Load → ℕ → Option Load
load_at [] i = none
load_at (l ∷ ls) zero = some l
load_at (l ∷ ls) (suc i) = load_at ls i

abbrev pub mark_settled : List Load → ℕ → List Load
mark_settled [] i = []
mark_settled (l ∷ ls) zero = record l { is_settled = true } ∷ ls
mark_settled (l ∷ ls) (suc i) = l ∷ mark_settled ls i

-- A load ends once; an aborted one leaves everything as it is.
unfoldable pub finish : ℕ → Reply → Store → Store
finish i r s = elim (load_at s.loads i) [
  | none ↦ s
  | some l ↦
      if l.is_aborted || l.is_settled
      then s
      else settle l r (record s { loads = mark_settled s.loads i })
]

unfoldable pub step : Store → Event → Store
step s (query_changed q) = change_query q s
step s refreshed = refresh s
step s timer_fired = fire_timer s
step s more_wanted = load_more s
step s (replied i r) = finish i r s

abbrev pub run : Store → List Event → Store
run s [] = s
run s (e ∷ es) = run (step s e) es
