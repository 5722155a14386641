-- ===== src/Web/Selection.antt =====
-- web/src/hooks/useSelection.ts, useKeyboardShortcuts.ts and useArrivals.ts, and the parts of
-- useInboxState.ts that join them: which message is selected, which ones are unread.
pub mod Neighbour
pub mod Unread
use mailpeek.Prelude.{
  ℕ, zero, suc, ◌+◌, ◌-◌, min, Bool, true, false, not, ◌&&◌, Option, none, some, List, [], ◌∷◌,
  ◌++◌, if◌then◌else◌, length, get_elem?, find_index, any, filter, Text, text_eq, is_empty,
}
use mailpeek.Web.Types.{MessageSummary}
use mailpeek.Web.Live.{MailpeekEvent, message_created, message_deleted, messages_cleared}

abbrev pub has_id : Text → MessageSummary → Bool
has_id id m = text_eq m.id id

abbrev pub id_of : Option MessageSummary → Option Text
id_of none = none
id_of (some m) = some m.id

abbrev pub is_chosen : List MessageSummary → Option Text → Bool
is_chosen ms none = false
is_chosen ms (some id) = any (has_id id) ms

-- `selectedId`: the chosen message if it is listed, else the first.
abbrev pub selected_id : List MessageSummary → Option Text → Option Text
selected_id ms chosen = if is_chosen ms chosen then chosen else id_of (get_elem? ms 0)

-- `messages[index - 1]`
abbrev pub previous : List MessageSummary → ℕ → Option MessageSummary
previous ms zero = none
previous ms (suc i) = get_elem? ms i

-- `a ?? b`, where both may be undefined.
abbrev pub first_of : Option MessageSummary → Option MessageSummary → Option MessageSummary
first_of (some a) b = some a
first_of none b = b

-- `neighbourOf`: for a message that is not listed the index is -1, whose neighbours are the first
-- message and none.
abbrev pub neighbour_of : List MessageSummary → Text → Option Text
neighbour_of ms id = elim (find_index (has_id id) ms) [
  | none ↦ id_of (get_elem? ms 0)
  | some i ↦ id_of (first_of (get_elem? ms (i + 1)) (previous ms i))
]

-- `seen` is a set: an id stands in it once.
pub record Selection : Type 0 where
  pub chosen : Option Text
  pub seen : List Text

abbrev pub add_to : List Text → Text → List Text
add_to set id = if any (text_eq id) set then set else id ∷ set

abbrev pub see : Option Text → List Text → List Text
see none seen = seen
see (some id) seen = if is_empty id then seen else add_to seen id

abbrev pub select : Option Text → Selection → Selection
select id s = record { chosen = id; seen = see id s.seen }

abbrev pub same_id : Option Text → Option Text → Bool
same_id none none = true
same_id (some a) (some b) = text_eq a b
same_id _ _ = false

-- The update that a render makes before it is done.
abbrev pub render : List MessageSummary → (loaded : Bool) → Selection → Selection
render ms loaded s =
    if loaded && not (same_id (selected_id ms s.chosen) s.chosen)
    then select (selected_id ms s.chosen) s
    else s

-- `move`, by 1 down the list or by 1 up, and the id that it opens; an empty id counts as none. A
-- selection that is not listed is at -1, and an index off the list is moved to its nearest end.
pub data Delta : Type 0 where
  down up : Delta

abbrev pub moved : Delta → Option ℕ → ℕ
moved down none = 0
moved down (some i) = i + 1
moved up none = 0
moved up (some i) = i - 1

abbrev pub index_of : List Text → Option Text → Option ℕ
index_of ids none = none
index_of ids (some id) = if is_empty id then none else find_index (text_eq id) ids

abbrev pub non_empty : Option Text → Option Text
non_empty none = none
non_empty (some id) = if is_empty id then none else some id

abbrev pub move : List Text → Option Text → Delta → Option Text
move ids selected delta =
    non_empty (get_elem? ids (min (moved delta (index_of ids selected)) (length ids - 1)))

-- `useArrivals`: an event with no id, or an empty one, adds and removes nothing.
abbrev pub arrive : List Text → MailpeekEvent → Option Text → List Text
arrive arrived message_created (some id) = if is_empty id then arrived else arrived ++ (id ∷ [])
arrive arrived message_deleted (some id) =
    if is_empty id then arrived else filter (λ x. not (text_eq x id)) arrived
arrive arrived messages_cleared id = []
arrive arrived _ id = arrived

abbrev pub arrivals : List Text → List (MailpeekEvent × Option Text) → List Text
arrivals arrived [] = arrived
arrivals arrived ((type, id) ∷ es) = arrivals (arrive arrived type id) es

-- `unreadIds`
abbrev pub is_selected : Option Text → Text → Bool
is_selected none id = false
is_selected (some s) id = text_eq id s

abbrev pub unread_ids : List Text → List Text → Option Text → List Text
unread_ids arrived seen selected =
    filter (λ id. not (any (text_eq id) seen) && not (is_selected selected id)) arrived

-- The part of `remove` that changes the selection.
abbrev pub remove : List MessageSummary → Text → Selection → Selection
remove ms id s = select (neighbour_of ms id) s
