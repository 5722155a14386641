-- ===== src/Web/Tests/Choice.antt =====
-- Runs of the page: the selection and the arrivals.
use mailpeek.Prelude.{
  ℕ, zero, suc, ◌-◌, ◌<◌, ◌≡◌, refl, ap, ◌∙◌, ◌↔◌, not, Option, none, some, List, [], ◌∷◌, map,
  arith, get_elem?, filter, Text, codes, Memᴰ,
}
use mailpeek.Web.Types.{MessageSummary}
use mailpeek.Web.Live.{MailpeekEvent, message_created, message_deleted, messages_cleared}
use mailpeek.Web.Selection.{
  has_id, neighbour_of, Selection, remove, selected_id, arrivals, unread_ids, move, up,
}
use mailpeek.Web.Selection.Neighbour.{HasDistinctIds, IsBeside, selected_id-neighbour_of}
use mailpeek.Web.Selection.Unread.{HasArrived, arrivals_iff}
use mailpeek.Web.Tests.{mails}

abbrev three : List MessageSummary
three = mails 3

mails-id :
    (n i : ℕ) (a : MessageSummary)
    → get_elem? (mails n) i ≡ some a
    → (i < n) × (a.id ≡ (n - i) ∷ [])
mails-id zero i a h = cc
mails-id (suc n) zero a h = (omega arith, ground arith)
mails-id (suc n) (suc i) a h =
    let (le, e) = mails-id n i a h in (omega (arith, le), e ∙ ap (λ k. k ∷ []) (omega arith))

three-HasDistinctIds : HasDistinctIds three
three-HasDistinctIds i j a b at_i at_j same =
    ground (arith, mails-id 3 i a at_i, mails-id 3 j b at_j)

abbrev nothing_seen : Selection
nothing_seen = record { chosen = some (1 ∷ []); seen = [] }

neighbour_test : neighbour_of three (1 ∷ []) ≡ some (2 ∷ [])
neighbour_test = refl

move_test : move (map (λ (m : MessageSummary). m.id) three) (some (2 ∷ [])) up ≡ some (3 ∷ [])
move_test = refl

selected_id-neighbour_of_example :
    let left = filter (λ (m : MessageSummary). not (has_id (1 ∷ []) m)) three in
    let chosen = (remove three (1 ∷ []) nothing_seen).chosen in
    IsBeside three (1 ∷ []) chosen
    × (selected_id left chosen ≡ chosen)
    × ((chosen ≡ none) → left ≡ [])
selected_id-neighbour_of_example =
    selected_id-neighbour_of three (1 ∷ []) nothing_seen three-HasDistinctIds

abbrev news : List (MailpeekEvent × Option Text)
news =
    (message_created, some (codes "a"))
    ∷ (messages_cleared, none)
    ∷ (message_created, some (codes "b"))
    ∷ (message_deleted, some (codes "a"))
    ∷ []

unread_test : unread_ids (arrivals [] news) [] none ≡ codes "b" ∷ []
unread_test = refl

arrivals_iff_example : Memᴰ (codes "b") (arrivals [] news) ↔ HasArrived (codes "b") news
arrivals_iff_example = arrivals_iff (codes "b") news refl
