-- ===== src/Web/Selection/Neighbour.antt =====
-- web/src/hooks/useSelection.ts and useInboxState.ts: what is selected, before and after a removal.
use mailpeek.Prelude.{
  Option, ap, ℕ, zero, suc, ◌+◌, ◌≡◌, refl, sym, subst, ◌∙◌, ◌≢◌, inl, inr, true, false, not, none,
  some, List, [], ◌∷◌, arith, Bool-cases, Option-cases, get_elem?, filter, Text, text_eq_sound,
  text_eq_iff, any_complete, Memᴰ, find_index, find_index_sound, find_index-none, get-Memᴰ,
  filter-Memᴰ,
}
use mailpeek.Web.Types.{MessageSummary}
use mailpeek.Web.Selection.{has_id, id_of, selected_id, previous, neighbour_of, Selection, remove}

-- No two places of the list hold messages with the same id.
abbrev pub HasDistinctIds : List MessageSummary → Type 0
HasDistinctIds ms =
    (i j : ℕ) (a b : MessageSummary)
    → get_elem? ms i ≡ some a
    → get_elem? ms j ≡ some b
    → a.id ≡ b.id
    → i ≡ j

-- Another message of the list than the one with the id.
abbrev IsOther : List MessageSummary → Text → Text → Type 0
IsOther ms id n = (m : MessageSummary) × Memᴰ m ms × (m.id ≡ n) × (has_id id m ≡ false)

other_lem :
    (ms : List MessageSummary) (id : Text) (i j : ℕ) (a m : MessageSummary)
    → HasDistinctIds ms
    → get_elem? ms i ≡ some a
    → has_id id a ≡ true
    → get_elem? ms j ≡ some m
    → i ≢ j
    → IsOther ms id m.id
other_lem ms id i j a m distinct at_i hit at_j differ = (
  m,
  get-Memᴰ ms j m at_j,
  refl,
  (elim (Bool-cases (has_id id m)) [
    | inl same ↦ absurd (
        differ (
          distinct i j a m at_i at_j
            (text_eq_sound a.id id hit ∙ sym (text_eq_sound m.id id same))))
    | inr other ↦ other
  ]),
)

get-earlier :
    (ms : List MessageSummary) (i : ℕ) (m : MessageSummary)
    → get_elem? ms (suc i) ≡ some m
    → (b : MessageSummary) × (get_elem? ms i ≡ some b)
get-earlier [] i m h = cc
get-earlier (x ∷ ms) zero m h = (x, refl)
get-earlier (x ∷ ms) (suc i) m h = get-earlier ms i m h

previous-at :
    (ms : List MessageSummary) (i : ℕ) (m : MessageSummary)
    → previous ms i ≡ some m
    → (k : ℕ) × (i ≡ suc k) × (get_elem? ms k ≡ some m)
previous-at ms zero m h = cc
previous-at ms (suc k) m h = (k, refl, h)

-- The neighbour, if there is one, is another message of the list.
neighbour_of-IsOther :
    (ms : List MessageSummary) (id n : Text)
    → HasDistinctIds ms
    → neighbour_of ms id ≡ some n
    → IsOther ms id n
neighbour_of-IsOther ms id n distinct h = elim (Option-cases (find_index (has_id id) ms)) [
  | inl e ↦ elim (Option-cases (get_elem? ms 0)) [
    | inl empty ↦ ground arith
    | inr (m, at) ↦ (m, get-Memᴰ ms 0 m at, ground arith, find_index-none (has_id id) ms 0 m e at)
  ]
  | inr (i, e) ↦
      let (a, at, hit) = find_index_sound (has_id id) ms i e in
      elim (Option-cases (get_elem? ms (i + 1))) [
        | inr (m, next) ↦
            subst (IsOther ms id) (ground arith)
              (other_lem ms id i (i + 1) a m distinct at hit next (λ e. omega (arith, e)))
        | inl last ↦ elim (Option-cases (previous ms i)) [
          | inl first ↦ ground arith
          | inr (m, before) ↦
              let (k, above, at_k) = previous-at ms i m before in
              subst (IsOther ms id) (ground arith)
                (other_lem ms id i k a m distinct at hit at_k (λ same. omega (arith, above, same)))
        ]
      ]
]

-- A list of two or more has a neighbour for every id.
two-neighbour :
    (m k : MessageSummary) (ms : List MessageSummary) (id : Text)
    → neighbour_of (m ∷ k ∷ ms) id ≢ none
two-neighbour m k ms id h = elim (Option-cases (find_index (has_id id) (m ∷ k ∷ ms))) [
  | inl e ↦ ground arith
  | inr (zero, e) ↦ ground arith
  | inr (suc i, e) ↦
      let (a, at, hit) = find_index_sound (has_id id) (m ∷ k ∷ ms) (suc i) e in
      let (b, before) = get-earlier (m ∷ k ∷ ms) i a at in
      elim (Option-cases (get_elem? (m ∷ k ∷ ms) (suc i + 1))) [
        | inl last ↦ ground arith
        | inr (c, next) ↦ ground arith
      ]
]

neighbour_of-none :
    (ms : List MessageSummary) (id : Text)
    → neighbour_of ms id ≡ none
    → filter (λ m. not (has_id id m)) ms ≡ []
neighbour_of-none [] id h = refl
neighbour_of-none (m ∷ []) id h = ground arith
neighbour_of-none (m ∷ k ∷ ms) id h = absurd (two-neighbour m k ms id h)

-- What stands beside a message in the list: the message behind it, or the one before the last message,
-- or none beside a message alone; for an id that is not in the list, the first message.
pub data IsBeside (ms : List MessageSummary) (id : Text) : Option Text → Type 0 where
  behind :
      (i : ℕ) (a next : MessageSummary)
      → get_elem? ms i ≡ some a
      → a.id ≡ id
      → get_elem? ms (i + 1) ≡ some next
      → IsBeside ms id (some next.id)
  before :
      (i : ℕ) (a last : MessageSummary)
      → get_elem? ms i ≡ some a
      → get_elem? ms (i + 1) ≡ some last
      → last.id ≡ id
      → get_elem? ms (i + 1 + 1) ≡ none
      → IsBeside ms id (some a.id)
  alone :
      (a : MessageSummary)
      → get_elem? ms 0 ≡ some a
      → a.id ≡ id
      → get_elem? ms 1 ≡ none
      → IsBeside ms id none
  unlisted :
      ((i : ℕ) (m : MessageSummary) → get_elem? ms i ≡ some m → m.id ≢ id)
      → IsBeside ms id (id_of (get_elem? ms 0))

last_beside :
    (ms : List MessageSummary) (id : Text) (i : ℕ) (a : MessageSummary)
    → find_index (has_id id) ms ≡ some i
    → get_elem? ms i ≡ some a
    → a.id ≡ id
    → get_elem? ms (i + 1) ≡ none
    → IsBeside ms id (neighbour_of ms id)
last_beside ms id zero a e at own end =
    let same : none ≡ neighbour_of ms id = ground arith in
    subst (IsBeside ms id) same (alone a at own end)
last_beside ms id (suc k) a e at own end =
    let (b, there) = get-earlier ms k a at in
    let same : some b.id ≡ neighbour_of ms id = ground arith in
    let next : get_elem? ms (k + 1) ≡ some a =
      let k1 : k + 1 ≡ suc k = omega arith in ap (get_elem? ms) k1 ∙ at in
    let none_left : get_elem? ms (k + 1 + 1) ≡ none =
      let k2 : k + 1 + 1 ≡ suc k + 1 = omega arith in ap (get_elem? ms) k2 ∙ end in
    subst (IsBeside ms id) same (before k b a there next own none_left)

neighbour_of-IsBeside : (ms : List MessageSummary) (id : Text) → IsBeside ms id (neighbour_of ms id)
neighbour_of-IsBeside ms id = elim (Option-cases (find_index (has_id id) ms)) [
  | inl e ↦
      let same : id_of (get_elem? ms 0) ≡ neighbour_of ms id = ground arith in
      subst (IsBeside ms id) same (unlisted (λ k m at own. other k m at e own))
  | inr (i, e) ↦
      let (a, at, hit) = find_index_sound (has_id id) ms i e in
      let own : a.id ≡ id = text_eq_sound a.id id hit in
      elim (Option-cases (get_elem? ms (i + 1))) [
        | inr (next, there) ↦
            let same : some next.id ≡ neighbour_of ms id = ground arith in
            subst (IsBeside ms id) same (behind i a next at own there)
        | inl end ↦ last_beside ms id i a e at own end
      ]
]
  where
    other :
        (k : ℕ) (m : MessageSummary)
        → get_elem? ms k ≡ some m
        → find_index (has_id id) ms ≡ none
        → m.id ≢ id
    other k m at e own =
        let miss = find_index-none (has_id id) ms k m e at in ground (arith, text_eq_iff m.id id)

-- In a list whose ids differ, removing a message selects the one behind it, or, at the end of the list,
-- the one before it, or none if it is alone (the first message if the removed one is not listed); and
-- what is selected stays so once the removed message has left the list; no message is selected only if
-- none is left.
pub selected_id-neighbour_of :
    (ms : List MessageSummary) (id : Text) (s : Selection)
    → HasDistinctIds ms
    → let left = filter (λ (m : MessageSummary). not (has_id id m)) ms in
      IsBeside ms id (remove ms id s).chosen
      × (selected_id left (remove ms id s).chosen ≡ (remove ms id s).chosen)
      × (((remove ms id s).chosen ≡ none) → left ≡ [])
selected_id-neighbour_of ms id s distinct =
    let left = filter (λ (m : MessageSummary). not (has_id id m)) ms in
    let beside = neighbour_of-IsBeside ms id in
    elim (Option-cases (neighbour_of ms id)) [
      | inl e ↦ (beside, ground (arith, neighbour_of-none ms id e), λ h. neighbour_of-none ms id h)
      | inr (n, e) ↦
          let (m, listed, same, other) = neighbour_of-IsOther ms id n distinct e in
          let stays =
            filter-Memᴰ (λ (m : MessageSummary). not (has_id id m)) m ms listed (ground arith) in
          let hit : has_id n m ≡ true = ground (arith, text_eq_iff m.id n) in
          (
            beside,
            ground (arith, any_complete (has_id n) stays hit),
            λ h. neighbour_of-none ms id h,
          )
    ]
