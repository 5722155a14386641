-- ===== src/Web/Shell/Moves.antt =====
-- web/src/hooks/useKeyboardShortcuts.ts: the id that a move opens.
use mailpeek.Prelude.{
  ℕ, zero, suc, ◌+◌, ◌-◌, ◌<◌, min, ◌≡◌, refl, sym, ap, subst, ◌∙◌, inl, inr, true, false, some,
  List, [], ◌∷◌, arith, Option-cases, length, get_elem?, any, Text, text_eq, text_eq_sound,
  text_eq_refl, text_eq_iff, is_empty, find_index, find_index_sound, find_index-none,
}
use mailpeek.Web.Types.{MessageSummary}
use mailpeek.Web.Selection.{Delta, down, up, move, moved, index_of, has_id, non_empty}
use mailpeek.Web.Shell.{ids_of}

-- One place down or up, no further than the ends of a list of `n`.
abbrev pub walk : (n i : ℕ) → List Delta → ℕ
walk n i [] = i
walk n i (down ∷ ds) = walk n (min (i + 1) (n - 1)) ds
walk n i (up ∷ ds) = walk n (i - 1) ds

-- No two places hold the same id, and none is empty.
pub record IsIdList (ids : List Text) : Type 0 where
  pub distinct :
      (i j : ℕ) (id : Text) → get_elem? ids i ≡ some id → get_elem? ids j ≡ some id → i ≡ j
  pub filled : (i : ℕ) (id : Text) → get_elem? ids i ≡ some id → is_empty id ≡ false

find_index-at :
    (ids : List Text) (i : ℕ) (id : Text)
    → IsIdList ids
    → get_elem? ids i ≡ some id
    → find_index (text_eq id) ids ≡ some i
find_index-at ids i id h at = elim (Option-cases (find_index (text_eq id) ids)) [
  | inl e ↦
      let miss = find_index-none (text_eq id) ids i id e at in
      let hit = text_eq_refl id in ground arith
  | inr (j, e) ↦
      let (found, at_j, hit) = find_index_sound (text_eq id) ids j e in
      let same : id ≡ found = text_eq_sound id found hit in
      let place : j ≡ i =
        h.distinct j i id (subst (λ t. get_elem? ids j ≡ some t) (sym same) at_j) at in
      e ∙ ap some place
]

pub get-within :
    {A : Type 0} (xs : List A) (i : ℕ) → i < length xs → (a : A) × (get_elem? xs i ≡ some a)
get-within [] i l = absurd (omega (arith, l))
get-within (x ∷ xs) zero l = (x, refl)
get-within (x ∷ xs) (suc i) l = get-within xs i (omega arith)

index_of-at :
    (ids : List Text) (i : ℕ) (id : Text)
    → IsIdList ids
    → get_elem? ids i ≡ some id
    → index_of ids (some id) ≡ some i
index_of-at ids i id h at = rw (h.filled i id at) (find_index-at ids i id h at)

non_empty-at :
    (ids : List Text) (i : ℕ) (id : Text)
    → IsIdList ids
    → get_elem? ids i ≡ some id
    → non_empty (get_elem? ids i) ≡ some id
non_empty-at ids i id h at = rw (at, h.filled i id at) refl

-- A place of a list is moved to a place of the list.
pub walk_bound : (n i : ℕ) (d : Delta) → i < n → walk n i (d ∷ []) < n
walk_bound n i down l = ground arith
walk_bound n i up l = omega arith

moved-walk : (n i : ℕ) (d : Delta) → i < n → min (moved d (some i)) (n - 1) ≡ walk n i (d ∷ [])
moved-walk n i down l = refl
moved-walk n i up l = ground arith

pub move-at :
    (ids : List Text) (i : ℕ) (id : Text) (d : Delta)
    → IsIdList ids
    → i < length ids
    → get_elem? ids i ≡ some id
    → (next : Text) × (get_elem? ids (walk (length ids) i (d ∷ [])) ≡ some next)
      × (move ids (some id) d ≡ some next)
move-at ids i id d h l at =
    let target = walk (length ids) i (d ∷ []) in
    let (next, at_next) = get-within ids target (walk_bound (length ids) i d l) in
    let index = index_of-at ids i id h at in
    let place = moved-walk (length ids) i d l in
    let opens = non_empty-at ids target next h at_next in
    (
      next,
      at_next,
      ap (λ o. non_empty (get_elem? ids (min (moved d o) (length ids - 1)))) index
          ∙ ap (λ k. non_empty (get_elem? ids k)) place
          ∙ opens,
    )

pub listed-at :
    (ms : List MessageSummary) (i : ℕ) (id : Text)
    → get_elem? (ids_of ms) i ≡ some id
    → any (has_id id) ms ≡ true
listed-at [] i id at = cc
listed-at (m ∷ ms) zero id at =
    let hit : has_id id m ≡ true = ground (arith, text_eq_iff m.id id) in ground arith
listed-at (m ∷ ms) (suc i) id at = let h = listed-at ms i id at in ground arith
