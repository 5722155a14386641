-- ===== src/Highlight/Scan.antt =====
-- The searches that `text.matchAll(regex)` makes, over a matcher that reads one match at the start
-- of a text and returns what it captured and the text behind it.
use mailpeek.Prelude.{
  ℕ, zero, suc, ◌≡◌, refl, Bool, true, false, Option, none, some, List, [], ◌∷◌, ◌++◌, arith, ◌==◌,
  Text,
}

abbrev pub Matcher {ℓ} : Type ℓ → Type ℓ
Matcher A = Text → Option (A × Text)

module _ {ℓ} {A : Type ℓ} where
  abbrev pub later : ℕ → Option (Text × A × Text) → Option (Text × A × Text)
  later c none = none
  later c (some (before, a, rest)) = some (c ∷ before, a, rest)

  abbrev pub here : Option (A × Text) → Option (Text × A × Text) → Option (Text × A × Text)
  here (some (a, rest)) next = some ([], a, rest)
  here none next = next

  -- The leftmost match: the text before it, its capture, and the text behind it.
  unfoldable pub first_match : Matcher A → Text → Option (Text × A × Text)
  first_match at [] = none
  first_match at (c ∷ s) = let next = later c (first_match at s) in here (at (c ∷ s)) next

  -- All captures, from left to right. Each match is a step, so the length of the text is fuel enough.
  unfoldable pub match_all : Matcher A → ℕ → Text → List A
  match_all at zero s = []
  match_all at (suc fuel) s = elim (first_match at s) [
    | none ↦ []
    | some (before, a, rest) ↦ a ∷ match_all at fuel rest
  ]

-- The longest prefix of units that pass the test, and the rest.
abbrev pub cons_first : ℕ → Text × Text → Text × Text
cons_first c (a, b) = (c ∷ a, b)

unfoldable pub span : (ℕ → Bool) → Text → Text × Text
span p [] = ([], [])
span p (c ∷ s) =
    let rest = cons_first c (span p s) in elim (p c) [ true ↦ rest | false ↦ ([], c ∷ s) ]

pub append-span : (p : ℕ → Bool) (s : Text) → (span p s).0 ++ (span p s).1 ≡ s
unfolding span
append-span p [] = refl
append-span p (c ∷ s) = ground (arith, append-span p s)

-- One given unit.
unfoldable pub eat : ℕ → Text → Option Text
eat c [] = none
eat c (d ∷ s) = elim (d == c) [ true ↦ some s | false ↦ none ]
