-- ===== src/Highlight/Matches.antt =====
-- What a match says of the text: inversions of the matchers' steps, and the leftmost match.
use mailpeek.Prelude.{
  ℕ, ◌<◌, ◌≡◌, refl, ap, ◌⊎◌, inl, inr, Bool, true, false, Option, none, some, [], ◌∷◌, ◌++◌, arith,
  length, All, Text,
}
use mailpeek.Highlight.Scan.{Matcher, later, here, first_match, span, eat}
use mailpeek.Highlight.Regex.{◌>>=◌, check}

-- A unit eaten stood at the front.
pub eat_eq_some : (c : ℕ) (s : Text) {r : Text} → eat c s ≡ some r → s ≡ c ∷ r
unfolding eat
eat_eq_some c [] h = cc
eat_eq_some c (d ∷ s) h = ground arith

pub eat_self : (c : ℕ) (s : Text) → eat c (c ∷ s) ≡ some s
unfolding eat
eat_self c s = ground arith

pub check_eq_some : (b : Bool) {u : Unit {0}} → check b ≡ some u → b ≡ true
check_eq_some true h = refl
check_eq_some false h = cc

module _ {ℓ} {A : Type ℓ} where
  later_eq_some :
      (c : ℕ) (o : Option (Text × A × Text)) {b : Text} {a : A} {r : Text}
      → later c o ≡ some (b, a, r)
      → (b' : Text) × (b ≡ c ∷ b') × (o ≡ some (b', a, r))
  later_eq_some c none h = cc
  later_eq_some c (some (b', a', r')) h = (b', cc, cc)

  here_eq_some :
      (o : Option (A × Text)) (n : Option (Text × A × Text)) {b : Text} {a : A} {r : Text}
      → here o n ≡ some (b, a, r)
      → ((b ≡ []) × (o ≡ some (a, r))) ⊎ (n ≡ some (b, a, r))
  here_eq_some none n h = inr h
  here_eq_some (some (a', r')) n h = inl (cc, cc)

  -- What the leftmost match leaves out stands before it.
  pub first_match_split :
      (at : Matcher A) (s : Text) {b : Text} {a : A} {r : Text}
      → first_match at s ≡ some (b, a, r)
      → (m : Text) × (at m ≡ some (a, r)) × (b ++ m ≡ s)
  unfolding first_match
  first_match_split at [] h = cc
  first_match_split at (c ∷ s) h = elim (here_eq_some (at (c ∷ s)) (later c (first_match at s)) h) [
    | inl (e, hit) ↦ (c ∷ s, hit, rw e)
    | inr e ↦
        let (b', eb, found) = later_eq_some c (first_match at s) e in
        let (m, hit, split) = first_match_split at s found in (m, hit, rw eb (ap (◌∷◌ c) split))
  ]

-- A step of a matcher that succeeds: what follows may use its result and the equation.
pub bind_cases {ℓ κ μ} :
    {A : Type ℓ} {B : Type κ} {P : Type μ} (m : Option A) (k : A → Option B) {b : B}
    → (m >>= k) ≡ some b
    → ((a : A) → m ≡ some a → k a ≡ some b → P)
    → P
bind_cases none k h f = cc
bind_cases (some a) k h f = f a refl h

module _ (p : ℕ → Bool) where
  abbrev pub Every : Text → Type 0
  Every = All (λ c. p c ≡ true)

  pub span-Every : (s : Text) → Every (span p s).0
  unfolding span
  span-Every [] = tt
  span-Every (c ∷ s) = ground (arith, span-Every s)

  pub span_stops :
      (xs : Text) (c : ℕ) (ys : Text)
      → Every xs
      → p c ≡ false
      → span p (xs ++ (c ∷ ys)) ≡ (xs, c ∷ ys)
  unfolding span
  span_stops [] c ys h k = rw k
  span_stops (x ∷ xs) c ys h k = rw (h.0, span_stops xs c ys h.1 k)

module _ {ℓ} {A : Type ℓ} (at : Matcher A) where
  -- Without a match, none starts anywhere in the text.
  pub first_match-none :
      (s : Text)
      → first_match at s ≡ none
      → (x : Text) (c : ℕ) (n : Text) → x ++ (c ∷ n) ≡ s
      → at (c ∷ n) ≡ none
  unfolding first_match
  first_match-none [] h [] c n e = cc
  first_match-none [] h (d ∷ x) c n e = cc
  first_match-none (d ∷ s) h [] c n e = (ground arith)
  first_match-none (d ∷ s) h (d' ∷ x) c n e = first_match-none s (ground arith) x c n (ground arith)

  -- The first match starts no later than any other.
  pub first_match_leftmost :
      (s b r : Text) (a : A)
      → first_match at s ≡ some (b, a, r)
      → (x n : Text) → x ++ n ≡ s
      → length x < length b
      → at n ≡ none
  unfolding first_match
  first_match_leftmost [] b r a h x n e lt = cc
  first_match_leftmost (d ∷ s) [] r a h x n e lt = absurd (omega arith)
  first_match_leftmost (d ∷ s) (d' ∷ b) r a h [] n e lt = (ground arith)
  first_match_leftmost (d ∷ s) (d' ∷ b) r a h (e' ∷ x) n e lt =
      first_match_leftmost s b r a (ground arith) x n (ground arith) (omega arith)
