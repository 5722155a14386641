-- ===== src/Client/Code/Found.antt =====
-- packages/client/src/email.ts: what `guessCode` returns.
use mailpeek.Prelude.{
  IsPart-trans, ℕ, zero, suc, ◌+◌, ◌-◌, ◌≤◌, ◌≡◌, refl, sym, ap, subst, ◌∙◌, inl, inr, Bool, true,
  false, none, some, List, [], ◌∷◌, ◌++◌, arith, leb→le, Bool-cases, Option-cases, length, take,
  drop, all, All, length-take, take-append-drop, Text, IsPart,
}
use mailpeek.Client.Code.{
  is_digit, is_code_unit, Pattern, greatest, digits_at, digits, code_at, code_token, is_word,
  search_from, search, first_code, behind_keywords, keyword_at, guess_code,
}

pub greatest_sound :
    (good : ℕ → Bool) (lo more n : ℕ)
    → greatest good lo more ≡ some n
    → (good n ≡ true) × (lo ≤ n) × (n ≤ lo + more)
unfolding greatest
greatest_sound good lo zero n h = ground arith
greatest_sound good lo (suc more) n h = elim (Bool-cases (good (lo + suc more))) [
  | inl hit ↦ ground arith
  | inr miss ↦ let (g, l, u) = greatest_sound good lo more n (ground arith) in (g, l, omega arith)
]

-- The first `n` units of the text may be a code.
abbrev pub IsCode : Text → ℕ → Type 0
IsCode s n = (4 ≤ n) × (n ≤ 12) × (n ≤ length s) × (all is_code_unit (take n s) ≡ true)

all-digits : (s : Text) → all is_digit s ≡ true → all is_code_unit s ≡ true
all-digits [] h = refl
all-digits (c ∷ s) h = ground (arith, all-digits s)

digits-IsCode :
    (lo more n : ℕ) (s : Text) → 4 ≤ lo → lo + more ≤ 12 → digits lo more s ≡ some n → IsCode s n
unfolding digits
digits-IsCode lo more n s l u h =
    let (good, low, high) = greatest_sound (digits_at s) lo more n h in
    (
      omega arith,
      omega arith,
      leb→le n (length s) (ground arith),
      all-digits (take n s) (ground arith),
    )

code_token-IsCode : (n : ℕ) (s : Text) → code_token s ≡ some n → IsCode s n
unfolding code_token
code_token-IsCode n s h = elim (Option-cases (digits 4 6 s)) [
  | inl e ↦
      let (good, low, high) = greatest_sound (code_at s) 4 8 n (ground arith) in
      (omega arith, omega arith, leb→le n (length s) (ground arith), ground arith)
  | inr (k, e) ↦ digits-IsCode 4 6 n s (omega arith) (omega arith) (ground arith)
]

-- A match stands at a place of the text.
search_from_sound :
    (p : Pattern) (behind : Bool) (s c : Text)
    → search_from p behind s ≡ some c
    → (x u : Text) × (n : ℕ) × (s ≡ x ++ u) × (p u ≡ some n) × (c ≡ take n u)
unfolding search_from
search_from_sound p behind [] c h = cc
search_from_sound p behind (d ∷ s) c h =
    let later : search_from p (is_word d) s ≡ some c
        → (x u : Text) × (n : ℕ) × (d ∷ s ≡ x ++ u) × (p u ≡ some n) × (c ≡ take n u) =
      λ e.
        let (x, u, n, at, m, cut) = search_from_sound p (is_word d) s c e in
        (d ∷ x, u, n, ap (◌∷◌ d) at, m, cut) in
    elim (Option-cases (p (d ∷ s))) [
      | inl e ↦ later (ground arith)
      | inr (n, e) ↦ elim (Bool-cases behind) [
        | inl w ↦ later (ground arith)
        | inr w ↦ ([], d ∷ s, n, refl, e, ground arith)
      ]
    ]

IsPart-cons : (c : ℕ) (s t : Text) → IsPart s t → IsPart (c ∷ s) t
IsPart-cons c s t (x, y, e) = (c ∷ x, y, ap (◌∷◌ c) e)

IsPart-middle : (m n : ℕ) (s : Text) → IsPart s (take n (drop m s))
IsPart-middle m n s = (
  take m s,
  drop n (drop m s),
  sym (ap (◌++◌ (take m s)) (take-append-drop n (drop m s)) ∙ take-append-drop m s),
)

All-weaken :
    {A : Type 0} (P Q : A → Type 0) (xs : List A) → ((x : A) → P x → Q x) → All P xs → All Q xs
All-weaken P Q [] f h = tt
All-weaken P Q (x ∷ xs) f h = (f x h.0, All-weaken P Q xs f h.1)

behind_keywords-IsPart :
    (behind : Bool) (skip : ℕ) (s : Text) → All (IsPart s) (behind_keywords behind skip s)
unfolding behind_keywords
behind_keywords-IsPart behind skip [] = tt
behind_keywords-IsPart behind (suc skip) (c ∷ s) =
    All-weaken (IsPart s) (IsPart (c ∷ s)) (behind_keywords (is_word c) skip s) (IsPart-cons c s)
      (behind_keywords-IsPart (is_word c) skip s)
behind_keywords-IsPart behind zero (c ∷ s) =
    let later = λ (k : ℕ).
      All-weaken (IsPart s) (IsPart (c ∷ s)) (behind_keywords (is_word c) k s) (IsPart-cons c s)
        (behind_keywords-IsPart (is_word c) k s) in
    elim (keyword_at behind (c ∷ s))
      as (λ o. All (IsPart (c ∷ s)) (elim o [
        | none ↦ behind_keywords (is_word c) zero s
        | some n ↦ take 60 (drop n (c ∷ s)) ∷ behind_keywords (is_word c) (n - 1) s
      ])) [ none ↦ later 0 | some n ↦ (IsPart-middle n 60 (c ∷ s), later (n - 1)) ]

-- The code stands in the text, has 4 to 12 units, and each is a capital, a digit or a dash.
unfoldable pub IsFound : Text → Text → Type 0
IsFound s code =
    IsPart s code × (4 ≤ length code) × (length code ≤ 12) × (all is_code_unit code ≡ true)

search-IsFound :
    (p : Pattern) (s code : Text)
    → ((u : Text) (n : ℕ) → p u ≡ some n → IsCode u n)
    → search p s ≡ some code
    → IsFound s code
unfolding IsFound
search-IsFound p s code good h =
    let (x, u, n, at, m, cut) = search_from_sound p false s code h in
    let (low, high, long, units) = good u n m in
    let len : length code ≡ n = ap length cut ∙ length-take n u ∙ omega arith in
    (
      (x, drop n u, at ∙ ap (◌++◌ x) (sym (ap (λ t. t ++ drop n u) cut ∙ take-append-drop n u))),
      omega arith,
      omega arith,
      subst (λ t. all is_code_unit t ≡ true) (sym cut) units,
    )

first_code-IsFound :
    (s code : Text) (texts : List Text)
    → All (IsPart s) texts
    → first_code texts ≡ some code
    → IsFound s code
unfolding first_code IsFound
first_code-IsFound s code [] parts h = cc
first_code-IsFound s code (t ∷ texts) parts h = elim (Option-cases (search code_token t)) [
  | inl e ↦ first_code-IsFound s code texts parts.1 (ground arith)
  | inr (found, e) ↦
      let (part, low, high, units) =
        search-IsFound code_token t code (λ u n. code_token-IsCode n u) (ground arith) in
      (IsPart-trans s t code parts.0 part, low, high, units)
]

pub guess_code-IsFound : (s code : Text) → guess_code s ≡ some code → IsFound s code
unfolding guess_code
guess_code-IsFound s code h = elim (Option-cases (first_code (behind_keywords false 0 s))) [
  | inr (c, e) ↦
      first_code-IsFound s code (behind_keywords false 0 s) (behind_keywords-IsPart false 0 s)
        (ground arith)
  | inl e ↦ elim (Option-cases (search (digits 6 0) s)) [
    | inr (c, e') ↦
        search-IsFound (digits 6 0) s code
          (λ u n. digits-IsCode 6 0 n u (omega arith) (omega arith)) (ground arith)
    | inl e' ↦
        search-IsFound (digits 4 4) s code
          (λ u n. digits-IsCode 4 4 n u (omega arith) (omega arith)) (ground arith)
  ]
]
