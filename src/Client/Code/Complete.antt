-- ===== src/Client/Code/Complete.antt =====
-- packages/client/src/email.ts: texts in which `guessCode` finds a code.
use mailpeek.Prelude.{
  ℕ, zero, suc, ◌+◌, ◌≤◌, ◌≡◌, refl, ap, ◌≢◌, inl, inr, Bool, true, false, Option, none, some, [],
  ◌∷◌, ◌++◌, arith, leb, Bool-cases, Option-cases, or_else, length, take, drop, all, length-append,
  Text,
}
use mailpeek.Client.Code.{
  is_digit, Pattern, greatest, digits_at, digits, is_word, starts_word, search_from, guess_code,
}

-- Whether the last unit is one of a word; `behind` tells it of the unit before.
abbrev pub ends_word : Bool → Text → Bool
ends_word behind [] = behind
ends_word behind (c ∷ s) = ends_word (is_word c) s

greatest_complete :
    (good : ℕ → Bool) (lo more n : ℕ)
    → lo ≤ n
    → n ≤ lo + more
    → good n ≡ true
    → (k : ℕ) × (greatest good lo more ≡ some k)
unfolding greatest
greatest_complete good lo zero n l u h = let e : n ≡ lo = omega arith in (lo, ground arith)
greatest_complete good lo (suc more) n l u h = elim (Bool-cases (good (lo + suc more))) [
  | inl hit ↦ (lo + suc more, ground arith)
  | inr miss ↦
      let other : (n ≡ lo + suc more) → ⊥ = λ e. cc in
      let (k, e) = greatest_complete good lo more n l (omega arith) h in (k, ground arith)
]

take-all : (xs ys : Text) → take (length xs) (xs ++ ys) ≡ xs
take-all [] ys = refl
take-all (x ∷ xs) ys = ap (◌∷◌ x) (take-all xs ys)

drop-all : (xs ys : Text) → drop (length xs) (xs ++ ys) ≡ ys
drop-all [] ys = refl
drop-all (x ∷ xs) ys = drop-all xs ys

search_from_complete :
    (p : Pattern) (behind : Bool) (x u : Text) (n : ℕ)
    → ends_word behind x ≡ false
    → u ≢ []
    → p u ≡ some n
    → (c : Text) × (search_from p behind (x ++ u) ≡ some c)
unfolding search_from
search_from_complete p behind [] [] n w h m = absurd (h refl)
search_from_complete p behind [] (c ∷ u) n w h m = (take n (c ∷ u), ground arith)
search_from_complete p behind (c ∷ x) u n w h m =
    let (code, e) = search_from_complete p (is_word c) x u n w h m in
    elim (Bool-cases behind) [
      | inl b ↦ (code, ground arith)
      | inr b ↦ elim (Option-cases (p (c ∷ (x ++ u)))) [
        | inl e' ↦ (code, ground arith)
        | inr (k, e') ↦ (take k (c ∷ (x ++ u)), ground arith)
      ]
    ]

or_else_complete :
    {A : Type 0} (a b : Option A) → ((x : A) × (b ≡ some x)) → (x : A) × (or_else a b ≡ some x)
or_else_complete none b h = h
or_else_complete (some x) b h = (x, refl)

pub guess_code_complete :
    (before number behind : Text)
    → ends_word false before ≡ false
    → all is_digit number ≡ true
    → 4 ≤ length number
    → length number ≤ 8
    → starts_word behind ≡ false
    → (code : Text) × (guess_code (before ++ (number ++ behind)) ≡ some code)
unfolding guess_code digits
guess_code_complete before number behind w ds low high w' =
    let good : digits_at (number ++ behind) (length number) ≡ true =
      let long : leb (length number) (length (number ++ behind)) ≡ true =
        let e = length-append number behind in ground arith in
      rw (take-all number behind, drop-all number behind, long, ds, w') in
    let (n, e) =
      greatest_complete (digits_at (number ++ behind)) 4 4 (length number) low high good in
    or_else_complete _ _ (
      or_else_complete _ _ (
        search_from_complete (digits 4 4) false before (number ++ behind) n w
          (λ e. let l = ap length e in let l' = length-append number behind in omega arith) e))
