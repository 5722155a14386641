-- ===== src/Client/Code.antt =====
-- packages/client/src/email.ts: `guessCode`, its regular expressions written as tests of the text at a
-- place. `behind` tells whether the unit before that place is one of a word.
pub mod Found
pub mod Complete
mod Tests
use mailpeek.Prelude.{
  ℕ, zero, suc, ◌+◌, ◌-◌, Bool, true, false, not, ◌&&◌, ◌||◌, Option, none, some, List, [], ◌∷◌,
  ◌++◌, map, leb, ◌==◌, if◌then◌else◌, or_else, length, take, drop, find, any, all, Text, codes,
}

abbrev pub between : ℕ → ℕ → ℕ → Bool
between lo hi c = leb lo c && leb c hi

-- `\d`
abbrev pub is_digit : ℕ → Bool
is_digit c = between b'0' b'9' c

-- `\w`
unfoldable pub is_word : ℕ → Bool
is_word c = is_digit c || between b'A' b'Z' c || between b'a' b'z' c || c == b'_'

abbrev pub starts_word : Text → Bool
starts_word [] = false
starts_word (c ∷ s) = is_word c

-- The case that the flag `i` ignores, for the units of the keywords: ASCII, and the O with an accent.
abbrev fold : ℕ → ℕ
fold c = if between b'A' b'Z' c || c == 0xd3 then c + 32 else c

-- One unit of each of the sets, in this order.
abbrev match_sets : List Text → Text → Bool
match_sets [] s = true
match_sets (set ∷ sets) [] = false
match_sets (set ∷ sets) (c ∷ s) = any (λ d. d == fold c) set && match_sets sets s

abbrev letters : Text → List Text
letters s = map (λ c. c ∷ []) s

-- The alternatives of `keyword`.
abbrev pub keywords : List (List Text)
keywords =
    letters (codes "verification")
    ∷ letters (codes "verify")
    ∷ letters (codes "confirmation")
    ∷ (letters (codes "one") ++ ((codes "- ") ∷ letters (codes "time")))
    ∷ letters (codes "passcode")
    ∷ letters (codes "code")
    ∷ (letters (codes "c") ++ ((b'o' ∷ 0xf3 ∷ []) ∷ letters (codes "digo")))
    ∷ letters (codes "otp")
    ∷ letters (codes "pin")
    ∷ letters (codes "token")
    ∷ []

-- The length of the first alternative that stands here as a word of its own. Each ends with the unit of
-- a word, so that `\b` behind it asks for no such unit.
unfoldable pub keyword_at : (behind : Bool) → Text → Option ℕ
unfolding is_word
keyword_at behind s =
    if behind
    then none
    else elim (find (λ k. match_sets k s && not (starts_word (drop (length k) s))) keywords) [
      | none ↦ none
      | some k ↦ some (length k)
    ]

-- The texts behind the matches of `text.matchAll(keyword)`, of 60 units at most; `skip` units belong to
-- the match before.
unfoldable pub behind_keywords : (behind : Bool) → (skip : ℕ) → Text → List Text
unfolding is_word
behind_keywords behind skip [] = []
behind_keywords behind (suc skip) (c ∷ s) = behind_keywords (is_word c) skip s
behind_keywords behind zero (c ∷ s) = elim (keyword_at behind (c ∷ s)) [
  | none ↦ behind_keywords (is_word c) zero s
  | some n ↦ take 60 (drop n (c ∷ s)) ∷ behind_keywords (is_word c) (n - 1) s
]

-- A greedy repetition: the greatest number from `lo + more` down to `lo` that the test allows.
unfoldable pub greatest : (ℕ → Bool) → (lo more : ℕ) → Option ℕ
greatest good lo zero = if good lo then some lo else none
greatest good lo (suc more) =
    let rest = greatest good lo more in if good (lo + suc more) then some (lo + suc more) else rest

-- `\d{n}\b`: the last digit is the unit of a word.
abbrev pub digits_at : Text → ℕ → Bool
digits_at s n = leb n (length s) && all is_digit (take n s) && not (starts_word (drop n s))

-- `[A-Z0-9]`, `[A-Z0-9-]`
abbrev pub is_code_end : ℕ → Bool
is_code_end c = between b'A' b'Z' c || is_digit c

abbrev pub is_code_unit : ℕ → Bool
is_code_unit c = is_code_end c || c == b'-'

abbrev pub ends_well : Text → Bool
ends_well [] = false
ends_well (c ∷ []) = is_code_end c
ends_well (c ∷ (d ∷ s)) = ends_well (d ∷ s)

abbrev pub starts_well : Text → Bool
starts_well [] = false
starts_well (c ∷ s) = is_code_end c

-- `(?=[A-Z0-9-]*\d)`
abbrev pub has_digit_ahead : Text → Bool
has_digit_ahead [] = false
has_digit_ahead (c ∷ s) = is_digit c || (is_code_unit c && has_digit_ahead s)

-- `[A-Z0-9][A-Z0-9-]{n-2}[A-Z0-9]\b`
abbrev pub code_at : Text → ℕ → Bool
code_at s n =
    leb n (length s)
    && all is_code_unit (take n s)
    && starts_well s
    && ends_well (take n s)
    && not (starts_word (drop n s))

-- `a ?? b` of two lengths.
abbrev pub or_length : Option ℕ → Option ℕ → Option ℕ
or_length (some n) o = some n
or_length none o = o

-- A pattern at a place gives the length of its match.
abbrev pub Pattern : Type 0
Pattern = Text → Option ℕ

-- `\d{lo,lo+more}\b`
unfoldable pub digits : (lo more : ℕ) → Pattern
digits lo more s = greatest (digits_at s) lo more

-- `codeToken` without its first `\b`.
unfoldable pub code_token : Pattern
code_token s =
    or_length (digits 4 6 s) (if has_digit_ahead s then greatest (code_at s) 4 8 else none)

-- `text.match(…)?.[1]`, for a pattern after `\b` whose matches begin with the unit of a word.
unfoldable pub search_from : Pattern → (behind : Bool) → Text → Option Text
unfolding is_word
search_from p behind [] = none
search_from p behind (c ∷ s) =
    let rest = search_from p (is_word c) s in
    if behind then rest else elim (p (c ∷ s)) [ none ↦ rest | some n ↦ some (take n (c ∷ s)) ]

abbrev pub search : Pattern → Text → Option Text
search p s = search_from p false s

-- The loop over the keywords.
unfoldable pub first_code : List Text → Option Text
first_code [] = none
first_code (after ∷ rest) = elim (search code_token after) [
  | none ↦ first_code rest
  | some code ↦ some code
]

unfoldable pub guess_code : Text → Option Text
guess_code s =
    or_else (first_code (behind_keywords false 0 s))
      (or_else (search (digits 6 0) s) (search (digits 4 4) s))
