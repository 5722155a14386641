-- ===== src/Highlight/Regex.antt =====
-- The four regular expressions of web/src/lib/mimeHighlight.ts.
use mailpeek.Prelude.{
  ℕ, ◌+◌, Bool, true, false, not, ◌&&◌, ◌||◌, Option, none, some, [], ◌∷◌, ◌++◌, leb, ◌==◌,
  if◌then◌else◌, length, any, Text, codes, is_empty, is_space,
}
use mailpeek.Highlight.Scan.{Matcher, span, eat}

infixl 5 ◌>>=◌ ◌>>◌
abbrev pub ◌>>=◌ {ℓ κ} : {A : Type ℓ} {B : Type κ} → Option A → (A → Option B) → Option B
none >>= k = none
some a >>= k = k a

abbrev pub ◌>>◌ {ℓ} : {B : Type ℓ} → Option (Unit {0}) → Option B → Option B
m >> k = m >>= λ _. k

abbrev pub check : Bool → Option (Unit {0})
check true = some tt
check false = none

abbrev pub between : ℕ → ℕ → ℕ → Bool
between lo hi c = leb lo c && leb c hi

-- `[^?\s]`
unfoldable pub word_unit : ℕ → Bool
unfolding is_space
word_unit c = not (c == b'?') && not (is_space c)

-- `[BbQq]`, and the text behind it.
unfoldable pub encoding_at : Matcher ℕ
encoding_at [] = none
encoding_at (c ∷ s) = elim (c == b'B' || c == b'b' || c == b'Q' || c == b'q') [
  | true ↦ some (c, s)
  | false ↦ none
]

-- `encodedWord`: `=\?[^?\s]+\?[BbQq]\?[^?\s]*\?=`, with the whole match as its capture.
unfoldable pub encoded_word : Matcher Text
unfolding span eat encoding_at word_unit
encoded_word s = do
  s₁ ← eat b'=' s
  s₂ ← eat b'?' s₁
  let charset = span word_unit s₂
  check (not (is_empty charset.0))
  s₃ ← eat b'?' charset.1
  encoding ← encoding_at s₃
  s₄ ← eat b'?' encoding.1
  let content = span word_unit s₄
  s₅ ← eat b'?' content.1
  s₆ ← eat b'=' s₅
  some (
    b'=' ∷ b'?' ∷ (charset.0 ++ (b'?' ∷ encoding.0 ∷ b'?' ∷ (content.0 ++ (b'?' ∷ b'=' ∷ [])))),
    s₆,
  )

-- `[!-9;-~]`
abbrev pub name_unit : ℕ → Bool
name_unit c = between b'!' b'9' c || between b';' b'~' c

-- What `.` does not match.
abbrev pub line_terminator : ℕ → Bool
line_terminator c = c == 10 || c == 13 || c == 0x2028 || c == 0x2029

-- `headerLine`: `^([!-9;-~]+):(.*)$`, with its two groups.
unfoldable pub header_line : Text → Option (Text × Text)
unfolding span eat
header_line line = do
  let name = span name_unit line
  check (not (is_empty name.0))
  value ← eat b':' name.1
  check (not (any line_terminator value))
  some (name.0, value)

-- `[A-Za-z0-9+/]`
abbrev pub base64_unit : ℕ → Bool
base64_unit c =
    between b'A' b'Z' c || between b'a' b'z' c || between b'0' b'9' c || c == b'+' || c == b'/'

abbrev padding : Text → Bool
padding [] = true
padding (c ∷ []) = c == b'='
padding (c ∷ d ∷ []) = c == b'=' && d == b'='
padding (c ∷ d ∷ e ∷ s) = false

-- `base64Line`: `^[A-Za-z0-9+/]{40,}={0,2}$`
unfoldable pub base64_line : Text → Bool
unfolding span
base64_line line = let parts = span base64_unit line in leb 40 (length parts.0) && padding parts.1

-- A unit of a case-insensitive pattern without the `u` flag: only ASCII letters fold to one another.
abbrev fold_ascii : ℕ → ℕ
fold_ascii c = if between b'A' b'Z' c then c + 32 else c

-- The given lower-case word, whatever its case in the text.
unfoldable pub eat_word : Text → Text → Option Text
eat_word [] s = some s
eat_word (w ∷ ws) [] = none
eat_word (w ∷ ws) (c ∷ s) =
    let rest = eat_word ws s in elim (fold_ascii c == w) [ true ↦ rest | false ↦ none ]

-- `"?`
unfoldable pub skip_quote : Text → Text
skip_quote [] = []
skip_quote (c ∷ s) = elim (c == b'"') [ true ↦ s | false ↦ c ∷ s ]

-- `[^";\s]`
abbrev pub boundary_unit : ℕ → Bool
boundary_unit c = not (c == b'"') && not (c == b';') && not (is_space c)

-- `boundaryParam`: `boundary\s*=\s*"?([^";\s]+)"?`, with its group.
unfoldable pub boundary_param : Matcher Text
unfolding span eat eat_word skip_quote is_space
boundary_param s = do
  s₁ ← eat_word (codes "boundary") s
  s₂ ← eat b'=' (span is_space s₁).1
  let name = span boundary_unit (skip_quote (span is_space s₂).1)
  check (not (is_empty name.0))
  some (name.0, skip_quote name.1)
