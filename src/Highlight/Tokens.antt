-- ===== src/Highlight/Tokens.antt =====
-- The tokens of web/src/lib/mimeHighlight.ts: `valueTokens`, `tokenize` and `highlightMime`.
use mailpeek.Prelude.{
  ℕ, zero, suc, ◌+◌, ◌-◌, Bool, true, false, not, ◌&&◌, ◌||◌, none, some, List, [], ◌∷◌, ◌++◌,
  reverse, ◌==◌, if◌then◌else◌, length, take, drop, any, Text, codes, text_eq, is_empty, trim_end,
  trim, starts_with,
}
use mailpeek.Highlight.Scan.{first_match, match_all}
use mailpeek.Highlight.Regex.{encoded_word, header_line, base64_line, boundary_param}

pub data Kind : Type 0 where
  name value encoded boundary base64 body : Kind

pub record RawToken : Type 0 where
  pub kind : Kind
  pub text : Text

pub record Token : Type 0 where
  pub raw : RawToken
  pub start : ℕ

pub record Line : Type 0 where
  pub offset : ℕ
  pub tokens : List Token

abbrev pub token : Kind → Text → RawToken
token k t = record { kind = k; text = t }

-- `if (at > last) out.push(…)`: no token for an empty slice.
abbrev pub value_slice : Text → List RawToken
value_slice [] = []
value_slice (c ∷ s) = token value (c ∷ s) ∷ []

-- The loop of `valueTokens`; each match takes something off the text, so its length is fuel enough.
unfoldable pub value_tokens_from : ℕ → Text → List RawToken
value_tokens_from zero text = value_slice text
value_tokens_from (suc fuel) text = elim (first_match encoded_word text) [
  | none ↦ value_slice text
  | some (before, word, rest) ↦
      value_slice before ++ (token encoded word ∷ value_tokens_from fuel rest)
]

unfoldable pub value_tokens : Text → List RawToken
value_tokens text = value_tokens_from (length text) text

-- `raw.split(/\r?\n/)`
abbrev pub cons_line : ℕ → List Text → List Text
cons_line c [] = (c ∷ []) ∷ []
cons_line c (line ∷ lines) = (c ∷ line) ∷ lines

abbrev pub newline : Text
newline = 10 ∷ []

unfoldable pub split_lines : Text → List Text
split_lines [] = [] ∷ []
split_lines (c ∷ s) =
    let rest = split_lines s in
    if c == 10
    then [] ∷ rest
    else if c == 13 && starts_with s newline
    then rest
    else cons_line c rest

abbrev pub dashes : Text
dashes = codes "--"

-- `s.endsWith(p)`
abbrev pub ends_with : Text → Text → Bool
ends_with s p = starts_with (reverse s) (reverse p)

-- `s.replace(/--\s*$/, "")`: what ends the text, white space aside, is dropped with that space.
abbrev drop_close : Text → Text
drop_close s = let t = trim_end s in if ends_with t dashes then take (length t - 2) t else s

-- The name that a delimiter line gives.
unfoldable pub delimiter_name : Text → Text
delimiter_name line = trim (drop_close (drop 2 line))

unfoldable pub is_closing : Text → Bool
is_closing line = ends_with (trim_end line) dashes

unfoldable pub is_delimiter : List Text → Text → Bool
is_delimiter boundaries line =
    starts_with line dashes && any (text_eq (delimiter_name line)) boundaries

-- `/^[ \t]/.test(line)`
unfoldable pub is_continuation : Text → Bool
is_continuation [] = false
is_continuation (c ∷ s) = c == 32 || c == 9

unfoldable pub body_token : Text → RawToken
body_token line = if base64_line line then token base64 line else token body line

-- A line of a header block that is no delimiter: its tokens, and whether headers go on.
unfoldable pub header_tokens : Text → List RawToken × Bool
header_tokens line = if is_empty line then ([], false) else elim (header_line line) [
  | some (field, content) ↦ (token name (field ++ (b':' ∷ [])) ∷ value_tokens content, true)
  | none ↦ if is_continuation line then (value_tokens line, true) else (body_token line ∷ [], true)
]

-- One round of the loop of `tokenize`.
unfoldable pub line_tokens : List Text → Bool → Text → List RawToken × Bool
line_tokens boundaries in_headers line =
    if is_delimiter boundaries line
    then (token boundary line ∷ [], not (is_closing line))
    else if in_headers
    then header_tokens line
    else (body_token line ∷ [], false)

unfoldable pub tokenize_lines : List Text → Bool → List Text → List (List RawToken)
tokenize_lines boundaries in_headers [] = []
tokenize_lines boundaries in_headers (line ∷ lines) =
    let (tokens, next) = line_tokens boundaries in_headers line in
    tokens ∷ tokenize_lines boundaries next lines

unfoldable pub tokenize : Text → List (List RawToken)
tokenize raw = tokenize_lines (match_all boundary_param (length raw) raw) true (split_lines raw)

-- `raws.map(…)` of `highlightMime`: each token with its place in the line, and the line's length.
unfoldable pub place : ℕ → List RawToken → List Token × ℕ
place start [] = ([], start)
place start (t ∷ ts) =
    let (tokens, end) = place (start + length t.text) ts in
    (record { raw = t; start = start } ∷ tokens, end)

unfoldable pub place_lines : ℕ → List (List RawToken) → List Line
place_lines offset [] = []
place_lines offset (raws ∷ rest) =
    let (tokens, end) = place 0 raws in
    record { offset = offset; tokens = tokens } ∷ place_lines (offset + end + 1) rest

unfoldable pub highlight_mime : Text → List Line
highlight_mime raw = place_lines 0 (tokenize raw)
