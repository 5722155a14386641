-- ===== src/Highlight/Lossless.antt =====
-- The tokens of the highlighter, side by side, are the lines of the source.
use mailpeek.Prelude.{
  ℕ, zero, suc, ◌+◌, ◌≡◌, refl, sym, ap, ◌∙◌, inl, inr, Bool, true, not, ◌&&◌, some, List, [], ◌∷◌,
  ◌++◌, map, arith, ◌==◌, if◌then◌else◌, Bool-cases, Option-cases, length, any, Text, is_empty,
  starts_with,
}
use mathlib.Core.List.{append-nil, append_assoc}
use mailpeek.Highlight.Scan.{first_match, span, append-span, eat}
use mailpeek.Highlight.Regex.{check, name_unit, line_terminator, encoded_word, header_line}
use mailpeek.Highlight.Matches.{first_match_split, bind_cases, eat_eq_some}
use mailpeek.Highlight.Encoded.{encoded_word_sound}
use mailpeek.Highlight.Tokens.{
  RawToken, Token, Line, value_slice, value_tokens_from, value_tokens, cons_line, newline,
  split_lines, body_token, header_tokens, line_tokens, tokenize_lines, tokenize, place, place_lines,
  highlight_mime,
}

abbrev pub text_of : List RawToken → Text
text_of [] = []
text_of (t ∷ ts) = t.text ++ text_of ts

text_of-append : (xs ys : List RawToken) → text_of (xs ++ ys) ≡ text_of xs ++ text_of ys
text_of-append [] ys = refl
text_of-append (x ∷ xs) ys =
    rw (text_of-append xs ys) (sym (append_assoc x.text (text_of xs) (text_of ys)))

text_of-value_slice : (s : Text) → text_of (value_slice s) ≡ s
text_of-value_slice [] = refl
text_of-value_slice (c ∷ s) = append-nil _

text_of-value_tokens_from : (fuel : ℕ) (s : Text) → text_of (value_tokens_from fuel s) ≡ s
unfolding value_tokens_from
text_of-value_tokens_from zero s = text_of-value_slice s
text_of-value_tokens_from (suc fuel) s = elim (Option-cases (first_match encoded_word s)) [
  | inl e ↦ rw (e, value_tokens_from) (text_of-value_slice s)
  | inr ((b, m, r), e) ↦
      let (w, hit, split) = first_match_split encoded_word s e in
      rw (e, value_tokens_from)
        (cc (
          text_of-append (value_slice b) _,
          text_of-value_slice b,
          text_of-value_tokens_from fuel r,
          (encoded_word_sound w m r hit).1,
          split,
        ))
]

text_of-value_tokens : (s : Text) → text_of (value_tokens s) ≡ s
unfolding value_tokens
text_of-value_tokens s = text_of-value_tokens_from (length s) s

header_line_text : (line f v : Text) → header_line line ≡ some (f, v) → f ++ (b':' ∷ v) ≡ line
unfolding header_line
header_line_text line f v h =
    bind_cases (check (not (is_empty (span name_unit line).0))) _ h λ u e₁ h₁.
      bind_cases (eat b':' (span name_unit line).1) _ h₁ λ s e₂ h₂.
        bind_cases (check (not (any line_terminator s))) _ h₂
          λ u' e₃ h₃. cc (append-span name_unit line, eat_eq_some b':' (span name_unit line).1 e₂)

text_of-body_token : (line : Text) → text_of (body_token line ∷ []) ≡ line
unfolding body_token
text_of-body_token line = ground (arith, append-nil line)

text_of-header_tokens : (line : Text) → text_of (header_tokens line).0 ≡ line
unfolding header_tokens
text_of-header_tokens [] = refl
text_of-header_tokens (c ∷ s) = elim (Option-cases (header_line (c ∷ s))) [
  | inl e ↦ ground (arith, text_of-value_tokens (c ∷ s), text_of-body_token (c ∷ s))
  | inr ((f, v), e) ↦
      rw (e, header_tokens)
        (cc (
          append_assoc f (b':' ∷ []) (text_of (value_tokens v)),
          text_of-value_tokens v,
          header_line_text (c ∷ s) f v e,
        ))
]

text_of-line_tokens :
    (bs : List Text) (in_headers : Bool) (line : Text)
    → text_of (line_tokens bs in_headers line).0 ≡ line
unfolding line_tokens
text_of-line_tokens bs in_headers line =
    ground (arith, append-nil line, text_of-header_tokens line, text_of-body_token line)

text_of-tokenize_lines :
    (bs : List Text) (in_headers : Bool) (lines : List Text)
    → map text_of (tokenize_lines bs in_headers lines) ≡ lines
unfolding tokenize_lines
text_of-tokenize_lines bs in_headers [] = refl
text_of-tokenize_lines bs in_headers (line ∷ lines) = cc (
  text_of-line_tokens bs in_headers line,
  text_of-tokenize_lines bs (line_tokens bs in_headers line).1 lines,
)

-- Each line's tokens spell that line.
pub text_of-tokenize : (raw : Text) → map text_of (tokenize raw) ≡ split_lines raw
unfolding tokenize
text_of-tokenize raw = text_of-tokenize_lines _ true (split_lines raw)

abbrev pub behind : List Text → Text
behind [] = []
behind (l ∷ ls) = 10 ∷ (l ++ behind ls)

-- `lines.join("\n")`
abbrev pub join_lines : List Text → Text
join_lines [] = []
join_lines (l ∷ ls) = l ++ behind ls

-- The text with each line ending "\r\n" turned into "\n".
abbrev pub unix_newlines : Text → Text
unix_newlines [] = []
unix_newlines (c ∷ s) =
    let rest = unix_newlines s in if c == 13 && starts_with s newline then rest else c ∷ rest

split_lines-cons : (s : Text) → (l : Text) × (ls : List Text) × (split_lines s ≡ l ∷ ls)
unfolding split_lines
split_lines-cons [] = ([], [], refl)
split_lines-cons (c ∷ s) =
    let (l, ls, e) = split_lines-cons s in
    elim (Bool-cases (c == 10)) [
      | inl h ↦ ([], l ∷ ls, rw (h, e))
      | inr h ↦ elim (Bool-cases (c == 13 && starts_with s newline)) [
        | inl k ↦ (l, ls, rw (h, k, e))
        | inr k ↦ (c ∷ l, ls, rw (h, k, e))
      ]
    ]

join_lines-cons_line : (c : ℕ) (ls : List Text) → join_lines (cons_line c ls) ≡ c ∷ join_lines ls
join_lines-cons_line c [] = refl
join_lines-cons_line c (l ∷ ls) = refl

pub join_lines-split_lines : (s : Text) → join_lines (split_lines s) ≡ unix_newlines s
unfolding split_lines
join_lines-split_lines [] = refl
join_lines-split_lines (c ∷ s) =
    let (l, ls, e) = split_lines-cons s in
    ground (arith, e, join_lines-split_lines s, join_lines-cons_line c (split_lines s))

map-raw-place :
    (start : ℕ) (ts : List RawToken) → map (λ (t : Token). t.raw) (place start ts).0 ≡ ts
unfolding place
map-raw-place start [] = refl
map-raw-place start (t ∷ ts) = ap (◌∷◌ t) (map-raw-place (start + length t.text) ts)

abbrev pub line_text : Line → Text
line_text l = text_of (map (λ (t : Token). t.raw) l.tokens)

map-line_text-place_lines :
    (offset : ℕ) (raws : List (List RawToken))
    → map line_text (place_lines offset raws) ≡ map text_of raws
unfolding place_lines
map-line_text-place_lines offset [] = refl
map-line_text-place_lines offset (ts ∷ raws) =
    cc (map-raw-place 0 ts, map-line_text-place_lines (offset + (place 0 ts).1 + 1) raws)

-- Highlighting loses nothing: for any source, the texts of the tokens of each line, joined, and the
-- lines joined by "\n", are the source with "\r\n" turned into "\n".
pub join_lines-highlight_mime :
    (raw : Text) → join_lines (map line_text (highlight_mime raw)) ≡ unix_newlines raw
unfolding highlight_mime
join_lines-highlight_mime raw =
    ap join_lines (map-line_text-place_lines 0 (tokenize raw) ∙ text_of-tokenize raw)
    ∙ join_lines-split_lines raw
