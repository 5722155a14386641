-- ===== src/Highlight/Positions.antt =====
-- Where the tokens stand in the source.
use mailpeek.Prelude.{
  ℕ, ◌+◌, ◌≡◌, refl, ap, subst, ◌∙◌, List, [], ◌∷◌, ◌++◌, map, arith, length, All, length-append,
  Text,
}
use mathlib.Core.List.{append_assoc}
use mailpeek.Highlight.Tokens.{RawToken, Token, Line, tokenize, place, place_lines, highlight_mime}
use mailpeek.Highlight.Lossless.{
  text_of, text_of-tokenize, behind, join_lines, unix_newlines, join_lines-split_lines,
}

-- `w` stands in `whole`, `pos` units behind its start.
abbrev pub OccursAt : Text → ℕ → Text → Type 0
OccursAt whole pos w = (x : Text) × (y : Text) × (whole ≡ x ++ (w ++ y)) × (length x ≡ pos)

abbrev pub TokensOccur : Text → ℕ → List Token → Type 0
TokensOccur whole base = All (λ (t : Token). OccursAt whole (base + t.start) t.raw.text)

place-OccursAt :
    (before after : Text) (base start : ℕ) (ts : List RawToken)
    → length before ≡ base + start
    → TokensOccur (before ++ (text_of ts ++ after)) base (place start ts).0
unfolding place
place-OccursAt before after base start [] h = tt
place-OccursAt before after base start (t ∷ ts) h = (
  (before, text_of ts ++ after, rw (append_assoc t.text (text_of ts) after), h),
  subst (λ whole. TokensOccur whole base (place (start + length t.text) ts).0) (simp append_assoc)
      (place-OccursAt (before ++ t.text) after base (start + length t.text) ts
        (omega (arith, length-append before t.text))),
)

place_end : (start : ℕ) (ts : List RawToken) → (place start ts).1 ≡ start + length (text_of ts)
unfolding place
place_end start [] = omega arith
place_end start (t ∷ ts) =
    omega (arith, place_end (start + length t.text) ts, length-append t.text (text_of ts))

abbrev pub LinesOccur : Text → List Line → Type 0
LinesOccur whole = All (λ (l : Line). TokensOccur whole l.offset l.tokens)

place_lines-OccursAt :
    (before : Text) (offset : ℕ) (raws : List (List RawToken))
    → length before ≡ offset
    → LinesOccur (before ++ join_lines (map text_of raws)) (place_lines offset raws)
unfolding place_lines
place_lines-OccursAt before offset [] h = tt
place_lines-OccursAt before offset (ts ∷ []) h =
    (place-OccursAt before [] offset 0 ts (omega arith), tt)
place_lines-OccursAt before offset (ts ∷ us ∷ raws) h = (
  place-OccursAt before (behind (map text_of (us ∷ raws))) offset 0 ts (omega arith),
  subst (λ whole. LinesOccur whole (place_lines (offset + (place 0 ts).1 + 1) (us ∷ raws)))
      (simp append_assoc)
      (place_lines-OccursAt (before ++ (text_of ts ++ (10 ∷ []))) (offset + (place 0 ts).1 + 1)
        (us ∷ raws)
        (omega (
          arith,
          place_end 0 ts,
          length-append before (text_of ts ++ (10 ∷ [])),
          length-append (text_of ts) (10 ∷ []),
        ))),
)

-- Every token of every line stands in the source, "\r\n" turned into "\n", exactly `start` units
-- behind the line's `offset`.
pub highlight_mime-LinesOccur : (raw : Text) → LinesOccur (unix_newlines raw) (highlight_mime raw)
unfolding highlight_mime
highlight_mime-LinesOccur raw =
    subst (λ whole. LinesOccur whole (place_lines 0 (tokenize raw)))
      (ap join_lines (text_of-tokenize raw) ∙ join_lines-split_lines raw)
      (place_lines-OccursAt [] 0 (tokenize raw) refl)
