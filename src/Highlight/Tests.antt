-- ===== src/Highlight/Tests.antt =====
-- Runs of the highlighter, and its theorems at concrete inputs.
use mailpeek.Prelude.{◌≡◌, refl, [], ◌∷◌, ◌++◌, map, Text, codes, trim_start, trim_end, trim}
use mailpeek.Highlight.Scan.{first_match, match_all}
use mailpeek.Highlight.Regex.{encoded_word, header_line, base64_line, boundary_param}
use mailpeek.Highlight.Lossless.{join_lines, line_text, unix_newlines, join_lines-highlight_mime}
use mailpeek.Highlight.Positions.{LinesOccur, highlight_mime-LinesOccur}
use mailpeek.Highlight.Words.{AllFit, value_tokens-AllFit}
use mailpeek.Highlight.Tokens.{
  highlight_mime, place_lines, place, tokenize_lines, line_tokens, header_tokens, body_token,
  is_delimiter, is_closing, is_continuation, delimiter_name, split_lines, value_tokens_from, token,
  name, value, encoded, boundary, body, value_tokens, tokenize,
}

abbrev mail : Text
mail =
    codes "A: =?x?q?y?= z"
    ++ (13 ∷ 10 ∷ codes "B: boundary=\"q\""
        ++ (10 ∷ 10 ∷ codes "hi" ++ (10 ∷ codes "--q--" ++ (10 ∷ []))))

highlighter : Unit {0}
unfolding highlight_mime place_lines place tokenize tokenize_lines line_tokens header_tokens
    body_token is_delimiter is_closing is_continuation delimiter_name split_lines value_tokens
    value_tokens_from base64_line boundary_param header_line encoded_word match_all first_match trim
    trim_start trim_end
highlighter = tt

mail_tokens :
    tokenize mail
    ≡ (token name (codes "A:")
        ∷ token value (codes " ")
        ∷ token encoded (codes "=?x?q?y?=")
        ∷ token value (codes " z")
        ∷ [])
      ∷ (token name (codes "B:") ∷ token value (codes " boundary=\"q\"") ∷ [])
      ∷ []
      ∷ (token body (codes "hi") ∷ [])
      ∷ (token boundary (codes "--q--") ∷ [])
      ∷ (token body [] ∷ [])
      ∷ []
unfolding highlighter
mail_tokens = refl

abbrev tricky : Text
tricky = codes "a =?x?q?y?= =?no?="

value_tokens_example :
    value_tokens tricky
    ≡ token value (codes "a ")
      ∷ token encoded (codes "=?x?q?y?=")
      ∷ token value (codes " =?no?=")
      ∷ []
unfolding highlighter
value_tokens_example = refl

join_lines-highlight_mime_example :
    join_lines (map line_text (highlight_mime mail)) ≡ unix_newlines mail
join_lines-highlight_mime_example = join_lines-highlight_mime mail

highlight_mime-LinesOccur_example : LinesOccur (unix_newlines mail) (highlight_mime mail)
highlight_mime-LinesOccur_example = highlight_mime-LinesOccur mail

value_tokens-AllFit_example : AllFit (value_tokens tricky)
value_tokens-AllFit_example = value_tokens-AllFit tricky
