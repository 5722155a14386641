-- ===== src/Highlight/Words.antt =====
-- Which parts of a header value are coloured as encoded words.
use mailpeek.Prelude.{
  ℕ, zero, suc, ◌≤◌, ◌<◌, ◌≡◌, ap, inl, inr, none, some, List, [], ◌∷◌, ◌++◌, arith, Option-cases,
  length, All, length-append, Text,
}
use mathlib.Core.List.{append_assoc}
use mailpeek.Highlight.Scan.{first_match}
use mailpeek.Highlight.Regex.{encoded_word}
use mailpeek.Highlight.Matches.{first_match-none, first_match_leftmost, first_match_split}
use mailpeek.Highlight.Encoded.{IsEncodedWord, encoded_word_sound, encoded_word_complete}
use mailpeek.Highlight.Tokens.{
  Kind, value, encoded, RawToken, value_slice, value_tokens_from, value_tokens,
}

-- No part of the text is an encoded word.
abbrev pub HasNoWord : Text → Type 0
HasNoWord s = (x m y : Text) → s ≡ x ++ (m ++ y) → ¬ IsEncodedWord m

abbrev pub Fits : Kind → Text → Type 0
Fits value s = HasNoWord s
Fits encoded s = IsEncodedWord s
Fits _ s = ⊥

abbrev pub AllFit : List RawToken → Type 0
AllFit = All (λ (t : RawToken). Fits t.kind t.text)

value_slice-AllFit : (s : Text) → HasNoWord s → AllFit (value_slice s)
value_slice-AllFit [] h = tt
value_slice-AllFit (c ∷ s) h = (h, tt)

AllFit-append : (xs ys : List RawToken) → AllFit xs → AllFit ys → AllFit (xs ++ ys)
AllFit-append [] ys h k = k
AllFit-append (x ∷ xs) ys h k = (h.0, AllFit-append xs ys h.1 k)

IsEncodedWord-front : (m : Text) → IsEncodedWord m → (m' : Text) × (m ≡ b'=' ∷ m')
IsEncodedWord-front m w = (_, w.spelled)

none-HasNoWord : (s : Text) → first_match encoded_word s ≡ none → HasNoWord s
none-HasNoWord s h x m y e w =
    let (m', front) = IsEncodedWord-front m w in
    cc (
      front,
      encoded_word_complete m y w,
      first_match-none encoded_word s h x b'=' (m' ++ y) (cc (front, e)),
    )

before-HasNoWord : (s b m r : Text) → first_match encoded_word s ≡ some (b, m, r) → HasNoWord b
before-HasNoWord s b m r h x w y e word =
    let (n, hit, split) = first_match_split encoded_word s h in
    let (w', front) = IsEncodedWord-front w word in
    let shorter : length x < length b =
      omega (arith, ap length e, ap length front, length-append x (w ++ y), length-append w y) in
    let regroup : x ++ (w ++ (y ++ n)) ≡ s =
      cc (e, split, append_assoc x (w ++ y) n, append_assoc w y n) in
    cc (
      encoded_word_complete w (y ++ n) word,
      first_match_leftmost encoded_word s b r m h x (w ++ (y ++ n)) regroup shorter,
    )

value_tokens_from-AllFit :
    (fuel : ℕ) (s : Text) → length s ≤ fuel → AllFit (value_tokens_from fuel s)
unfolding value_tokens_from
value_tokens_from-AllFit zero [] h = tt
value_tokens_from-AllFit zero (c ∷ s) h = absurd (omega arith)
value_tokens_from-AllFit (suc fuel) s h = elim (Option-cases (first_match encoded_word s)) [
  | inl e ↦ rw (e, value_tokens_from) (value_slice-AllFit s (none-HasNoWord s e))
  | inr ((b, m, r), e) ↦
      let (n, hit, split) = first_match_split encoded_word s e in
      let (word, whole) = encoded_word_sound n m r hit in
      rw (e, value_tokens_from)
        (AllFit-append (value_slice b) _ (value_slice-AllFit b (before-HasNoWord s b m r e)) (
          word,
          value_tokens_from-AllFit fuel r (
              omega (
                arith,
                ap length split,
                ap length whole,
                length-append b n,
                length-append m r,
                ap length (IsEncodedWord-front m word).1,
              )),
        ))
]

-- A header value is split exactly at its encoded words: each `encoded` token is one encoded word,
-- every other token is a `value` that has no encoded word in it.
pub value_tokens-AllFit : (s : Text) → AllFit (value_tokens s)
unfolding value_tokens
value_tokens-AllFit s = value_tokens_from-AllFit (length s) s (omega arith)
