-- ===== src/Highlight/Encoded.antt =====
-- The encoded words of RFC 2047, as the program's regular expression describes them.
use mailpeek.Prelude.{
  ℕ, ◌≡◌, refl, true, false, not, ◌||◌, some, [], ◌∷◌, ◌++◌, arith, ◌==◌, Text, is_empty,
}
use mathlib.Core.List.{append_assoc}
use mailpeek.Highlight.Scan.{span, append-span, eat}
use mailpeek.Highlight.Regex.{check, encoding_at, encoded_word, word_unit}
use mailpeek.Highlight.Matches.{
  eat_eq_some, eat_self, check_eq_some, bind_cases, Every, span-Every, span_stops,
}

encoding_at_eq_some :
    (s : Text) {c : ℕ} {r : Text}
    → encoding_at s ≡ some (c, r)
    → (s ≡ c ∷ r) × ((c == b'B' || c == b'b' || c == b'Q' || c == b'q') ≡ true)
unfolding encoding_at
encoding_at_eq_some [] h = cc
encoding_at_eq_some (d ∷ s) h = ground arith

-- `=?charset?encoding?content?=`
abbrev pub spell : Text → ℕ → Text → Text
spell charset encoding content =
    b'=' ∷ b'?' ∷ (charset ++ (b'?' ∷ encoding ∷ b'?' ∷ (content ++ (b'?' ∷ b'=' ∷ []))))

pub record IsEncodedWord (m : Text) : Type 0 where
  pub charset : Text
  pub encoding : ℕ
  pub content : Text
  pub spelled : m ≡ spell charset encoding content
  pub some_charset : is_empty charset ≡ false
  pub charset_units : Every word_unit charset
  pub content_units : Every word_unit content
  pub known_encoding :
      (encoding == b'B' || encoding == b'b' || encoding == b'Q' || encoding == b'q') ≡ true

spell-append :
    (charset : Text) (encoding : ℕ) (content r : Text)
    → spell charset encoding content ++ r
      ≡ b'=' ∷ b'?' ∷ (charset ++ (b'?' ∷ encoding ∷ b'?' ∷ (content ++ (b'?' ∷ b'=' ∷ r))))
spell-append charset encoding content r = simp append_assoc

pub encoded_word_sound :
    (s m r : Text) → encoded_word s ≡ some (m, r) → IsEncodedWord m × (m ++ r ≡ s)
unfolding encoded_word
encoded_word_sound s m r h = bind_cases (eat b'=' s) _ h λ s₁ e₁ h₁.
    bind_cases (eat b'?' s₁) _ h₁ λ s₂ e₂ h₂.
      bind_cases (check (not (is_empty (span word_unit s₂).0))) _ h₂ λ u e h₃.
        bind_cases (eat b'?' (span word_unit s₂).1) _ h₃ λ s₃ e₃ h₄.
          bind_cases (encoding_at s₃) _ h₄ λ en e₄ h₅. bind_cases (eat b'?' en.1) _ h₅ λ s₄ e₅ h₆.
            bind_cases (eat b'?' (span word_unit s₄).1) _ h₆ λ s₅ e₆ h₇.
              bind_cases (eat b'=' s₅) _ h₇ λ s₆ e₇ h₈. (
                record {
                  charset = (span word_unit s₂).0;
                  encoding = en.0;
                  content = (span word_unit s₄).0;
                  spelled = cc;
                  some_charset =
                      ground (arith, check_eq_some (not (is_empty (span word_unit s₂).0)) e);
                  charset_units = span-Every word_unit s₂;
                  content_units = span-Every word_unit s₄;
                  known_encoding = (encoding_at_eq_some s₃ e₄).1;
                },
                cc (
                  spell-append (span word_unit s₂).0 en.0 (span word_unit s₄).0 s₆,
                  eat_eq_some b'=' s e₁,
                  eat_eq_some b'?' s₁ e₂,
                  append-span word_unit s₂,
                  eat_eq_some b'?' (span word_unit s₂).1 e₃,
                  (encoding_at_eq_some s₃ e₄).0,
                  eat_eq_some b'?' en.1 e₅,
                  append-span word_unit s₄,
                  eat_eq_some b'?' (span word_unit s₄).1 e₆,
                  eat_eq_some b'=' s₅ e₇,
                ),
              )

question_stops : word_unit b'?' ≡ false
unfolding word_unit
question_stops = refl

encoding_at_known :
    (c : ℕ) (s : Text)
    → (c == b'B' || c == b'b' || c == b'Q' || c == b'q') ≡ true
    → encoding_at (c ∷ s) ≡ some (c, s)
unfolding encoding_at
encoding_at_known c s h = rw (h, encoding_at)

encoded_word-spell :
    (charset : Text) (encoding : ℕ) (content r : Text)
    → is_empty charset ≡ false
    → Every word_unit charset
    → Every word_unit content
    → (encoding == b'B' || encoding == b'b' || encoding == b'Q' || encoding == b'q') ≡ true
    → encoded_word
        (b'=' ∷ b'?' ∷ (charset ++ (b'?' ∷ encoding ∷ b'?' ∷ (content ++ (b'?' ∷ b'=' ∷ r)))))
      ≡ some (spell charset encoding content, r)
unfolding encoded_word
encoded_word-spell charset encoding content r some_charset units content_units known = simp (
  eat_self,
  span_stops word_unit charset b'?' _ units question_stops,
  span_stops word_unit content b'?' _ content_units question_stops,
  some_charset,
  encoding_at_known encoding _ known,
)

pub encoded_word_complete : (m r : Text) → IsEncodedWord m → encoded_word (m ++ r) ≡ some (m, r)
encoded_word_complete m r w = cc (
  w.spelled,
  spell-append w.charset w.encoding w.content r,
  encoded_word-spell w.charset w.encoding w.content r w.some_charset w.charset_units w.content_units
      w.known_encoding,
)
