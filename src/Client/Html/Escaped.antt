-- ===== src/Client/Html/Escaped.antt =====
-- packages/client/src/email.ts: `htmlToText` on escaped text.
use mailpeek.Prelude.{
  ℕ, ◌≡◌, refl, ap, ◌∙◌, ◌≢◌, true, false, not, none, [], ◌∷◌, ◌++◌, arith, ◌==◌, if◌then◌else◌,
  all, Text, codes,
}
use mailpeek.Client.Html.{
  Pattern, replace_from, replace_all, hidden, new_line, heading, tag, exactly, decode, html_to_text,
  fold,
}

-- Each unit of the text in its place by the text that stands for it.
abbrev pub flat : (ℕ → Text) → Text → Text
flat f [] = []
flat f (c ∷ s) = f c ++ flat f s

abbrev apostrophe : ℕ → Text
apostrophe c = if c == b'\'' then codes "&#39;" else c ∷ []

abbrev quotes : ℕ → Text
quotes c = if c == b'"' then codes "&quot;" else apostrophe c

abbrev greater : ℕ → Text
greater c = if c == b'>' then codes "&gt;" else quotes c

abbrev pub entity : ℕ → Text
entity c = if c == b'<' then codes "&lt;" else greater c

-- The text as HTML shows it.
abbrev pub escape : Text → Text
escape s = flat entity s

-- A replacement that turns what stands for each unit into what stands for it by another rule.
flat_step :
    (p : Pattern) (r : Text) (f g : ℕ → Text)
    → ((c : ℕ) (s : Text) → c ≢ b'&' → replace_from p r 0 (f c ++ s) ≡ g c ++ replace_from p r 0 s)
    → (s : Text) → all (λ c. not (c == b'&')) s ≡ true
    → replace_all p r (flat f s) ≡ flat g s
unfolding replace_all
flat_step p r f g step [] h = refl
flat_step p r f g step (c ∷ s) h =
    step c (flat f s) (ground arith) ∙ ap (◌++◌ (g c)) (flat_step p r f g step s (ground arith))

flat_id : (s : Text) → flat (λ c. c ∷ []) s ≡ s
flat_id [] = refl
flat_id (c ∷ s) = ap (◌∷◌ c) (flat_id s)

-- A pattern that begins with "<" is found in no text without it.
unmatched :
    (p : Pattern) (r : Text)
    → ((c : ℕ) (s : Text) → c ≢ b'<' → p (c ∷ s) ≡ none)
    → (s : Text) → all (λ c. not (c == b'<')) s ≡ true
    → replace_all p r s ≡ s
unfolding replace_all
unmatched p r miss [] h = refl
unmatched p r miss (c ∷ s) h =
    let e = miss c s (ground arith) in
    let rest = unmatched p r miss s (ground arith) in ground arith

fold_other : (c : ℕ) → c ≢ b'<' → (b'<' == fold c) ≡ false
fold_other c h = ground arith

heading-none : (c : ℕ) (s : Text) → c ≢ b'<' → heading (c ∷ s) ≡ none
heading-none c [] h = refl
heading-none c (d ∷ []) h = refl
heading-none c (d ∷ (e ∷ [])) h = refl
heading-none c (d ∷ (e ∷ (f ∷ []))) h = refl
heading-none c (d ∷ (e ∷ (f ∷ (g ∷ s)))) h = rw (fold_other c h)

hidden-none : (c : ℕ) (s : Text) → c ≢ b'<' → hidden (c ∷ s) ≡ none
unfolding hidden
hidden-none c s h = rw (fold_other c h)

new_line-none : (c : ℕ) (s : Text) → c ≢ b'<' → new_line (c ∷ s) ≡ none
unfolding new_line
new_line-none c s h = rw (fold_other c h, heading-none c s h)

tag-none : (c : ℕ) (s : Text) → c ≢ b'<' → tag (c ∷ s) ≡ none
unfolding tag
tag-none c [] h = refl
tag-none c (d ∷ s) h = ground arith

lt_step :
    (c : ℕ) (s : Text)
    → c ≢ b'&'
    → replace_from (exactly (codes "&lt;")) (codes "<") 0 (entity c ++ s)
      ≡ greater c ++ replace_from (exactly (codes "&lt;")) (codes "<") 0 s
unfolding exactly
lt_step c s h = ground arith

gt_step :
    (c : ℕ) (s : Text)
    → c ≢ b'&'
    → replace_from (exactly (codes "&gt;")) (codes ">") 0 (greater c ++ s)
      ≡ quotes c ++ replace_from (exactly (codes "&gt;")) (codes ">") 0 s
unfolding exactly
gt_step c s h = ground arith

quot_step :
    (c : ℕ) (s : Text)
    → c ≢ b'&'
    → replace_from (exactly (codes "&quot;")) (codes "\"") 0 (quotes c ++ s)
      ≡ apostrophe c ++ replace_from (exactly (codes "&quot;")) (codes "\"") 0 s
unfolding exactly
quot_step c s h = ground arith

apos_step :
    (c : ℕ) (s : Text)
    → c ≢ b'&'
    → replace_from (exactly (codes "&#39;")) (codes "'") 0 (apostrophe c ++ s)
      ≡ (c ∷ []) ++ replace_from (exactly (codes "&#39;")) (codes "'") 0 s
unfolding exactly
apos_step c s h = ground arith

amp_step :
    (c : ℕ) (s : Text)
    → c ≢ b'&'
    → replace_from (exactly (codes "&amp;")) (codes "&") 0 (entity c ++ s)
      ≡ entity c ++ replace_from (exactly (codes "&amp;")) (codes "&") 0 s
unfolding exactly
amp_step c s h = ground arith

nbsp_step :
    (c : ℕ) (s : Text)
    → c ≢ b'&'
    → replace_from (exactly (codes "&nbsp;")) (codes " ") 0 (entity c ++ s)
      ≡ entity c ++ replace_from (exactly (codes "&nbsp;")) (codes " ") 0 s
unfolding exactly
nbsp_step c s h = ground arith

escape-unmarked : (s : Text) → all (λ c. not (c == b'<')) (escape s) ≡ true
escape-unmarked [] = refl
escape-unmarked (c ∷ s) = ground (arith, escape-unmarked s)

decode-escape : (s : Text) → all (λ c. not (c == b'&')) s ≡ true → decode (escape s) ≡ s
unfolding decode
decode-escape s h = rw (
  flat_step (exactly (codes "&nbsp;")) (codes " ") entity entity nbsp_step s h,
  flat_step (exactly (codes "&amp;")) (codes "&") entity entity amp_step s h,
  flat_step (exactly (codes "&lt;")) (codes "<") entity greater lt_step s h,
  flat_step (exactly (codes "&gt;")) (codes ">") greater quotes gt_step s h,
  flat_step (exactly (codes "&quot;")) (codes "\"") quotes apostrophe quot_step s h,
  flat_step (exactly (codes "&#39;")) (codes "'") apostrophe (λ c. c ∷ []) apos_step s h,
  flat_id s,
)

-- A text without "&", escaped as HTML by an entity for each of `<`, `>` and the two quotes, is read back
-- as it was.
pub html_to_text-escape :
    (s : Text) → all (λ c. not (c == b'&')) s ≡ true → html_to_text (escape s) ≡ s
unfolding html_to_text
html_to_text-escape s h =
    let e = escape-unmarked s in
    rw (
      unmatched hidden (codes " ") hidden-none (escape s) e,
      unmatched new_line (codes "\n") new_line-none (escape s) e,
      unmatched tag (codes " ") tag-none (escape s) e,
      decode-escape s h,
    )
