-- ===== src/Client/Html.antt =====
-- packages/client/src/email.ts: `htmlToText`, and `findCode`, which searches in its result. A regular
-- expression that matches at a place gives the length of the match; a pattern that the caller gives is
-- what `m[1] ?? m[0]` is for a text.
pub mod Escaped
pub mod Found
mod Tests
use mailpeek.Prelude.{
  ℕ, zero, suc, ◌+◌, ◌-◌, Bool, true, false, not, ◌&&◌, Option, none, some, [], ◌∷◌, ◌++◌, ◌==◌,
  if◌then◌else◌, length, take, drop, Text, codes, is_empty, is_space, trim, starts_with,
}
use mailpeek.Client.Code.{is_digit, between, guess_code}
use mailpeek.Client.Email.{Email, collapse}

abbrev pub Pattern : Type 0
Pattern = Text → Option ℕ

-- `s.replace(/…/g, replacement)`; `skip` units belong to the match before.
abbrev pub replace_from : Pattern → Text → (skip : ℕ) → Text → Text
replace_from p replacement skip [] = []
replace_from p replacement (suc skip) (c ∷ s) = replace_from p replacement skip s
replace_from p replacement zero (c ∷ s) = elim (p (c ∷ s)) [
  | none ↦ c ∷ replace_from p replacement zero s
  | some n ↦ replacement ++ replace_from p replacement (n - 1) s
]

unfoldable pub replace_all : Pattern → Text → Text → Text
replace_all p replacement s = replace_from p replacement 0 s

-- The flag `i`, for the names of elements.
abbrev pub fold : ℕ → ℕ
fold c = if between b'A' b'Z' c then c + 32 else c

-- Whether the text begins with `name`, written in small letters.
abbrev pub begins : Text → Text → Bool
begins [] s = true
begins (d ∷ name) [] = false
begins (d ∷ name) (c ∷ s) = d == fold c && begins name s

-- The place of the first such text.
abbrev pub first_place : Text → Text → Option ℕ
first_place name [] = none
first_place name (c ∷ s) =
    if begins name (c ∷ s)
    then some 0
    else elim (first_place name s) [ none ↦ none | some n ↦ some (suc n) ]

-- `<name[\s\S]*?<\/name>`
abbrev pub block : Text → Pattern
block name s =
    if begins (b'<' ∷ name) s
    then elim (first_place (codes "</" ++ (name ++ codes ">")) (drop (length name + 1) s)) [
      | none ↦ none
      | some n ↦ some (length name + 1 + n + (length name + 3))
    ]
    else none

abbrev pub or_length : Option ℕ → Option ℕ → Option ℕ
or_length (some n) o = some n
or_length none o = o

-- `<(style|script|head)[\s\S]*?<\/\1>`
unfoldable pub hidden : Pattern
hidden s =
    or_length (block (codes "style") s)
      (or_length (block (codes "script") s) (block (codes "head") s))

-- `\s*\/?>` behind `n` units.
abbrev pub line_break_end : ℕ → Pattern
line_break_end n [] = none
line_break_end n (c ∷ s) =
    let rest = line_break_end (n + 1) s in
    if is_space c
    then rest
    else if c == b'>'
    then some (n + 1)
    else if c == b'/' && begins (codes ">") s
    then some (n + 2)
    else none

-- A literal, which the name of an element may be.
abbrev pub literal : Text → Pattern
literal name s = if begins name s then some (length name) else none

-- `<\/h\d>`
abbrev pub heading : Pattern
heading (a ∷ (b ∷ (c ∷ (d ∷ (e ∷ s))))) =
    if begins (codes "</h") (a ∷ (b ∷ (c ∷ []))) && is_digit d && e == b'>' then some 5 else none
heading _ = none

-- `<br\s*\/?>|<\/(p|div|tr|h\d|li)>`
unfoldable pub new_line : Pattern
new_line s = or_length (if begins (codes "<br") s then line_break_end 3 (drop 3 s) else none) (
    or_length (literal (codes "</p>") s) (
      or_length (literal (codes "</div>") s) (
        or_length (literal (codes "</tr>") s) (or_length (heading s) (literal (codes "</li>") s)))))

-- `[^>]*>` behind `n` units.
abbrev pub tag_end : ℕ → Pattern
tag_end n [] = none
tag_end n (c ∷ s) = let rest = tag_end (n + 1) s in if c == b'>' then some (n + 1) else rest

-- `<[^>]+>`
unfoldable pub tag : Pattern
tag [] = none
tag (c ∷ []) = none
tag (c ∷ (d ∷ s)) = if c == b'<' && not (d == b'>') then tag_end 2 s else none

-- A pattern without the flag `i` that is a plain text.
unfoldable pub exactly : Text → Pattern
exactly t s = if starts_with s t then some (length t) else none

unfoldable pub decode : Text → Text
decode s = replace_all (exactly (codes "&#39;")) (codes "'") (
    replace_all (exactly (codes "&quot;")) (codes "\"") (
      replace_all (exactly (codes "&gt;")) (codes ">") (
        replace_all (exactly (codes "&lt;")) (codes "<") (
          replace_all (exactly (codes "&amp;")) (codes "&")
            (replace_all (exactly (codes "&nbsp;")) (codes " ") s)))))

unfoldable pub html_to_text : Text → Text
html_to_text html = decode (
    replace_all tag (codes " ")
      (replace_all new_line (codes "\n") (replace_all hidden (codes " ") html)))

-- `findCode` returns a code or throws an error that shows the start of the text.
pub data CodeSearch : Type 0 where
  found : Text → CodeSearch
  no_code : (preview : Text) → CodeSearch

unfoldable pub searched_text : Email → Text
searched_text e = if is_empty (trim e.text) then html_to_text e.html else e.text

abbrev pub preview_of : Text → Text
preview_of s = take 160 (trim (collapse s))

abbrev pub found_or : Text → Option Text → CodeSearch
found_or s none = no_code (preview_of s)
found_or s (some code) = found code

-- An empty code is falsy.
abbrev pub truthy_code : Option Text → Option Text
truthy_code none = none
truthy_code (some []) = none
truthy_code (some (c ∷ s)) = some (c ∷ s)

unfoldable pub find_code : Email → (pattern : Option (Text → Option Text)) → CodeSearch
find_code e none = found_or (searched_text e) (truthy_code (guess_code (searched_text e)))
find_code e (some match) = found_or (searched_text e) (match (searched_text e))
