-- ===== src/I18n/Translate.antt =====
-- web/src/i18n/context.ts and messages.ts: a text with its variables filled in. The placeholders are
-- found as the regular expression does, from the left, and read on behind each. `vars` is read by its
-- own keys; no text names a property of `Object.prototype`.
use mailpeek.Prelude.{
  ℕ, zero, suc, Bool, ◌&&◌, ◌||◌, Option, none, some, get_or, List, [], ◌∷◌, ◌++◌, leb, ◌==◌,
  if◌then◌else◌, length, Text, text_eq,
}
use mailpeek.I18n.Keys.{MessageKey}
use mailpeek.I18n.EnUs.{en_us}
use mailpeek.I18n.EsEs.{es_es}
use mailpeek.I18n.FrFr.{fr_fr}
use mailpeek.I18n.PtBr.{pt_br}
use mailpeek.I18n.PtPt.{pt_pt}

pub data Locale : Type 0 where
  locale_en_us locale_en_gb locale_pt_br locale_pt_pt locale_es_es locale_fr_fr : Locale

-- `messages[locale]`
unfoldable pub messages : Locale → MessageKey → Text
messages locale_en_us = en_us
messages locale_en_gb = en_us
messages locale_pt_br = pt_br
messages locale_pt_pt = pt_pt
messages locale_es_es = es_es
messages locale_fr_fr = fr_fr

-- `\w`
abbrev pub is_word : ℕ → Bool
is_word c =
    (leb b'a' c && leb c b'z')
    || (leb b'A' c && leb c b'Z')
    || (leb b'0' c && leb c b'9')
    || c == b'_'

-- The longest run of `\w` at the start, and the rest.
abbrev pub span_word : Text → Text × Text
span_word [] = ([], [])
span_word (c ∷ s) =
    let (word, rest) = span_word s in if is_word c then (c ∷ word, rest) else ([], c ∷ s)

-- What follows a name: the brace that ends the placeholder.
abbrev pub close_brace : Text → Text → Option (Text × Text)
close_brace [] rest = none
close_brace (w ∷ word) [] = none
close_brace (w ∷ word) (c ∷ rest) = if c == b'}' then some (w ∷ word, rest) else none

-- `/\{(\w+)\}/` at the start of a text: the name, and the text behind the match.
abbrev pub placeholder_at : Text → Option (Text × Text)
placeholder_at [] = none
placeholder_at (c ∷ s) =
    let (word, rest) = span_word s in if c == b'{' then close_brace word rest else none

pub data Part : Type 0 where
  unit : ℕ → Part
  hole : Text → Part

-- A text as units and placeholders; the fuel is the length of the text.
unfoldable pub parts_from : ℕ → Text → List Part
parts_from zero s = []
parts_from (suc n) [] = []
parts_from (suc n) (c ∷ s) = elim (placeholder_at (c ∷ s)) [
  | none ↦ unit c ∷ parts_from n s
  | some (name, rest) ↦ hole name ∷ parts_from n rest
]

unfoldable pub parts : Text → List Part
parts s = parts_from (length s) s

abbrev pub Vars : Type 0
Vars = List (Text × Text)

abbrev pub lookup_var : Vars → Text → Option Text
lookup_var [] name = none
lookup_var ((k, v) ∷ vars) name =
    let rest = lookup_var vars name in if text_eq k name then some v else rest

-- The match itself where the variable is missing.
abbrev pub source : Part → Text
source (unit c) = c ∷ []
source (hole name) = b'{' ∷ (name ++ (b'}' ∷ []))

abbrev pub fill : Vars → Part → Text
fill vars (unit c) = c ∷ []
fill vars (hole name) = get_or (lookup_var vars name) (source (hole name))

abbrev pub render : (Part → Text) → List Part → Text
render f [] = []
render f (p ∷ ps) = f p ++ render f ps

unfoldable pub translate : Locale → MessageKey → Vars → Text
translate locale key vars = render (fill vars) (parts (messages locale key))
