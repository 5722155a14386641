-- ===== src/I18n/Locales.antt =====
-- web/src/i18n/locale.ts: the language that a browser asks for, and the one that is saved. `lower` is
-- `toLowerCase`.
pub mod Match
use mailpeek.Prelude.{
  Option, none, some, List, [], ◌∷◌, ◌++◌, ◌==◌, if◌then◌else◌, find, any, Text, codes, text_eq,
  trim,
}
use mailpeek.Storage.{Storage, get_item, set_item, remove_item}
use mailpeek.I18n.Translate.{
  Locale, locale_en_us, locale_en_gb, locale_pt_br, locale_pt_pt, locale_es_es, locale_fr_fr,
}

abbrev pub locales : List Locale
locales =
    locale_en_us ∷ locale_en_gb ∷ locale_pt_br ∷ locale_pt_pt ∷ locale_es_es ∷ locale_fr_fr ∷ []

-- A `Locale` of the source is its tag.
abbrev pub tag_of : Locale → Text
tag_of locale_en_us = codes "en-US"
tag_of locale_en_gb = codes "en-GB"
tag_of locale_pt_br = codes "pt-BR"
tag_of locale_pt_pt = codes "pt-PT"
tag_of locale_es_es = codes "es-ES"
tag_of locale_fr_fr = codes "fr-FR"

abbrev pub european_portuguese : List Text
european_portuguese =
    codes "pt-pt"
    ∷ codes "pt-ao"
    ∷ codes "pt-mz"
    ∷ codes "pt-cv"
    ∷ codes "pt-gw"
    ∷ codes "pt-st"
    ∷ codes "pt-tl"
    ∷ []

abbrev pub british_english : List Text
british_english =
    codes "en-gb"
    ∷ codes "en-ie"
    ∷ codes "en-au"
    ∷ codes "en-nz"
    ∷ codes "en-za"
    ∷ codes "en-in"
    ∷ []

-- `tag.split("-")[0]`
abbrev pub language : Text → Text
language [] = []
language (c ∷ s) = let rest = language s in if c == b'-' then [] else c ∷ rest

-- The choice by the language, where no tag is the one asked for.
abbrev pub by_language : (lower_tag lang : Text) → Option Locale
by_language tag lang =
    if text_eq lang (codes "pt")
    then some (if any (text_eq tag) european_portuguese then locale_pt_pt else locale_pt_br)
    else if text_eq lang (codes "en")
    then some (if any (text_eq tag) british_english then locale_en_gb else locale_en_us)
    else if text_eq lang (codes "es")
    then some locale_es_es
    else if text_eq lang (codes "fr")
    then some locale_fr_fr
    else none

abbrev pub or_locale : Option Locale → Option Locale → Option Locale
or_locale (some l) o = some l
or_locale none o = o

module _ (lower : Text → Text) where
  unfoldable pub match_locale : Text → Option Locale
  match_locale tag =
      let wanted = lower (trim tag) in
      or_locale (find (λ l. text_eq (lower (tag_of l)) wanted) locales)
        (by_language wanted (language wanted))

  unfoldable pub detect_locale : List Text → Locale
  detect_locale [] = locale_en_us
  detect_locale (tag ∷ preferred) =
      let rest = detect_locale preferred in elim (match_locale tag) [ some l ↦ l | none ↦ rest ]

-- `toLocale`
abbrev pub to_locale : Text → Option Locale
to_locale value = find (λ l. text_eq (tag_of l) value) locales

abbrev pub locale_key : Text
locale_key = codes "mailpeek:locale"

unfoldable pub read_saved_locale : Storage → Option Locale
read_saved_locale s = elim (get_item s locale_key) [
  | none ↦ none
  | some none ↦ none
  | some (some saved) ↦ to_locale saved
]

-- `saveLocale` on the storage, and the cookie that it sets.
unfoldable pub save_locale : Option Locale → Storage → Storage
save_locale none s = remove_item locale_key s
save_locale (some l) s = set_item locale_key (tag_of l) s

abbrev pub locale_cookie : Option Locale → Text
locale_cookie (some l) =
    codes "mailpeek_lang=" ++ (tag_of l ++ codes "; Path=/; Max-Age=31536000; SameSite=Lax")
locale_cookie none = codes "mailpeek_lang=; Path=/; Max-Age=0; SameSite=Lax"
