-- ===== src/I18n/Tests.antt =====
-- Texts in each language, and the theorems at concrete inputs.
use mailpeek.Prelude.{
  ◌≡◌, refl, ◌↔◌, none, some, [], ◌∷◌, codes, is_space, trim_start, trim_end, trim,
}
use mailpeek.I18n.Keys.{list_to}
use mailpeek.I18n.EnUs.{en_us}
use mailpeek.I18n.PtPt.{pt_pt}
use mailpeek.I18n.PtBr.{pt_br}
use mailpeek.I18n.Translate.{
  locale_en_gb, locale_pt_br, locale_pt_pt, messages, parts, parts_from, Vars, translate,
}
use mailpeek.I18n.Locales.{tag_of, language, match_locale, detect_locale}
use mailpeek.I18n.Locales.Match.{lower_ascii, IsSpoken, match_locale_lem}

reading : Unit {0}
unfolding translate messages parts parts_from en_us pt_pt pt_br match_locale detect_locale trim
    trim_start trim_end is_space
reading = tt

abbrev recipient : Vars
recipient = (codes "list", codes "ana@x.test") ∷ []

translate_test : translate locale_pt_pt list_to recipient ≡ codes "Para: ana@x.test"
unfolding reading
translate_test = refl

missing_test : translate locale_en_gb list_to [] ≡ codes "To: {list}"
unfolding reading
missing_test = refl

detect_test :
    detect_locale lower_ascii (codes "de" ∷ codes " PT-ao " ∷ codes "fr" ∷ []) ≡ locale_pt_pt
unfolding reading
detect_test = refl

match_locale_lem_example :
    let wanted = lower_ascii (trim (codes " PT-br ")) in
    (wanted ≡ lower_ascii (tag_of locale_pt_br)
      → match_locale lower_ascii (codes " PT-br ") ≡ some locale_pt_br)
    × (match_locale lower_ascii (codes " PT-br ") ≡ some locale_pt_br
        → language wanted ≡ language (lower_ascii (tag_of locale_pt_br)))
    × ((match_locale lower_ascii (codes " PT-br ") ≡ none) ↔ (¬ IsSpoken (language wanted)))
match_locale_lem_example = match_locale_lem lower_ascii (λ s a. refl) (codes " PT-br ") locale_pt_br
