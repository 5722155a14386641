-- ===== src/Web/Settings/Tests.antt =====
-- Settings that are changed and read again, and problems in another language.
use mailpeek.Prelude.{◌≡◌, refl, true, false, none, some, List, [], ◌∷◌}
use mailpeek.Storage.{Storage}
use mailpeek.I18n.Translate.{locale_fr_fr}
use mailpeek.I18n.Locales.{read_saved_locale, save_locale}
use mailpeek.Web.Settings.{
  Change, sound_toggled, theme_toggled, locale_chosen, list_toggled, light, dark, open_page, change,
  changes, read_settings, read_toggle, saved_theme, save_theme,
}
use mailpeek.Web.Settings.Reload.{open_page-changes}

abbrev fresh : Storage
fresh = record { is_refused = false; items = λ key. none }

abbrev some_changes : List Change
some_changes =
    sound_toggled ∷ theme_toggled light ∷ locale_chosen (some locale_fr_fr) ∷ list_toggled ∷ []

changing : Unit {0}
unfolding open_page change read_settings read_toggle saved_theme save_theme read_saved_locale
    save_locale
changing = tt

changes_test : (changes (open_page fresh) some_changes).settings ≡ record {
  sound = false;
  list_hidden = true;
  details_collapsed = false;
  theme = some dark;
  locale = some locale_fr_fr;
}
unfolding changing
changes_test = refl

open_page-changes_example :
    let p = changes (open_page fresh) some_changes in (open_page p.storage).settings ≡ p.settings
open_page-changes_example = open_page-changes fresh some_changes refl
