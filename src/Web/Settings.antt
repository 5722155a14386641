-- ===== src/Web/Settings.antt =====
-- web/src/hooks/useStoredToggle.ts, useTheme.ts, useSoundSetting.ts, the toggles of useLayoutState.ts,
-- web/src/lib/theme.ts and web/src/i18n/I18nProvider.tsx: the settings that the page keeps in the
-- browser's storage. The effects of a render are part of its event.
mod Reads
pub mod Reload
mod Tests
use mailpeek.Prelude.{
  Bool, true, false, not, Option, none, some, List, [], ◌∷◌, if◌then◌else◌, Text, codes, text_eq,
}
use mailpeek.Storage.{Storage, get_item, set_item}
use mailpeek.I18n.Translate.{Locale}
use mailpeek.I18n.Locales.{read_saved_locale, save_locale}

-- `read` of useStoredToggle.ts.
abbrev pub is_on : Bool → Option (Option Text) → Bool
is_on fallback none = fallback
is_on fallback (some none) = fallback
is_on fallback (some (some v)) = text_eq v (codes "on")

unfoldable pub read_toggle : Text → Bool → Storage → Bool
read_toggle key fallback s = is_on fallback (get_item s key)

-- The effect of a toggle, which runs at the first render and at each change.
abbrev pub store_toggle : Text → Bool → Storage → Storage
store_toggle key value s = set_item key (if value then codes "on" else codes "off") s

pub data Theme : Type 0 where
  light dark : Theme

abbrev pub theme_key : Text
theme_key = codes "mailpeek:theme"

abbrev pub theme_text : Theme → Text
theme_text light = codes "light"
theme_text dark = codes "dark"

abbrev pub theme_of : Option (Option Text) → Option Theme
theme_of none = none
theme_of (some none) = none
theme_of (some (some v)) =
    if text_eq v (codes "light")
    then some light
    else if text_eq v (codes "dark")
    then some dark
    else none

unfoldable pub saved_theme : Storage → Option Theme
saved_theme s = theme_of (get_item s theme_key)

unfoldable pub save_theme : Theme → Storage → Storage
save_theme t s = set_item theme_key (theme_text t) s

-- `choice ?? system`
abbrev pub or_system : Option Theme → Theme → Theme
or_system (some t) system = t
or_system none system = system

abbrev pub other_theme : Theme → Theme
other_theme dark = light
other_theme light = dark

abbrev pub sound_key : Text
sound_key = codes "mailpeek:sound"

abbrev pub list_key : Text
list_key = codes "mailpeek:sidebar-hidden"

abbrev pub details_key : Text
details_key = codes "mailpeek:header-collapsed"

pub record Settings : Type 0 where
  pub sound : Bool
  pub list_hidden : Bool
  pub details_collapsed : Bool
  pub theme : Option Theme
  pub locale : Option Locale

unfoldable pub read_settings : Storage → Settings
read_settings s = record {
  sound = read_toggle sound_key true s;
  list_hidden = read_toggle list_key false s;
  details_collapsed = read_toggle details_key false s;
  theme = saved_theme s;
  locale = read_saved_locale s;
}

-- What the settings are read from, and what was changed.
pub record Page : Type 0 where
  pub settings : Settings
  pub storage : Storage

pub data Change : Type 0 where
  sound_toggled list_toggled details_toggled : Change
  theme_toggled : (system : Theme) → Change
  locale_chosen : Option Locale → Change

-- A load of the page: the settings are read, and the toggles stored.
unfoldable pub open_page : Storage → Page
open_page s =
    let r = read_settings s in
    record {
      settings = r;
      storage =
          store_toggle details_key r.details_collapsed
            (store_toggle list_key r.list_hidden (store_toggle sound_key r.sound s));
    }

unfoldable pub change : Page → Change → Page
change p sound_toggled =
    let on = not p.settings.sound in
    record {
      settings = record p.settings { sound = on };
      storage = store_toggle sound_key on p.storage;
    }
change p list_toggled =
    let on = not p.settings.list_hidden in
    record {
      settings = record p.settings { list_hidden = on };
      storage = store_toggle list_key on p.storage;
    }
change p details_toggled =
    let on = not p.settings.details_collapsed in
    record {
      settings = record p.settings { details_collapsed = on };
      storage = store_toggle details_key on p.storage;
    }
change p (theme_toggled system) =
    let next = other_theme (or_system p.settings.theme system) in
    record {
      settings = record p.settings { theme = some next };
      storage = save_theme next p.storage;
    }
change p (locale_chosen l) = record {
  settings = record p.settings { locale = l };
  storage = save_locale l p.storage;
}

abbrev pub changes : Page → List Change → Page
changes p [] = p
changes p (c ∷ cs) = changes (change p c) cs
