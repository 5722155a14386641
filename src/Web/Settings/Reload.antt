-- ===== src/Web/Settings/Reload.antt =====
-- The settings of the page are those that a reload of it reads.
use mailpeek.Prelude.{
  ◌≡◌, ap, ◌∙◌, false, not, Option, none, some, List, [], ◌∷◌, if◌then◌else◌, codes,
}
use mailpeek.Storage.{Storage, is_refused-set_item, is_refused-remove_item}
use mailpeek.I18n.Translate.{Locale}
use mailpeek.I18n.Locales.{save_locale, locale_key, tag_of}
use mailpeek.Web.Settings.{
  store_toggle, theme_key, theme_text, save_theme, or_system, other_theme, sound_key, list_key,
  details_key, Settings, read_settings, Page, Change, sound_toggled, list_toggled, details_toggled,
  theme_toggled, locale_chosen, open_page, change, changes,
}
use mailpeek.Web.Settings.Reads.{
  read_settings-sound, read_settings-list, read_settings-details, read_settings-theme,
  read_settings-locale,
}

-- Storage is not refused, and a reload would read the settings of the page.
abbrev IsKept : Page → Type 0
IsKept p = (p.storage.is_refused ≡ false) × (read_settings p.storage ≡ p.settings)

save_locale-is_refused :
    (l : Option Locale) (s : Storage) → (save_locale l s).is_refused ≡ s.is_refused
unfolding save_locale
save_locale-is_refused none s = is_refused-remove_item locale_key s
save_locale-is_refused (some l) s = is_refused-set_item locale_key (tag_of l) s

change-IsKept : (p : Page) (c : Change) → IsKept p → IsKept (change p c)
unfolding change save_theme
change-IsKept p sound_toggled (ok, e) =
    let on = not p.settings.sound in
    (
      is_refused-set_item sound_key (if on then codes "on" else codes "off") p.storage ∙ ok,
      read_settings-sound p.storage ok on ∙ ap (λ (r : Settings). record r { sound = on }) e,
    )
change-IsKept p list_toggled (ok, e) =
    let on = not p.settings.list_hidden in
    (
      is_refused-set_item list_key (if on then codes "on" else codes "off") p.storage ∙ ok,
      read_settings-list p.storage ok on ∙ ap (λ (r : Settings). record r { list_hidden = on }) e,
    )
change-IsKept p details_toggled (ok, e) =
    let on = not p.settings.details_collapsed in
    (
      is_refused-set_item details_key (if on then codes "on" else codes "off") p.storage ∙ ok,
      read_settings-details p.storage ok on
          ∙ ap (λ (r : Settings). record r { details_collapsed = on }) e,
    )
change-IsKept p (theme_toggled system) (ok, e) =
    let next = other_theme (or_system p.settings.theme system) in
    (
      is_refused-set_item theme_key (theme_text next) p.storage ∙ ok,
      read_settings-theme p.storage ok next
          ∙ ap (λ (r : Settings). record r { theme = some next }) e,
    )
change-IsKept p (locale_chosen l) (ok, e) = (
  save_locale-is_refused l p.storage ∙ ok,
  read_settings-locale p.storage ok l ∙ ap (λ (r : Settings). record r { locale = l }) e,
)

changes-IsKept : (p : Page) (cs : List Change) → IsKept p → IsKept (changes p cs)
changes-IsKept p [] h = h
changes-IsKept p (c ∷ cs) h = changes-IsKept (change p c) cs (change-IsKept p c h)

open_page-IsKept : (s : Storage) → s.is_refused ≡ false → IsKept (open_page s)
unfolding open_page
open_page-IsKept s ok =
    let r = read_settings s in
    let s₁ = store_toggle sound_key r.sound s in
    let s₂ = store_toggle list_key r.list_hidden s₁ in
    let ok₁ : s₁.is_refused ≡ false = is_refused-set_item sound_key _ s ∙ ok in
    let ok₂ : s₂.is_refused ≡ false = is_refused-set_item list_key _ s₁ ∙ ok₁ in
    let e₁ = read_settings-sound s ok r.sound in
    let e₂ = read_settings-list s₁ ok₁ r.list_hidden in
    let e₃ = read_settings-details s₂ ok₂ r.details_collapsed in
    (
      is_refused-set_item details_key _ s₂ ∙ ok₂,
      e₃
          ∙ ap (λ (x : Settings). record x { details_collapsed = r.details_collapsed }) e₂
          ∙ ap
              (λ (x : Settings). record x {
                list_hidden = r.list_hidden;
                details_collapsed = r.details_collapsed;
              })
              e₁,
    )

-- Where storage is not refused, whatever was stored before and whichever settings are changed, in any
-- order, a reload of the page has the settings that it had.
pub open_page-changes :
    (s : Storage) (cs : List Change)
    → s.is_refused ≡ false
    → let p = changes (open_page s) cs in (open_page p.storage).settings ≡ p.settings
unfolding open_page
open_page-changes s cs ok = (changes-IsKept (open_page s) cs (open_page-IsKept s ok)).1
