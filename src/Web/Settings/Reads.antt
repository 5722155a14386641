-- ===== src/Web/Settings/Reads.antt =====
-- What the settings of the page read after each of them is stored.
use mailpeek.Prelude.{
  ◌≡◌, refl, ap, Bool, true, false, Option, none, some, arith, if◌then◌else◌, Text, codes, text_eq,
}
use mailpeek.Storage.{
  Storage, get_item, set_item, get_item-set_item, get_item-remove_item, get_item-set_item_other,
  get_item-remove_item_other,
}
use mailpeek.I18n.Translate.{
  Locale, locale_en_us, locale_en_gb, locale_pt_br, locale_pt_pt, locale_es_es, locale_fr_fr,
}
use mailpeek.I18n.Locales.{read_saved_locale, save_locale, locale_key, tag_of, to_locale}
use mailpeek.Web.Settings.{
  is_on, read_toggle, store_toggle, Theme, light, dark, theme_key, theme_text, theme_of,
  saved_theme, save_theme, sound_key, list_key, details_key, Settings, read_settings,
}

read_toggle-store :
    (key : Text) (fallback b : Bool) (s : Storage)
    → s.is_refused ≡ false
    → read_toggle key fallback (store_toggle key b s) ≡ b
unfolding read_toggle
read_toggle-store key fallback true s h =
    ap (is_on fallback) (get_item-set_item key (codes "on") s h)
read_toggle-store key fallback false s h =
    ap (is_on fallback) (get_item-set_item key (codes "off") s h)

saved_theme-save :
    (t : Theme) (s : Storage) → s.is_refused ≡ false → saved_theme (save_theme t s) ≡ some t
unfolding saved_theme save_theme
saved_theme-save light s h = ap theme_of (get_item-set_item theme_key (codes "light") s h)
saved_theme-save dark s h = ap theme_of (get_item-set_item theme_key (codes "dark") s h)

to_locale-tag_of : (l : Locale) → to_locale (tag_of l) ≡ some l
to_locale-tag_of locale_en_us = refl
to_locale-tag_of locale_en_gb = refl
to_locale-tag_of locale_pt_br = refl
to_locale-tag_of locale_pt_pt = refl
to_locale-tag_of locale_es_es = refl
to_locale-tag_of locale_fr_fr = refl

read_saved_locale-save :
    (l : Option Locale) (s : Storage)
    → s.is_refused ≡ false
    → read_saved_locale (save_locale l s) ≡ l
unfolding read_saved_locale save_locale
read_saved_locale-save none s h = ground (arith, get_item-remove_item locale_key s h)
read_saved_locale-save (some l) s h =
    ground (arith, get_item-set_item locale_key (tag_of l) s h, to_locale-tag_of l)

-- What is stored under one key leaves what is read from the others as it is.
module _ (key : Text) (s t : Storage)
    (agree : (k : Text) → text_eq k key ≡ false → get_item t k ≡ get_item s k) where
  other_toggle :
      (k : Text) (fallback : Bool)
      → text_eq k key ≡ false
      → read_toggle k fallback t ≡ read_toggle k fallback s
  unfolding read_toggle
  other_toggle k fallback h = ap (is_on fallback) (agree k h)

  other_theme_key : text_eq theme_key key ≡ false → saved_theme t ≡ saved_theme s
  unfolding saved_theme
  other_theme_key h = ap theme_of (agree theme_key h)

  other_locale : text_eq locale_key key ≡ false → read_saved_locale t ≡ read_saved_locale s
  unfolding read_saved_locale
  other_locale h = cc (agree locale_key h)

read_settings-eq :
    {a b c a' b' c' : Bool} {d d' : Option Theme} {e e' : Option Locale}
    → a ≡ a'
    → b ≡ b'
    → c ≡ c'
    → d ≡ d'
    → e ≡ e'
    → ◌≡◌ {A = Settings}
        (record { sound = a; list_hidden = b; details_collapsed = c; theme = d; locale = e })
        (record { sound = a'; list_hidden = b'; details_collapsed = c'; theme = d'; locale = e' })
read_settings-eq p q r x y = cc

module _ (s : Storage) (h : s.is_refused ≡ false) where
  pub read_settings-sound :
      (b : Bool)
      → read_settings (store_toggle sound_key b s) ≡ record (read_settings s) { sound = b }
  unfolding read_settings
  read_settings-sound b =
      let v = if b then codes "on" else codes "off" in
      let stored = set_item sound_key v s in
      let kept = λ (k : Text). get_item-set_item_other k sound_key v s in
      read_settings-eq (read_toggle-store sound_key true b s h)
        (other_toggle sound_key s stored kept list_key false refl)
        (other_toggle sound_key s stored kept details_key false refl)
        (other_theme_key sound_key s stored kept refl) (other_locale sound_key s stored kept refl)

  pub read_settings-list :
      (b : Bool)
      → read_settings (store_toggle list_key b s) ≡ record (read_settings s) { list_hidden = b }
  unfolding read_settings
  read_settings-list b =
      let v = if b then codes "on" else codes "off" in
      let stored = set_item list_key v s in
      let kept = λ (k : Text). get_item-set_item_other k list_key v s in
      read_settings-eq (other_toggle list_key s stored kept sound_key true refl)
        (read_toggle-store list_key false b s h)
        (other_toggle list_key s stored kept details_key false refl)
        (other_theme_key list_key s stored kept refl) (other_locale list_key s stored kept refl)

  pub read_settings-details :
      (b : Bool)
      → read_settings (store_toggle details_key b s)
        ≡ record (read_settings s) { details_collapsed = b }
  unfolding read_settings
  read_settings-details b =
      let v = if b then codes "on" else codes "off" in
      let stored = set_item details_key v s in
      let kept = λ (k : Text). get_item-set_item_other k details_key v s in
      read_settings-eq (other_toggle details_key s stored kept sound_key true refl)
        (other_toggle details_key s stored kept list_key false refl)
        (read_toggle-store details_key false b s h) (other_theme_key details_key s stored kept refl)
        (other_locale details_key s stored kept refl)

  pub read_settings-theme :
      (t : Theme) → read_settings (save_theme t s) ≡ record (read_settings s) { theme = some t }
  unfolding read_settings save_theme
  read_settings-theme t =
      let stored = set_item theme_key (theme_text t) s in
      let kept = λ (k : Text). get_item-set_item_other k theme_key (theme_text t) s in
      read_settings-eq (other_toggle theme_key s stored kept sound_key true refl)
        (other_toggle theme_key s stored kept list_key false refl)
        (other_toggle theme_key s stored kept details_key false refl) (saved_theme-saved t)
        (other_locale theme_key s stored kept refl)
    where
      saved_theme-saved : (t : Theme) → saved_theme (set_item theme_key (theme_text t) s) ≡ some t
      saved_theme-saved t = saved_theme-save t s h

  locale-kept :
      (l : Option Locale) (k : Text)
      → text_eq k locale_key ≡ false
      → get_item (save_locale l s) k ≡ get_item s k
  unfolding save_locale
  locale-kept none k e = get_item-remove_item_other k locale_key s e
  locale-kept (some l) k e = get_item-set_item_other k locale_key (tag_of l) s e

  pub read_settings-locale :
      (l : Option Locale)
      → read_settings (save_locale l s) ≡ record (read_settings s) { locale = l }
  unfolding read_settings
  read_settings-locale l =
      let t = save_locale l s in
      let kept = locale-kept l in
      read_settings-eq (other_toggle locale_key s t kept sound_key true refl)
        (other_toggle locale_key s t kept list_key false refl)
        (other_toggle locale_key s t kept details_key false refl)
        (other_theme_key locale_key s t kept refl) (read_saved_locale-save l s h)
