-- ===== src/I18n/Locales/Match.antt =====
-- web/src/i18n/locale.ts: a tag is matched to a locale of its own language, and to itself if it is one.
use mailpeek.Prelude.{
  ℕ, ◌+◌, ◌<◌, ◌≡◌, refl, sym, ap, subst, ◌∙◌, ◌↔◌, ◌⊎◌, inl, inr, Bool, true, ◌&&◌, Option, none,
  some, List, [], ◌∷◌, map, arith, leb, if◌then◌else◌, Bool-cases, Option-cases, find, All, Text,
  codes, text_eq, text_eq_sound, text_eq_iff, trim,
}
use mathlib.Core.Path.{fun_ext}
use mailpeek.I18n.Translate.{
  Locale, locale_en_us, locale_en_gb, locale_pt_br, locale_pt_pt, locale_es_es, locale_fr_fr,
}
use mailpeek.I18n.Locales.{locales, tag_of, language, by_language, or_locale, match_locale}

abbrev pub IsAscii : Text → Type 0
IsAscii s = All (λ (c : ℕ). c < 128) s

-- `toLowerCase` on ASCII text.
abbrev pub lower_ascii : Text → Text
lower_ascii s = map (λ c. if leb b'A' c && leb c b'Z' then c + 32 else c) s

-- What `match_locale` does with a tag trimmed and in lower case.
matched : Text → Option Locale
matched wanted =
    or_locale (find (λ l. text_eq (lower_ascii (tag_of l)) wanted) locales)
      (by_language wanted (language wanted))

matched_own : (l : Locale) → matched (lower_ascii (tag_of l)) ≡ some l
unfolding matched
matched_own locale_en_us = refl
matched_own locale_en_gb = refl
matched_own locale_pt_br = refl
matched_own locale_pt_pt = refl
matched_own locale_es_es = refl
matched_own locale_fr_fr = refl

find-hit {ℓ} : {A : Type ℓ} (p : A → Bool) (xs : List A) (x : A) → find p xs ≡ some x → p x ≡ true
find-hit p [] x h = cc
find-hit p (y ∷ xs) x h = elim (Bool-cases (p y)) [
  | inl hit ↦ let same : y ≡ x = ground arith in subst (λ x. p x ≡ true) same hit
  | inr miss ↦ find-hit p xs x (ground arith)
]

by_language-language :
    (w lang : Text) (l : Locale)
    → by_language w lang ≡ some l
    → lang ≡ language (lower_ascii (tag_of l))
by_language-language w lang l h = ground (
  arith,
  text_eq_iff lang (codes "pt"),
  text_eq_iff lang (codes "en"),
  text_eq_iff lang (codes "es"),
  text_eq_iff lang (codes "fr"),
)

matched-language :
    (w : Text) (l : Locale) → matched w ≡ some l → language w ≡ language (lower_ascii (tag_of l))
unfolding matched
matched-language w l h =
    let p : Locale → Bool = λ l. text_eq (lower_ascii (tag_of l)) w in
    elim (Option-cases (find p locales)) [
      | inl missed ↦ by_language-language w (language w) l (cc (missed, h))
      | inr (k, e) ↦
          let same : k ≡ l = cc (e, h) in
          let at = text_eq_sound (lower_ascii (tag_of k)) w (find-hit p locales k e) in
          ap language (sym at) ∙ ap (λ l. language (lower_ascii (tag_of l))) same
    ]

-- The languages that the page speaks.
abbrev pub IsSpoken : Text → Type 0
IsSpoken lang =
    (lang ≡ codes "pt") ⊎ ((lang ≡ codes "en") ⊎ ((lang ≡ codes "es") ⊎ (lang ≡ codes "fr")))

by_language-none : (w lang : Text) → by_language w lang ≡ none → ¬ IsSpoken lang
by_language-none w lang h spoken = ground (
  arith,
  text_eq_iff lang (codes "pt"),
  text_eq_iff lang (codes "en"),
  text_eq_iff lang (codes "es"),
  text_eq_iff lang (codes "fr"),
)

tag-IsSpoken : (l : Locale) → IsSpoken (language (lower_ascii (tag_of l)))
tag-IsSpoken locale_en_us = inr (inl refl)
tag-IsSpoken locale_en_gb = inr (inl refl)
tag-IsSpoken locale_pt_br = inl refl
tag-IsSpoken locale_pt_pt = inl refl
tag-IsSpoken locale_es_es = inr (inr (inl refl))
tag-IsSpoken locale_fr_fr = inr (inr (inr refl))

matched-none : (w : Text) → (matched w ≡ none) ↔ (¬ IsSpoken (language w))
unfolding matched
matched-none w = (
  λ h.
      let p : Locale → Bool = λ l. text_eq (lower_ascii (tag_of l)) w in
      elim (Option-cases (find p locales)) [
        | inl missed ↦ by_language-none w (language w) (cc (missed, h))
        | inr (k, e) ↦ cc (e, h)
      ],
  λ unspoken. elim (Option-cases (matched w)) [
    | inl e ↦ e
    | inr (l, e) ↦
        absurd (unspoken (subst IsSpoken (sym (matched-language w l e)) (tag-IsSpoken l)))
  ],
)

module _ (lower : Text → Text) (plain : (s : Text) → IsAscii s → lower s ≡ lower_ascii s) where
  lower-tag_of : (l : Locale) → lower (tag_of l) ≡ lower_ascii (tag_of l)
  lower-tag_of locale_en_us = plain (tag_of locale_en_us) (omega arith)
  lower-tag_of locale_en_gb = plain (tag_of locale_en_gb) (omega arith)
  lower-tag_of locale_pt_br = plain (tag_of locale_pt_br) (omega arith)
  lower-tag_of locale_pt_pt = plain (tag_of locale_pt_pt) (omega arith)
  lower-tag_of locale_es_es = plain (tag_of locale_es_es) (omega arith)
  lower-tag_of locale_fr_fr = plain (tag_of locale_fr_fr) (omega arith)

  match_locale-matched : (tag : Text) → match_locale lower tag ≡ matched (lower (trim tag))
  unfolding match_locale matched
  match_locale-matched tag =
      let wanted = lower (trim tag) in
      ap (λ (p : Locale → Bool). or_locale (find p locales) (by_language wanted (language wanted)))
        (fun_ext (λ l. ap (λ t. text_eq t wanted) (lower-tag_of l)))

  -- A tag that is a locale's but for case and outer blanks is matched to it. Any tag that is matched
  -- is matched to a locale of its language, the part before the first "-", and a tag is matched to
  -- none exactly if its language is not Portuguese, English, Spanish or French. `lower` is any
  -- function that turns ASCII capitals into small letters.
  pub match_locale_lem :
      (tag : Text) (l : Locale)
      → let wanted = lower (trim tag) in
        (wanted ≡ lower (tag_of l) → match_locale lower tag ≡ some l)
        × (match_locale lower tag ≡ some l → language wanted ≡ language (lower (tag_of l)))
        × ((match_locale lower tag ≡ none) ↔ (¬ IsSpoken (language wanted)))
  match_locale_lem tag l =
      let same = match_locale-matched tag in
      let small = lower-tag_of l in
      (
        λ own. same ∙ ap matched (own ∙ small) ∙ matched_own l,
        λ h. matched-language (lower (trim tag)) l (sym same ∙ h) ∙ ap language (sym small),
        (
          λ h. (matched-none (lower (trim tag))).0 (sym same ∙ h),
          λ h. same ∙ (matched-none (lower (trim tag))).1 h,
        ),
      )
