-- ===== src/Client/Email/Links.antt =====
-- packages/client/src/email.ts: which link `findLink` finds.
use mailpeek.Prelude.{
  trim, text_eq_iff, IsPart, includes_iff, ◌≡◌, refl, ◌↔◌, ◌⊎◌, inl, inr, Bool, true, false, Option,
  none, some, List, [], ◌∷◌, arith, Bool-cases, Option-cases, find, All, Text,
}
use mailpeek.Client.Types.{Link}
use mailpeek.Client.Email.{
  Email, collapse, by_text, or_link, normalize, is_exact, is_part, is_in_href, match_links,
  find_link, has_link,
}

-- The first link of the list that has the property.
abbrev pub IsFirst : (Link → Type 0) → List Link → Link → Type 0
IsFirst P [] l = ⊥
IsFirst P (x ∷ xs) l = (P x × (x ≡ l)) ⊎ ((¬ P x) × IsFirst P xs l)

abbrev pub HasNone : (Link → Type 0) → List Link → Type 0
HasNone P links = All (λ (l : Link). ¬ P l) links

-- What a test tells.
abbrev Tells : (Link → Bool) → (Link → Type 0) → Type 0
Tells p P = (l : Link) → (p l ≡ true) ↔ P l

find_iff :
    (p : Link → Bool) (P : Link → Type 0) (fits : Tells p P) (xs : List Link) (l : Link)
    → (find p xs ≡ some l) ↔ IsFirst P xs l
find_iff p P fits [] l = (λ h. cc, λ h. elim h [ ])
find_iff p P fits (x ∷ xs) l = elim (Bool-cases (p x)) [
  | inl hit ↦ (
    λ h. inl ((fits x).0 hit, ground arith),
    λ h. elim h [ inl (a, b) ↦ ground arith | inr (a, b) ↦ absurd (a ((fits x).0 hit)) ],
  )
  | inr miss ↦
      let (to, from) = find_iff p P fits xs l in
      let lacks : ¬ P x = λ h. let t = (fits x).1 h in cc in
      (
        λ h. inr (lacks, to (ground arith)),
        λ h. elim h [ inl (a, b) ↦ absurd (lacks a) | inr (a, b) ↦ ground (arith, from b) ],
      )
]

find-none_iff :
    (p : Link → Bool) (P : Link → Type 0) (fits : Tells p P) (xs : List Link)
    → (find p xs ≡ none) ↔ HasNone P xs
find-none_iff p P fits [] = (λ h. tt, λ h. refl)
find-none_iff p P fits (x ∷ xs) = elim (Bool-cases (p x)) [
  | inl hit ↦ (λ h. ground arith, λ h. absurd (h.0 ((fits x).0 hit)))
  | inr miss ↦
      let (to, from) = find-none_iff p P fits xs in
      let lacks : ¬ P x = λ h. let t = (fits x).1 h in cc in
      (λ h. (lacks, to (ground arith)), λ h. ground (arith, from h.1))
]

or_link_iff :
    (p : Link → Bool) (P : Link → Type 0) (fits : Tells p P) (xs : List Link) (o : Option Link)
    (l : Link)
    → (or_link (find p xs) o ≡ some l) ↔ (IsFirst P xs l ⊎ (HasNone P xs × (o ≡ some l)))
or_link_iff p P fits xs o l =
    let (first_to, first_from) = find_iff p P fits xs l in
    let (none_to, none_from) = find-none_iff p P fits xs in
    (
      λ h. elim (Option-cases (find p xs)) [
        | inl e ↦ inr (none_to e, ground (arith, e))
        | inr (a, e) ↦ inl (first_to (ground (arith, e)))
      ],
      λ h. elim h [
        | inl first ↦ ground (arith, first_from first)
        | inr (nothing, other) ↦ ground (arith, none_from nothing)
      ],
    )

none_of :
    (a b c : Option Link)
    → ((elim (or_link a (or_link b c)) [ none ↦ false | some l ↦ true ]) ≡ false)
      ↔ ((a ≡ none) × (b ≡ none) × (c ≡ none))
none_of none none none = (λ h. (refl, refl, refl), λ h. refl)
none_of none none (some c) = (λ h. cc, λ h. let e = h.2 in cc)
none_of none (some b) c = (λ h. cc, λ h. let e = h.1 in cc)
none_of (some a) b c = (λ h. cc, λ h. let e = h.0 in cc)

-- The text as it is compared: in small letters, its blanks collapsed to one each and trimmed.
abbrev pub folded : (Text → Text) → Text → Text
folded lower s = lower (trim (collapse s))

module _ (lower : Text → Text) (s : Text) where
  abbrev pub HasText : Link → Type 0
  HasText l = folded lower l.text ≡ folded lower s

  abbrev pub HasInText : Link → Type 0
  HasInText l = IsPart (folded lower l.text) (folded lower s)

  abbrev pub HasInHref : Link → Type 0
  HasInHref l = IsPart (lower l.href) (folded lower s)

  exact_tells : Tells (is_exact lower (normalize lower s)) HasText
  unfolding normalize
  exact_tells l = text_eq_iff (folded lower l.text) (folded lower s)

  part_tells : Tells (is_part lower (normalize lower s)) HasInText
  unfolding normalize
  part_tells l = includes_iff (folded lower l.text) (folded lower s)

  href_tells : Tells (is_in_href lower (normalize lower s)) HasInHref
  unfolding normalize
  href_tells l = includes_iff (lower l.href) (folded lower s)

module _ (lower : Text → Text) (e : Email) (s : Text) where
  -- The link found by a text is the first whose text is the given one, or where no text is, the
  -- first whose text contains it, or where none does, the first whose address contains it; all
  -- without case, and with blanks collapsed and trimmed in the text given and the links' texts. There
  -- is none found, and `hasLink` is false, exactly if no link matches in any of the three ways.
  pub find_link_iff :
      (l : Link)
      → ((find_link lower e (by_text s) ≡ some l) ↔ (
          IsFirst (HasText lower s) e.links l
          ⊎ (HasNone (HasText lower s) e.links
              × (IsFirst (HasInText lower s) e.links l
                  ⊎ (HasNone (HasInText lower s) e.links
                      × IsFirst (HasInHref lower s) e.links l)))))
        × ((has_link lower e (by_text s) ≡ false) ↔ (
            HasNone (HasText lower s) e.links
            × HasNone (HasInText lower s) e.links
            × HasNone (HasInHref lower s) e.links))
  unfolding find_link has_link match_links
  find_link_iff l =
      let needle = normalize lower s in
      let exact = find (is_exact lower needle) e.links in
      let part = find (is_part lower needle) e.links in
      let href = find (is_in_href lower needle) e.links in
      let exact_none =
        find-none_iff (is_exact lower needle) (HasText lower s) (exact_tells lower s) e.links in
      let part_none =
        find-none_iff (is_part lower needle) (HasInText lower s) (part_tells lower s) e.links in
      let href_none =
        find-none_iff (is_in_href lower needle) (HasInHref lower s) (href_tells lower s) e.links in
      let (to₁, from₁) =
        or_link_iff (is_exact lower needle) (HasText lower s) (exact_tells lower s) e.links
          (or_link (find (is_part lower needle) e.links) href) l in
      let (to₂, from₂) =
        or_link_iff (is_part lower needle) (HasInText lower s) (part_tells lower s) e.links href
          l in
      let (to₃, from₃) =
        find_iff (is_in_href lower needle) (HasInHref lower s) (href_tells lower s) e.links l in
      (
        (
          λ h. elim (to₁ h) [
            | inl first ↦ inl first
            | inr (nothing, h₂) ↦ inr (
              nothing,
              elim (to₂ h₂) [ inl first ↦ inl first | inr (no_part, h₃) ↦ inr (no_part, to₃ h₃) ],
            )
          ],
          λ h. elim h [
            | inl first ↦ from₁ (inl first)
            | inr (nothing, inl first) ↦ from₁ (inr (nothing, from₂ (inl first)))
            | inr (nothing, inr (no_part, first)) ↦
                from₁ (inr (nothing, from₂ (inr (no_part, from₃ first))))
          ],
        ),
        (
          λ h.
              let (a, b, c) = (none_of exact part href).0 h in
              (exact_none.0 a, part_none.0 b, href_none.0 c),
          λ h. (none_of exact part href).1 (exact_none.1 h.0, part_none.1 h.1, href_none.1 h.2),
        ),
      )
