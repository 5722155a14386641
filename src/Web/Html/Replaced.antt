-- ===== src/Web/Html/Replaced.antt =====
-- web/src/lib/html.ts: which references are replaced, and by what.
use mailpeek.Prelude.{
  ℕ, zero, suc, ◌+◌, ◌≡◌, refl, sym, ap, subst, ◌∙◌, ◌≢◌, inl, inr, Bool, true, false, not, ◌&&◌,
  Option, none, some, get_or, List, [], ◌∷◌, ◌++◌, arith, if◌then◌else◌, Bool-cases, length, take,
  drop, all, Text, codes, text_eq, is_empty,
}
use mailpeek.Web.Viewer.{lookup}
use mailpeek.Web.Html.{
  Attachment, is_cid_unit, cid_at, replace_cids, url_of, key_of, set_key, by_cid, cid_key,
  replacement, prepare_html,
}
use mailpeek.Web.Html.References.{IsMark, Stops, IsReference, cid_at-IsReference, cid_at-none}

-- The second text is the first with each reference (the mark "cid:" in any case, and behind it the
-- longest text that can be a content id, one unit at least) replaced by what `shown` gives for it, and
-- all else kept.
pub data IsReplaced (shown : Text → Text → Text) : Text → Text → Type 0 where
  ends : IsReplaced shown [] []
  keeps :
      (c : ℕ) {s t : Text}
      → ((mark : Text) (d : ℕ) (rest : Text)
          → IsMark mark
          → is_cid_unit d ≡ true
          → (c ∷ s) ≢ mark ++ (d ∷ rest))
      → IsReplaced shown s t
      → IsReplaced shown (c ∷ s) (c ∷ t)
  replaces :
      (mark cid : Text) {s t : Text}
      → IsMark mark
      → is_empty cid ≡ false
      → all is_cid_unit cid ≡ true
      → Stops s
      → IsReplaced shown s t
      → IsReplaced shown (mark ++ (cid ++ s)) (shown (mark ++ cid) cid ++ t)

replace_reference :
    (f : Text → Text → Text) (c : ℕ) (s cid t : Text)
    → IsReference (c ∷ s) cid
    → IsReplaced f (drop (length cid + 3) s) t
    → IsReplaced f (c ∷ s) (f (take (length cid + 4) (c ∷ s)) cid ++ t)
replace_reference f c s cid t r h =
    let e : drop (length cid + 4) (c ∷ s) ≡ drop (length cid + 3) s =
      let k : length cid + 4 ≡ suc (length cid + 3) = omega arith in ap (λ n. drop n (c ∷ s)) k in
    let done : IsReplaced f (r.mark ++ (cid ++ drop (length cid + 3) s))
        (f (r.mark ++ cid) cid ++ t) =
      replaces r.mark cid r.is_mark r.some_unit r.units (subst Stops e r.stops) h in
    subst (λ m. IsReplaced f (c ∷ s) (f m cid ++ t)) (sym r.match)
      (subst (λ u. IsReplaced f u (f (r.mark ++ cid) cid ++ t))
        (sym (r.whole ∙ ap (λ u. r.mark ++ (cid ++ u)) e)) done)

replace_cids-IsReplaced :
    (f : Text → Text → Text) (s : Text) (skip : ℕ)
    → IsReplaced f (drop skip s) (replace_cids f skip s)
replace_cids-IsReplaced f [] zero = ends
replace_cids-IsReplaced f [] (suc skip) = ends
replace_cids-IsReplaced f (c ∷ s) (suc skip) = replace_cids-IsReplaced f s skip
replace_cids-IsReplaced f (c ∷ s) zero =
    elim (cid_at (c ∷ s))
        as (λ o.
          cid_at (c ∷ s) ≡ o
          → IsReplaced f (c ∷ s) (elim o [
            | none ↦ c ∷ replace_cids f zero s
            | some cid ↦ f (take (length cid + 4) (c ∷ s)) cid ++ replace_cids f (length cid + 3) s
          ])) [
            | none ↦ λ e.
                keeps c (λ mark d rest m u. cid_at-none (c ∷ s) mark d rest e m u)
                  (replace_cids-IsReplaced f s 0)
            | some cid ↦ λ e.
                replace_reference f c s cid _ (cid_at-IsReference (c ∷ s) cid e)
                  (replace_cids-IsReplaced f s (length cid + 3))
          ]
      refl

IsReplaced-ext :
    (f g : Text → Text → Text) (s t : Text)
    → ((match cid : Text) → f match cid ≡ g match cid)
    → IsReplaced f s t
    → IsReplaced g s t
IsReplaced-ext f g [] [] e ends = ends
IsReplaced-ext f g s t e (keeps c {s = s'} {t = t'} miss h) =
    keeps c miss (IsReplaced-ext f g s' t' e h)
IsReplaced-ext f g s t e (replaces mark cid {s = s'} {t = t'} m n u st h) =
    subst (λ shown. IsReplaced g (mark ++ (cid ++ s')) (shown ++ t')) (sym (e (mark ++ cid) cid))
      (replaces mark cid m n u st (IsReplaced-ext f g s' t' e h))

module _ (encode : Text → Text) (decode : Text → Option Text) (lower : Text → Text) where
  -- Whether the attachment has a content id, not empty, that in small letters is the key.
  abbrev pub has_key : Text → Attachment → Bool
  has_key key a = elim a.content_id [
    | none ↦ false
    | some cid ↦ not (is_empty cid) && text_eq (lower cid) key
  ]

  -- The last attachment of the list with the key.
  abbrev pub last_with : Text → List Attachment → Option Attachment
  last_with key [] = none
  last_with key (a ∷ rest) = elim (last_with key rest) [
    | some b ↦ some b
    | none ↦ if has_key key a then some a else none
  ]

  -- What is shown for a reference: the URL of the last attachment with its content id, decoded if it can
  -- be, or the reference itself if no attachment has it.
  abbrev pub shown : (message_id origin : Text) → List Attachment → (match cid : Text) → Text
  shown message_id origin attachments match cid =
      elim (last_with (lower (get_or (decode cid) cid)) attachments) [
        | some a ↦ url_of encode decode lower message_id origin a
        | none ↦ match
      ]

  url_or : (message_id origin : Text) → Option Attachment → Option Text → Option Text
  url_or message_id origin (some a) o = some (url_of encode decode lower message_id origin a)
  url_or message_id origin none o = o

  lookup-by_cid :
      (message_id origin key : Text) (attachments : List Attachment) (m : List (Text × Text))
      → lookup (by_cid encode decode lower message_id origin attachments m) key
        ≡ url_or message_id origin (last_with key attachments) (lookup m key)
  unfolding url_or
  lookup-by_cid message_id origin key [] m = refl
  lookup-by_cid message_id origin key (a ∷ rest) m =
      lookup-by_cid message_id origin key rest
        (set_key encode decode lower (key_of encode decode lower a) url m)
      ∙ onto (last_with key rest) a.content_id
    where
      url : Text
      url = url_of encode decode lower message_id origin a

      onto :
          (l : Option Attachment) (o : Option Text)
          → url_or message_id origin l (
              lookup
                (set_key encode decode lower
                  (elim o [
                    | none ↦ none
                    | some cid ↦ if is_empty cid then none else some (lower cid)
                  ])
                  url
                  m)
                key)
            ≡ url_or message_id origin
                (elim l [
                  | some b ↦ some b
                  | none ↦
                      if (elim o [
                        | none ↦ false
                        | some cid ↦ not (is_empty cid) && text_eq (lower cid) key
                      ])
                      then some a
                      else none
                ])
                (lookup m key)
      onto (some b) o = refl
      onto none none = refl
      onto none (some []) = refl
      onto none (some (d ∷ cid)) = elim (Bool-cases (text_eq (lower (d ∷ cid)) key)) [
        | inl hit ↦ rw hit refl
        | inr miss ↦ rw miss refl
      ]

  replacement-shown :
      (message_id origin : Text) (attachments : List Attachment) (match cid : Text)
      → replacement encode decode lower
          (by_cid encode decode lower message_id origin attachments [])
          match
          cid
        ≡ shown message_id origin attachments match cid
  unfolding replacement url_or
  replacement-shown message_id origin attachments match cid =
      ap (λ o. get_or o match)
        (lookup-by_cid message_id origin (cid_key encode decode lower cid) attachments [])
      ∙ known (last_with (cid_key encode decode lower cid) attachments)
    where
      known :
          (o : Option Attachment)
          → get_or (url_or message_id origin o none) match
            ≡ elim o [ some a ↦ url_of encode decode lower message_id origin a | none ↦ match ]
      known (some a) = refl
      known none = refl

  -- The document of the frame is `<base target="_blank">` and behind it the HTML, in which each reference
  -- (the mark "cid:" in any case, and behind it the longest text of one unit or more that can be a content
  -- id) is replaced by the URL of the last attachment that has this content id, once decoded if it can
  -- be, without case; a reference that no attachment has is kept, and so is all else.
  pub prepare_html-IsReplaced :
      (message_id origin : Text) (attachments : List Attachment) (html : Text)
      → (out : Text) × (prepare_html encode decode lower message_id origin attachments html
          ≡ codes "<base target=\"_blank\">" ++ out)
        × IsReplaced (shown message_id origin attachments) html out
  unfolding prepare_html
  prepare_html-IsReplaced message_id origin attachments html =
      let f =
        replacement encode decode lower
          (by_cid encode decode lower message_id origin attachments []) in
      (
        replace_cids f 0 html,
        refl,
        IsReplaced-ext f (shown message_id origin attachments) html (replace_cids f 0 html)
            (replacement-shown message_id origin attachments) (replace_cids-IsReplaced f html 0),
      )
