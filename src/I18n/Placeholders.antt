-- ===== src/I18n/Placeholders.antt =====
-- web/src/i18n: the placeholders of the texts, and what filling them in leaves.
use mailpeek.Prelude.{
  ℕ, zero, suc, ◌≤◌, ◌≡◌, refl, sym, ap, subst, ◌∙◌, inl, inr, some, List, [], ◌∷◌, ◌++◌, arith,
  ◌==◌, Bool-cases, Option-cases, length, All, length-append, Text,
}
use mathlib.Core.List.{append_assoc}
use mailpeek.I18n.Keys.{MessageKey, app_inbox, app_empty_list}
use mailpeek.I18n.EnUs.{en_us}
use mailpeek.I18n.EsEs.{es_es}
use mailpeek.I18n.FrFr.{fr_fr}
use mailpeek.I18n.PtBr.{pt_br}
use mailpeek.I18n.PtPt.{pt_pt}
use mailpeek.I18n.Translate.{
  Locale, locale_en_us, locale_en_gb, locale_pt_br, locale_pt_pt, locale_es_es, locale_fr_fr,
  messages, span_word, close_brace, placeholder_at, Part, unit, hole, parts_from, parts, Vars,
  lookup_var, source, fill, render, translate,
}

-- The names of the placeholders, in their order.
abbrev pub names : List Part → List Text
names [] = []
names (unit c ∷ ps) = names ps
names (hole name ∷ ps) = name ∷ names ps

es_es-names : (k : MessageKey) → names (parts (es_es k)) ≡ names (parts (en_us k))
unfolding es_es en_us parts parts_from
es_es-names app_inbox = refl
es_es-names _ = refl

fr_fr-names : (k : MessageKey) → names (parts (fr_fr k)) ≡ names (parts (en_us k))
unfolding fr_fr en_us parts parts_from
fr_fr-names app_inbox = refl
fr_fr-names _ = refl

pt_br-names : (k : MessageKey) → names (parts (pt_br k)) ≡ names (parts (en_us k))
unfolding pt_br en_us parts parts_from
pt_br-names app_inbox = refl
pt_br-names _ = refl

pt_pt-names : (k : MessageKey) → names (parts (pt_pt k)) ≡ names (parts (en_us k))
unfolding pt_pt pt_br en_us parts parts_from
pt_pt-names app_empty_list = refl
pt_pt-names _ = refl

-- Each text has the placeholders of the English one, in the same order, in each language.
pub messages-names :
    (l : Locale) (k : MessageKey) → names (parts (messages l k)) ≡ names (parts (en_us k))
unfolding messages
messages-names locale_en_us k = refl
messages-names locale_en_gb k = refl
messages-names locale_pt_br k = pt_br-names k
messages-names locale_pt_pt k = pt_pt-names k
messages-names locale_es_es k = es_es-names k
messages-names locale_fr_fr k = fr_fr-names k

span_word_lem : (s : Text) → (span_word s).0 ++ (span_word s).1 ≡ s
span_word_lem [] = refl
span_word_lem (c ∷ s) = ground (arith, span_word_lem s)

close_brace_lem :
    (word rest name rest' : Text)
    → close_brace word rest ≡ some (name, rest')
    → (word ≡ name) × (rest ≡ b'}' ∷ rest')
close_brace_lem [] rest name rest' h = cc
close_brace_lem (w ∷ word) [] name rest' h = cc
close_brace_lem (w ∷ word) (c ∷ rest) name rest' h = (ground arith, ground arith)

placeholder_at_lem :
    (s name rest : Text) → placeholder_at s ≡ some (name, rest) → s ≡ b'{' ∷ (name ++ (b'}' ∷ rest))
placeholder_at_lem [] name rest h = cc
placeholder_at_lem (c ∷ s) name rest h = elim (Bool-cases (c == b'{')) [
  | inl brace ↦
      let (same, behind) =
        close_brace_lem (span_word s).0 (span_word s).1 name rest (ground arith) in
      let opened : c ≡ b'{' = ground arith in cc (opened, span_word_lem s, same, behind)
  | inr other ↦ ground arith
]

parts_from-hole :
    (n c : ℕ) (s name rest : Text)
    → placeholder_at (c ∷ s) ≡ some (name, rest)
    → parts_from (suc n) (c ∷ s) ≡ hole name ∷ parts_from n rest
unfolding parts_from
parts_from-hole n c s name rest e = ground (arith, e)

-- The parts of a text are a reading of it: with the placeholders as they stand they give it back.
render-parts_from : (n : ℕ) (s : Text) → length s ≤ n → render source (parts_from n s) ≡ s
unfolding parts_from
render-parts_from zero [] h = refl
render-parts_from zero (c ∷ s) h = absurd (omega (arith, h))
render-parts_from (suc n) [] h = refl
render-parts_from (suc n) (c ∷ s) h = elim (Option-cases (placeholder_at (c ∷ s))) [
  | inl e ↦ ground (arith, e, render-parts_from n s)
  | inr ((name, rest), e) ↦
      let at = placeholder_at_lem (c ∷ s) name rest e in
      let size : length rest ≤ n =
        omega (arith, h, ap length at, length-append name (b'}' ∷ rest)) in
      ap (render source) (parts_from-hole n c s name rest e)
      ∙ append_assoc (b'{' ∷ name) (b'}' ∷ []) (render source (parts_from n rest))
      ∙ ap (λ t. b'{' ∷ (name ++ (b'}' ∷ t))) (render-parts_from n rest size)
      ∙ sym at
]

render-parts : (s : Text) → render source (parts s) ≡ s
unfolding parts
render-parts s = render-parts_from (length s) s (omega arith)

render-fill_none : (ps : List Part) → render (fill []) ps ≡ render source ps
render-fill_none [] = refl
render-fill_none (unit c ∷ ps) = ap (◌∷◌ c) (render-fill_none ps)
render-fill_none (hole name ∷ ps) = ap (◌++◌ (source (hole name))) (render-fill_none ps)

-- With no variables, a text is translated to itself, its placeholders as they stand.
pub translate-none : (l : Locale) (k : MessageKey) → translate l k [] ≡ messages l k
unfolding translate
translate-none l k = render-fill_none (parts (messages l k)) ∙ render-parts (messages l k)

-- A text is the parts one after the other, each placeholder replaced by the value of its name.
abbrev pub Fills : Vars → List Part → Text → Type 0
Fills vars [] t = t ≡ []
Fills vars (unit c ∷ ps) t = (rest : Text) × (t ≡ c ∷ rest) × Fills vars ps rest
Fills vars (hole name ∷ ps) t =
    (v : Text) × (rest : Text) × (lookup_var vars name ≡ some v)
    × (t ≡ v ++ rest)
    × Fills vars ps rest

abbrev pub Gives : Vars → Text → Type 0
Gives vars name = (v : Text) × (lookup_var vars name ≡ some v)

render-Fills :
    (vars : Vars) (ps : List Part)
    → All (Gives vars) (names ps)
    → Fills vars ps (render (fill vars) ps)
render-Fills vars [] h = refl
render-Fills vars (unit c ∷ ps) h = (render (fill vars) ps, refl, render-Fills vars ps h)
render-Fills vars (hole name ∷ ps) ((v, e), h) =
    (v, render (fill vars) ps, e, ground (arith, e), render-Fills vars ps h)

pub translate-Fills :
    (l : Locale) (k : MessageKey) (vars : Vars)
    → All (Gives vars) (names (parts (en_us k)))
    → Fills vars (parts (messages l k)) (translate l k vars)
      × (render source (parts (messages l k)) ≡ messages l k)
unfolding translate
translate-Fills l k vars h = (
  render-Fills vars (parts (messages l k)) (subst (All (Gives vars)) (sym (messages-names l k)) h),
  render-parts (messages l k),
)
