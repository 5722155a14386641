-- ===== src/Client/Diagnose/Criteria.antt =====
-- packages/client/src/diagnose.ts: when a message fails a criterion of a filter, and that each list of
-- reasons says so.
use mailpeek.Prelude.{
  ℕ, ◌<◌, ◌≡◌, refl, sym, ◌∙◌, ◌↔◌, inl, inr, Bool, true, false, not, ◌&&◌, ◌||◌, Option, none,
  some, get_or, List, [], ◌∷◌, ◌++◌, map, arith, if◌then◌else◌, ltb→lt, lt→ltb, Bool-cases,
  Option-cases, any, Text, text_eq, text_eq_iff, trim, includes, any_sound, any_complete, IsPart,
  includes_iff, Memᴰ,
}
use mailpeek.Client.Types.{Address, MessageSummary, Since, MessageFilter, truthy, IsSetTo}
use mailpeek.Client.Diagnose.{
  Reason, not_sent_to, no_recipient, subject_lacks, no_match, body_lacks, from_other, too_early,
  before, is_nil, envelope_to, envelope_from, recipients, field_includes, address_includes,
  since_time, address_reasons, to_reasons, from_reasons, subject_reasons, query_reasons,
  since_reasons,
}

pub data Criterion : Type 0 where
  by_address by_to by_from by_subject by_q by_since by_body : Criterion

abbrev pub is_about : Criterion → Reason → Bool
is_about by_address (not_sent_to a) = true
is_about by_to (no_recipient t) = true
is_about by_from (from_other a f) = true
is_about by_subject (subject_lacks s) = true
is_about by_q (no_match q) = true
is_about by_since too_early = true
is_about by_body (body_lacks b) = true
is_about _ _ = false

pub any-append {ℓ} :
    {A : Type ℓ} (p : A → Bool) (xs ys : List A) → any p (xs ++ ys) ≡ (any p xs || any p ys)
any-append p [] ys = refl
any-append p (x ∷ xs) ys = ground (arith, any-append p xs ys)

pub not_any_iff {ℓ} :
    {A : Type ℓ} (p : A → Bool) (xs : List A)
    → (any p xs ≡ false) ↔ ¬ ((x : A) × Memᴰ x xs × (p x ≡ true))
not_any_iff p xs = (
  λ e (x, m, h). cc (any_complete p m h),
  λ no. elim (Bool-cases (any p xs)) [ inl e ↦ absurd (no (any_sound p xs e)) | inr e ↦ e ],
)

pub is_nil-append {ℓ} : {A : Type ℓ} (xs ys : List A) → is_nil (xs ++ ys) ≡ (is_nil xs && is_nil ys)
is_nil-append [] ys = refl
is_nil-append (x ∷ xs) ys = refl

-- What a flag says of a proposition, its negation says of the flag's.
pub by_piece {ℓ} : {P : Type ℓ} {a : Bool} (b : Bool) → a ≡ not b → (b ≡ false) ↔ P → (a ≡ true) ↔ P
by_piece b e h = (λ k. h.0 (ground arith), λ p. ground (arith, h.1 p))

pub holds_iff {ℓ} : {P : Type ℓ} (b : Bool) → (b ≡ false) ↔ P → (b ≡ true) ↔ ¬ P
holds_iff true h = (λ e p. cc (h.1 p), λ k. refl)
holds_iff false h = (λ e. cc, λ k. absurd (k (h.0 refl)))

pub before_sound :
    (a b : Option ℕ) → before a b ≡ true → (t : ℕ) × (u : ℕ) × (a ≡ some t) × (b ≡ some u) × (t < u)
before_sound (some t) (some u) h = (t, u, refl, refl, ltb→lt t u h)
before_sound none b h = cc
before_sound (some t) none h = cc

-- A reason pushed by `if (value && !hit) reasons.push(…)`.
abbrev pub unless : Option Text → (Text → Bool) → (Text → Reason) → List Reason
unless o hit reason = elim (truthy o) [ none ↦ [] | some v ↦ if hit v then [] else reason v ∷ [] ]

pub unless_iff :
    (o : Option Text) (hit : Text → Bool) (reason : Text → Reason)
    → (is_nil (unless o hit reason) ≡ false) ↔ ((v : Text) × IsSetTo o v × (hit v ≡ false))
unless_iff none hit reason = (λ e. cc, λ (v, (e, _), _). cc)
unless_iff (some []) hit reason = (λ e. cc, λ (v, (e, n), _). absurd (n cc))
unless_iff (some (c ∷ s)) hit reason =
    (λ e. (c ∷ s, (refl, λ k. cc), ground arith), λ (v, (e, n), h). ground arith)

module _ (lower : Text → Text) (parse_date : Text → Option ℕ) where
  -- Case and the blanks around `needle` are ignored.
  abbrev pub Contains : Text → Text → Type 0
  Contains needle t = IsPart (lower t) (lower (trim needle))

  -- The field is set, and none of the texts satisfies the relation to it.
  abbrev pub Lacks : (Text → Text → Type 0) → Option Text → List Text → Type 0
  Lacks Fits o texts = (v : Text) × IsSetTo o v × ¬ ((t : Text) × Memᴰ t texts × Fits v t)

  -- A missing name counts as an empty one.
  abbrev pub address_texts : List Address → List Text
  address_texts [] = []
  address_texts (a ∷ as') = a.address ∷ get_or a.name [] ∷ address_texts as'

  -- Each criterion by itself; summaries hold no body, so of `body` only whether it is set.
  abbrev pub FailsAlone : Criterion → MessageSummary → MessageFilter → Type 0
  FailsAlone by_address m f =
      Lacks (λ v t. lower t ≡ lower (trim v)) f.address
        (map (λ (a : Address). a.address) (recipients m) ++ envelope_to m)
  FailsAlone by_to m f = Lacks Contains f.to (address_texts (recipients m) ++ envelope_to m)
  FailsAlone by_from m f =
      Lacks Contains f.from
        (m.from.address ∷ get_or m.from.name [] ∷ get_or (envelope_from m) [] ∷ [])
  FailsAlone by_subject m f = Lacks Contains f.subject (m.subject ∷ [])
  FailsAlone by_q m f =
      Lacks Contains f.q
        (m.subject ∷ m.from.address ∷ get_or m.from.name [] ∷ address_texts (recipients m))
  FailsAlone by_since m f =
      (s : Since) × (t : ℕ) × (u : ℕ) × (f.since ≡ some s)
      × (parse_date m.created_at ≡ some t)
      × (since_time lower parse_date s ≡ some u)
      × (t < u)
  FailsAlone by_body m f = (v : Text) × IsSetTo f.body v

  -- A body is given as the reason only if nothing else fails.
  abbrev pub Fails : Criterion → MessageSummary → MessageFilter → Type 0
  Fails by_body m f =
      FailsAlone by_body m f
      × (¬ FailsAlone by_address m f)
      × (¬ FailsAlone by_to m f)
      × (¬ FailsAlone by_from m f)
      × (¬ FailsAlone by_subject m f)
      × (¬ FailsAlone by_q m f)
      × (¬ FailsAlone by_since m f)
  Fails k m f = FailsAlone k m f

  abbrev hits : Text → Text → Bool
  hits v t = includes (lower t) (lower (trim v))

  any-address_texts :
      (v : Text) (rs : List Address)
      → any (λ a. address_includes lower parse_date a v) rs ≡ any (hits v) (address_texts rs)
  unfolding address_includes field_includes
  any-address_texts v [] = refl
  any-address_texts v (a ∷ rs) = ground (arith, any-address_texts v rs)

  -- A criterion tested on a list of texts.
  Lacks-iff :
      (o : Option Text) (hit : Text → Bool) (reason : Text → Reason) (Fits : Text → Text → Type 0)
      (p : Text → Text → Bool) (texts : List Text)
      → ((v : Text) → hit v ≡ any (p v) texts)
      → ((v t : Text) → (p v t ≡ true) ↔ Fits v t)
      → (is_nil (unless o hit reason) ≡ false) ↔ Lacks Fits o texts
  Lacks-iff o hit reason Fits p texts same fits = (
    λ e.
        let (v, set, miss) = (unless_iff o hit reason).0 e in
        (
          v,
          set,
          λ (t, m, k). (not_any_iff (p v) texts).0 (sym (same v) ∙ miss) (t, m, (fits v t).1 k),
        ),
    λ (v, set, none_fits). (unless_iff o hit reason).1 (
      v,
      set,
      same v ∙ (not_any_iff (p v) texts).1 (λ (t, m, k). none_fits (t, m, (fits v t).0 k)),
    ),
  )

  module _ (m : MessageSummary) (f : MessageFilter) where
    pub address_iff :
        (is_nil (address_reasons lower parse_date m f) ≡ false) ↔ FailsAlone by_address m f
    unfolding address_reasons
    address_iff =
        Lacks-iff f.address _ not_sent_to _ (λ v t. text_eq (lower t) (lower (trim v))) _
          (λ v. refl) (λ v t. text_eq_iff (lower t) (lower (trim v)))

    pub to_iff : (is_nil (to_reasons lower parse_date m f) ≡ false) ↔ FailsAlone by_to m f
    unfolding to_reasons field_includes
    to_iff =
        Lacks-iff f.to _ no_recipient Contains hits _
          (λ v. ground (
            arith,
            any-address_texts v (recipients m),
            any-append (hits v) (address_texts (recipients m)) (envelope_to m),
          ))
          (λ v t. includes_iff (lower t) (lower (trim v)))

    pub from_iff : (is_nil (from_reasons lower parse_date m f) ≡ false) ↔ FailsAlone by_from m f
    unfolding from_reasons field_includes
    from_iff =
        Lacks-iff f.from _ (from_other m.from.address) Contains hits _ (λ v. ground arith)
          (λ v t. includes_iff (lower t) (lower (trim v)))

    pub subject_iff :
        (is_nil (subject_reasons lower parse_date m f) ≡ false) ↔ FailsAlone by_subject m f
    unfolding subject_reasons field_includes
    subject_iff =
        Lacks-iff f.subject _ subject_lacks Contains hits _ (λ v. ground arith)
          (λ v t. includes_iff (lower t) (lower (trim v)))

    pub q_iff : (is_nil (query_reasons lower parse_date m f) ≡ false) ↔ FailsAlone by_q m f
    unfolding query_reasons field_includes
    q_iff =
        Lacks-iff f.q _ no_match Contains hits _
          (λ v. ground (arith, any-address_texts v (recipients m)))
          (λ v t. includes_iff (lower t) (lower (trim v)))

    pub since_iff : (is_nil (since_reasons lower parse_date m f) ≡ false) ↔ FailsAlone by_since m f
    unfolding since_reasons
    since_iff = elim (Option-cases f.since) [
      | inl e ↦ (λ h. ground arith, λ (s, t, u, found, _, _, _). cc)
      | inr (s, e) ↦ (
        λ h.
            let (t, u, a, b, lt) =
              before_sound (parse_date m.created_at) (since_time lower parse_date s)
                (ground arith) in
            (s, t, u, e, a, b, lt),
        λ (s', t, u, found, a, b, lt). ground (arith, lt→ltb t u lt),
      )
    ]
