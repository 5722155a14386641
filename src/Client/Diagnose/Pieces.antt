-- ===== src/Client/Diagnose/Pieces.antt =====
-- packages/client/src/diagnose.ts: the reasons of `explainMismatch` by the criterion they are about.
use mailpeek.Prelude.{
  ℕ, ◌≡◌, ◌↔◌, Bool, true, false, not, ◌&&◌, Option, none, some, List, [], ◌∷◌, ◌++◌, arith, any,
  Text,
}
use mailpeek.Client.Types.{MessageSummary, MessageFilter, IsSetTo}
use mailpeek.Client.Diagnose.{
  Reason, not_sent_to, no_recipient, subject_lacks, no_match, body_lacks, from_other, too_early,
  is_nil, address_reasons, to_reasons, from_reasons, subject_reasons, query_reasons, since_reasons,
  body_reasons, explain_mismatch,
}
use mailpeek.Client.Diagnose.Criteria.{
  Criterion, by_address, by_to, by_from, by_subject, by_q, by_since, by_body, is_about, any-append,
  is_nil-append, unless_iff, unless,
}

module _ (lower : Text → Text) (parse_date : Text → Option ℕ) (m : MessageSummary)
    (f : MessageFilter) where
  -- The reasons of one kind come from one `if`.
  any-unless :
      (p : Reason → Bool) (o : Option Text) (hit : Text → Bool) (reason : Text → Reason)
      → ((v : Text) → p (reason v) ≡ p (reason []))
      → any p (unless o hit reason) ≡ (p (reason []) && not (is_nil (unless o hit reason)))
  any-unless p none hit reason same = ground arith
  any-unless p (some []) hit reason same = ground arith
  any-unless p (some (c ∷ s)) hit reason same = ground (arith, same (c ∷ s))

  abbrev r₅ : List Reason
  r₅ = query_reasons lower parse_date m f ++ since_reasons lower parse_date m f

  abbrev r₄ : List Reason
  r₄ = subject_reasons lower parse_date m f ++ r₅

  abbrev r₃ : List Reason
  r₃ = from_reasons lower parse_date m f ++ r₄

  abbrev r₂ : List Reason
  r₂ = to_reasons lower parse_date m f ++ r₃

  abbrev pub r₁ : List Reason
  r₁ = address_reasons lower parse_date m f ++ r₂

  abbrev pub pieces : Criterion → Bool
  pieces by_address = not (is_nil (address_reasons lower parse_date m f))
  pieces by_to = not (is_nil (to_reasons lower parse_date m f))
  pieces by_from = not (is_nil (from_reasons lower parse_date m f))
  pieces by_subject = not (is_nil (subject_reasons lower parse_date m f))
  pieces by_q = not (is_nil (query_reasons lower parse_date m f))
  pieces by_since = not (is_nil (since_reasons lower parse_date m f))
  pieces by_body = not (is_nil (body_reasons lower parse_date f r₁))

  any-address :
      (k : Criterion)
      → any (is_about k) (address_reasons lower parse_date m f)
        ≡ (is_about k (not_sent_to []) && pieces by_address)
  unfolding address_reasons
  any-address k = any-unless (is_about k) f.address _ _ λ v. ground arith

  any-to :
      (k : Criterion)
      → any (is_about k) (to_reasons lower parse_date m f)
        ≡ (is_about k (no_recipient []) && pieces by_to)
  unfolding to_reasons
  any-to k = any-unless (is_about k) f.to _ _ λ v. ground arith

  any-from :
      (k : Criterion)
      → any (is_about k) (from_reasons lower parse_date m f)
        ≡ (is_about k (from_other m.from.address []) && pieces by_from)
  unfolding from_reasons
  any-from k = any-unless (is_about k) f.from _ _ λ v. ground arith

  any-subject :
      (k : Criterion)
      → any (is_about k) (subject_reasons lower parse_date m f)
        ≡ (is_about k (subject_lacks []) && pieces by_subject)
  unfolding subject_reasons
  any-subject k = any-unless (is_about k) f.subject _ _ λ v. ground arith

  any-query :
      (k : Criterion)
      → any (is_about k) (query_reasons lower parse_date m f)
        ≡ (is_about k (no_match []) && pieces by_q)
  unfolding query_reasons
  any-query k = any-unless (is_about k) f.q _ _ λ v. ground arith

  any-since :
      (k : Criterion)
      → any (is_about k) (since_reasons lower parse_date m f)
        ≡ (is_about k too_early && pieces by_since)
  unfolding since_reasons
  any-since k = ground arith

  any-body :
      (k : Criterion)
      → any (is_about k) (body_reasons lower parse_date f r₁)
        ≡ (is_about k (body_lacks []) && pieces by_body)
  unfolding body_reasons
  any-body k = ground arith

  pub any-explain :
      (k : Criterion) → any (is_about k) (explain_mismatch lower parse_date m f) ≡ pieces k
  unfolding explain_mismatch
  any-explain k = ground (
    arith,
    any-append (is_about k) r₁ (body_reasons lower parse_date f r₁),
    any-append (is_about k) (address_reasons lower parse_date m f) r₂,
    any-append (is_about k) (to_reasons lower parse_date m f) r₃,
    any-append (is_about k) (from_reasons lower parse_date m f) r₄,
    any-append (is_about k) (subject_reasons lower parse_date m f) r₅,
    any-append (is_about k) (query_reasons lower parse_date m f)
        (since_reasons lower parse_date m f),
    any-address k,
    any-to k,
    any-from k,
    any-subject k,
    any-query k,
    any-since k,
    any-body k,
  )

  pub is_nil_rest : (is_nil r₁ ≡ true) ↔ (
      (is_nil (address_reasons lower parse_date m f) ≡ true)
      × (is_nil (to_reasons lower parse_date m f) ≡ true)
      × (is_nil (from_reasons lower parse_date m f) ≡ true)
      × (is_nil (subject_reasons lower parse_date m f) ≡ true)
      × (is_nil (query_reasons lower parse_date m f) ≡ true)
      × (is_nil (since_reasons lower parse_date m f) ≡ true))
  is_nil_rest = ground (
    arith,
    is_nil-append (address_reasons lower parse_date m f) r₂,
    is_nil-append (to_reasons lower parse_date m f) r₃,
    is_nil-append (from_reasons lower parse_date m f) r₄,
    is_nil-append (subject_reasons lower parse_date m f) r₅,
    is_nil-append (query_reasons lower parse_date m f) (since_reasons lower parse_date m f),
  )

  pub body_iff :
      (is_nil (body_reasons lower parse_date f r₁) ≡ false)
      ↔ (((v : Text) × IsSetTo f.body v) × (is_nil r₁ ≡ true))
  unfolding body_reasons
  body_iff = ground (arith, unless_iff f.body (λ v. not (is_nil r₁)) body_lacks)
