-- ===== src/Client/Diagnose.antt =====
-- packages/client/src/diagnose.ts: why a message does not match a filter. The lower-case mapping and
-- `Date.parse` are parameters.
pub mod Criteria
pub mod Pieces
pub mod Exact
use mailpeek.Prelude.{
  ℕ, Bool, true, false, not, ◌||◌, Option, none, some, get_or, List, [], ◌∷◌, ◌++◌, map, ltb,
  if◌then◌else◌, any, Text, codes, text_eq, is_empty, trim, includes,
}
use mailpeek.Client.Types.{
  Address, MessageSummary, Since, moment, text, number, MessageFilter, truthy,
}

pub data Reason : Type 0 where
  not_sent_to no_recipient subject_lacks no_match body_lacks : Text → Reason
  from_other : Text → Text → Reason
  too_early : Reason

-- `JSON.stringify` of a string is a parameter.
unfoldable pub reason_text : (Text → Text) → Reason → Text
reason_text quote (not_sent_to a) = codes "not sent to " ++ quote a
reason_text quote (no_recipient t) = codes "no recipient contains " ++ quote t
reason_text quote (subject_lacks s) = codes "subject does not contain " ++ quote s
reason_text quote (no_match q) =
    codes "does not match " ++ (quote q ++ codes " (subject, from, to or body)")
reason_text quote (body_lacks b) = codes "body does not contain " ++ quote b
reason_text quote (from_other a f) =
    codes "from " ++ ((if is_empty a then codes "(none)" else a) ++ (codes ", not " ++ quote f))
reason_text quote too_early = codes "received before `since`"

-- A comparison with NaN, the time of an invalid date, is false.
abbrev pub before : Option ℕ → Option ℕ → Bool
before (some a) (some b) = ltb a b
before none b = false
before (some a) none = false

abbrev pub is_nil {ℓ} : {A : Type ℓ} → List A → Bool
is_nil [] = true
is_nil (x ∷ xs) = false

abbrev pub envelope_to : MessageSummary → List Text
envelope_to m = elim (m.envelope) [ none ↦ [] | some e ↦ e.to ]

abbrev pub envelope_from : MessageSummary → Option Text
envelope_from m = elim (m.envelope) [ none ↦ none | some e ↦ some e.from ]

abbrev pub recipients : MessageSummary → List Address
recipients m = m.to ++ m.cc

module _ (lower : Text → Text) (parse_date : Text → Option ℕ) where
  -- `(value ?? "").toLowerCase().includes(needle.trim().toLowerCase())`
  unfoldable pub field_includes : Option Text → Text → Bool
  field_includes value needle = includes (lower (get_or value [])) (lower (trim needle))

  unfoldable pub address_includes : Address → Text → Bool
  address_includes a needle = field_includes (some a.address) needle || field_includes a.name needle

  abbrev pub since_time : Since → Option ℕ
  since_time (moment t) = t
  since_time (text s) = parse_date s
  since_time (number n) = some n

  -- Each `if` of the function: the reason that it pushes, if any.
  unfoldable pub address_reasons : MessageSummary → MessageFilter → List Reason
  address_reasons m f = elim (truthy f.address) [
    | none ↦ []
    | some address ↦
        let wanted = lower (trim address) in
        let addresses = map (λ (a : Address). a.address) (recipients m) ++ envelope_to m in
        if any (λ a. text_eq (lower a) wanted) addresses then [] else not_sent_to address ∷ []
  ]

  unfoldable pub to_reasons : MessageSummary → MessageFilter → List Reason
  to_reasons m f = elim (truthy f.to) [
    | none ↦ []
    | some to ↦
        if any (λ a. address_includes a to) (recipients m)
          || any (λ a. field_includes (some a) to) (envelope_to m)
        then []
        else no_recipient to ∷ []
  ]

  unfoldable pub from_reasons : MessageSummary → MessageFilter → List Reason
  from_reasons m f = elim (truthy f.from) [
    | none ↦ []
    | some from ↦
        if field_includes (some m.from.address) from
          || field_includes m.from.name from
          || field_includes (envelope_from m) from
        then []
        else from_other m.from.address from ∷ []
  ]

  unfoldable pub subject_reasons : MessageSummary → MessageFilter → List Reason
  subject_reasons m f = elim (truthy f.subject) [
    | none ↦ []
    | some subject ↦
        if field_includes (some m.subject) subject then [] else subject_lacks subject ∷ []
  ]

  unfoldable pub query_reasons : MessageSummary → MessageFilter → List Reason
  query_reasons m f = elim (truthy f.q) [
    | none ↦ []
    | some q ↦
        if field_includes (some m.subject) q
          || field_includes (some m.from.address) q
          || field_includes m.from.name q
          || any (λ a. address_includes a q) (recipients m)
        then []
        else no_match q ∷ []
  ]

  unfoldable pub since_reasons : MessageSummary → MessageFilter → List Reason
  since_reasons m f = elim (f.since) [
    | none ↦ []
    | some since ↦
        if before (parse_date m.created_at) (since_time since) then too_early ∷ [] else []
  ]

  -- `if (f.body && reasons.length === 0)`
  unfoldable pub body_reasons : MessageFilter → List Reason → List Reason
  body_reasons f reasons = elim (truthy f.body) [
    | none ↦ []
    | some body ↦ if is_nil reasons then body_lacks body ∷ [] else []
  ]

  unfoldable pub explain_mismatch : MessageSummary → MessageFilter → List Reason
  explain_mismatch m f =
      let reasons =
        address_reasons m f
        ++ (to_reasons m f
            ++ (from_reasons m f
                ++ (subject_reasons m f ++ (query_reasons m f ++ since_reasons m f)))) in
      reasons ++ body_reasons f reasons
