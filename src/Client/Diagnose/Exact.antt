-- ===== src/Client/Diagnose/Exact.antt =====
-- packages/client/src/diagnose.ts: `explainMismatch` gives the reasons that hold, and no other.
use mailpeek.Prelude.{ℕ, ◌≡◌, ◌↔◌, true, false, Option, any, Text}
use mailpeek.Client.Types.{MessageSummary, MessageFilter}
use mailpeek.Client.Diagnose.{is_nil, body_reasons, explain_mismatch}
use mailpeek.Client.Diagnose.Criteria.{
  Criterion, by_address, by_to, by_from, by_subject, by_q, by_since, by_body, is_about, by_piece,
  holds_iff, Fails, address_iff, to_iff, from_iff, subject_iff, q_iff, since_iff,
}
use mailpeek.Client.Diagnose.Pieces.{r₁, any-explain, is_nil_rest, body_iff}

module _ (lower : Text → Text) (parse_date : Text → Option ℕ) (m : MessageSummary)
    (f : MessageFilter) where
  Fails-body_iff :
      (is_nil (body_reasons lower parse_date f (r₁ lower parse_date m f)) ≡ false)
      ↔ Fails lower parse_date by_body m f
  Fails-body_iff = (
    λ e.
        let (set, nil) = (body_iff lower parse_date m f).0 e in
        let (a, b, c, d, q, s) = (is_nil_rest lower parse_date m f).0 nil in
        (
          set,
          (holds_iff _ (address_iff lower parse_date m f)).0 a,
          (holds_iff _ (to_iff lower parse_date m f)).0 b,
          (holds_iff _ (from_iff lower parse_date m f)).0 c,
          (holds_iff _ (subject_iff lower parse_date m f)).0 d,
          (holds_iff _ (q_iff lower parse_date m f)).0 q,
          (holds_iff _ (since_iff lower parse_date m f)).0 s,
        ),
    λ (set, a, b, c, d, q, s). (body_iff lower parse_date m f).1 (
      set,
      (is_nil_rest lower parse_date m f).1 (
        (holds_iff _ (address_iff lower parse_date m f)).1 a,
        (holds_iff _ (to_iff lower parse_date m f)).1 b,
        (holds_iff _ (from_iff lower parse_date m f)).1 c,
        (holds_iff _ (subject_iff lower parse_date m f)).1 d,
        (holds_iff _ (q_iff lower parse_date m f)).1 q,
        (holds_iff _ (since_iff lower parse_date m f)).1 s,
      ),
    ),
  )

  -- A reason of a kind is given exactly if the message fails that criterion of the filter: `address`, if
  -- no address of To and Cc, nor of the envelope, is the given one; `to`, if no address or name of To
  -- and Cc, nor a recipient of the envelope, contains it; `from`, if neither the address and name of the
  -- sender nor the sender of the envelope do; `subject`, if the subject does not; `q`, if neither the
  -- subject, nor an address or name of the sender, To and Cc does (unlike the server, which also
  -- searches the envelope and the body); `since`, if the message is older; and `body`, if a body is
  -- asked for and all other criteria hold. Case and the outer blanks of what is asked for do not count.
  pub explain_mismatch_iff :
      (k : Criterion)
      → (any (is_about k) (explain_mismatch lower parse_date m f) ≡ true)
        ↔ Fails lower parse_date k m f
  explain_mismatch_iff by_address =
      by_piece _ (any-explain lower parse_date m f by_address) (address_iff lower parse_date m f)
  explain_mismatch_iff by_to =
      by_piece _ (any-explain lower parse_date m f by_to) (to_iff lower parse_date m f)
  explain_mismatch_iff by_from =
      by_piece _ (any-explain lower parse_date m f by_from) (from_iff lower parse_date m f)
  explain_mismatch_iff by_subject =
      by_piece _ (any-explain lower parse_date m f by_subject) (subject_iff lower parse_date m f)
  explain_mismatch_iff by_q =
      by_piece _ (any-explain lower parse_date m f by_q) (q_iff lower parse_date m f)
  explain_mismatch_iff by_since =
      by_piece _ (any-explain lower parse_date m f by_since) (since_iff lower parse_date m f)
  explain_mismatch_iff by_body =
      by_piece _ (any-explain lower parse_date m f by_body) Fails-body_iff
