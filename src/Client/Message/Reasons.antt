-- ===== src/Client/Message/Reasons.antt =====
-- packages/client/src/client.ts: the text of a timeout tells why each recent message did not match.
use mailpeek.Prelude.{
  IsPart-refl, ℕ, ◌≡◌, refl, sym, ap, subst, ◌∙◌, ◌≢◌, inl, inr, Bool, true, false, Option, none,
  some, List, [], ◌∷◌, ◌++◌, map, arith, ◌==◌, Option-cases, all, filter, Text, codes, join, IsPart,
  IsPart-trans, IsPart-left, join-IsPart, Memᴰ,
}
use mathlib.Core.List as L
use mailpeek.Client.Types.{MessageSummary}
use mailpeek.Client.Diagnose.{Reason, reason_text}
use mailpeek.Client.Platform.{Platform, Diagnostics}
use mailpeek.Client.Message.{
  Entry, undefined, string, date, number, is_given, entry_texts, braces, cons_text, describe, head,
  why, recent_head, held_head, recent_line, recent_lines, held_lines, evicted_lines, inspect_line,
  explained, timeout_message,
}

cons_text_inv :
    (a : Option Text) (b : Option (List Text)) (ls : List Text)
    → cons_text a b ≡ some ls
    → (t : Text) × (ts : List Text) × (a ≡ some t) × (b ≡ some ts) × (ls ≡ t ∷ ts)
cons_text_inv (some t) (some ts) ls h = (t, ts, refl, refl, ground arith)
cons_text_inv (some t) none ls h = cc
cons_text_inv none b ls h = cc

cons_text-some :
    (a : Option Text) (t : Text) (b : Option (List Text)) (ts : List Text)
    → a ≡ some t
    → b ≡ some ts
    → cons_text a b ≡ some (t ∷ ts)
cons_text-some a t b ts ha hb = ground arith

-- An entry that is no invalid date.
abbrev pub is_valid : Text × Entry → Bool
is_valid (key, undefined) = true
is_valid (key, date none) = false
is_valid (key, date (some t)) = true
is_valid (key, number n) = true
is_valid (key, string s) = true

abbrev pub is_dated : Platform → MessageSummary × List Reason → Bool
is_dated p (m, reasons) = elim (p.parse_date m.created_at) [ none ↦ false | some t ↦ true ]

module _ (p : Platform) (quote : Text → Text) where
  why-IsPart :
      (reasons : List Reason) (r : Reason)
      → Memᴰ r reasons
      → IsPart (why p quote reasons) (reason_text quote r)
  why-IsPart [] r m = elim m [ ]
  why-IsPart (r' ∷ rs) r m =
      join-IsPart (codes "; ") (reason_text quote r) (map (reason_text quote) (r' ∷ rs))
        (L.Memᴰ.map (reason_text quote) m)

  recent_line-IsPart :
      (m : MessageSummary) (reasons : List Reason) (line : Text)
      → recent_line p quote (m, reasons) ≡ some line
      → IsPart line (why p quote reasons)
  unfolding recent_line
  recent_line-IsPart m reasons line h = elim (Option-cases (p.parse_date m.created_at)) [
    | inl e ↦ ground arith
    | inr (t, e) ↦
        let same : line ≡ recent_head p quote m t ++ why p quote reasons = ground arith in
        subst (λ l. IsPart l (why p quote reasons)) (sym same)
          (IsPart-left (recent_head p quote m t) (why p quote reasons) (why p quote reasons)
            (IsPart-refl (why p quote reasons)))
  ]

  recent_lines-Memᴰ :
      (rs : List (MessageSummary × List Reason)) (ls : List Text) (m : MessageSummary)
      (reasons : List Reason)
      → recent_lines p quote rs ≡ some ls
      → Memᴰ (m, reasons) rs
      → (line : Text) × (recent_line p quote (m, reasons) ≡ some line) × Memᴰ line ls
  unfolding recent_lines
  recent_lines-Memᴰ [] ls m reasons h listed = elim listed [ ]
  recent_lines-Memᴰ (r ∷ rs) ls m reasons h listed =
      let (t, ts, e, e', same) =
        cons_text_inv (recent_line p quote r) (recent_lines p quote rs) ls h in
      elim (L.Memᴰ.cases_cons listed) [
        | inl first ↦
            (t, ap (recent_line p quote) first ∙ e, subst (Memᴰ t) (sym same) (Memᴰ.head refl))
        | inr later ↦
            let (line, found, m') = recent_lines-Memᴰ rs ts m reasons e' later in
            (line, found, subst (Memᴰ line) (sym same) (Memᴰ.tail m'))
      ]

  held_lines-Memᴰ :
      (d : Diagnostics) (held : List Text) (m : MessageSummary) (reasons : List Reason)
      → held_lines p quote d ≡ some held
      → d.total ≢ 0
      → Memᴰ (m, reasons) d.recent
      → (line : Text) × (recent_line p quote (m, reasons) ≡ some line) × Memᴰ line held
  unfolding held_lines
  held_lines-Memᴰ d held m reasons h some_held listed =
      let some_left : (d.total == 0) ≡ false = ground arith in
      let (t, ts, e, e', same) =
        cons_text_inv (some (held_head p quote d)) (recent_lines p quote d.recent) held
          (ground arith) in
      let (line, found, m') = recent_lines-Memᴰ d.recent ts m reasons e' listed in
      (line, found, subst (Memᴰ line) (sym same) (Memᴰ.tail m'))

  given_texts :
      (es : List (Text × Entry))
      → all is_valid es ≡ true
      → (ts : List Text) × (entry_texts p quote (filter is_given es) ≡ some ts)
  unfolding entry_texts
  given_texts [] h = ([], refl)
  given_texts ((key, undefined) ∷ es) h = given_texts es (ground arith)
  given_texts ((key, date none) ∷ es) h = cc
  given_texts ((key, date (some t)) ∷ es) h =
      let (ts, e) = given_texts es (ground arith) in (_, cons_text-some _ _ _ _ refl e)
  given_texts ((key, number n) ∷ es) h =
      let (ts, e) = given_texts es (ground arith) in (_, cons_text-some _ _ _ _ refl e)
  given_texts ((key, string []) ∷ es) h = given_texts es (ground arith)
  given_texts ((key, string (c ∷ s)) ∷ es) h =
      let (ts, e) = given_texts es (ground arith) in (_, cons_text-some _ _ _ _ refl e)

  dated_lines :
      (rs : List (MessageSummary × List Reason))
      → all (is_dated p) rs ≡ true
      → (ls : List Text) × (recent_lines p quote rs ≡ some ls)
  unfolding recent_lines recent_line
  dated_lines [] h = ([], refl)
  dated_lines ((m, reasons) ∷ rs) h =
      let (ls, e) = dated_lines rs (ground arith) in
      elim (Option-cases (p.parse_date m.created_at)) [
        | inl e' ↦ ground arith
        | inr (t, e') ↦ (
          _,
          cons_text-some _ (recent_head p quote m t ++ why p quote reasons) _ _
              (rw (e', recent_line) refl) e,
        )
      ]

  reasons-IsPart :
      (entries : List (Text × Entry)) (timeout : ℕ) (d : Diagnostics) (progress : Option (ℕ × ℕ))
      (message : Text) (m : MessageSummary) (reasons : List Reason) (r : Reason)
      → timeout_message p quote entries timeout (some d) progress ≡ some message
      → d.total ≢ 0
      → Memᴰ (m, reasons) d.recent
      → Memᴰ r reasons
      → IsPart message (reason_text quote r) × IsPart message d.inspect_url
  unfolding timeout_message explained
  reasons-IsPart entries timeout d progress message m reasons r h some_held listed why_not =
      elim (Option-cases (describe p quote entries)) [
        | inl e ↦ ground arith
        | inr (what, e) ↦ elim (Option-cases (held_lines p quote d)) [
          | inl e' ↦ ground arith
          | inr (held, e') ↦
              let first = head p quote what timeout progress ++ codes "." in
              let all_lines =
                first ∷ (held ++ (evicted_lines p quote d ++ (inspect_line p quote d ∷ []))) in
              let same : message ≡ join (codes "\n") all_lines = ground arith in
              let (line, found, m') = held_lines-Memᴰ d held m reasons e' some_held listed in
              let in_line : IsPart line (reason_text quote r) =
                IsPart-trans line (why p quote reasons) (reason_text quote r)
                  (recent_line-IsPart m reasons line found) (why-IsPart reasons r why_not) in
              let in_text : IsPart (join (codes "\n") all_lines) line =
                join-IsPart (codes "\n") line all_lines (Memᴰ.tail (L.Memᴰ.append_left _ m')) in
              let link : IsPart (join (codes "\n") all_lines) (inspect_line p quote d) =
                join-IsPart (codes "\n") (inspect_line p quote d) all_lines (
                  Memᴰ.tail (
                    L.Memᴰ.append_right held
                      (L.Memᴰ.append_right (evicted_lines p quote d) (Memᴰ.head refl)))) in
              subst (λ t. IsPart t (reason_text quote r) × IsPart t d.inspect_url) (sym same)
                (
                  IsPart-trans _ line (reason_text quote r) in_text in_line,
                  IsPart-trans _ (inspect_line p quote d) d.inspect_url link (
                      IsPart-left (codes "Inspect: ") d.inspect_url d.inspect_url
                        (IsPart-refl d.inspect_url)),
                )
        ]
      ]

  describe-some :
      (entries : List (Text × Entry))
      → all is_valid entries ≡ true
      → (what : Text) × (describe p quote entries ≡ some what)
  unfolding describe
  describe-some entries valid =
      let (ts, e) = given_texts entries valid in (braces p quote ts, rw (e, describe) refl)

  held_lines-some :
      (d : Diagnostics)
      → all (is_dated p) d.recent ≡ true
      → d.total ≢ 0
      → (held : List Text) × (held_lines p quote d ≡ some held)
  unfolding held_lines
  held_lines-some d dated some_held =
      let (ls, e) = dated_lines d.recent dated in
      let some_left : (d.total == 0) ≡ false = ground arith in
      (held_head p quote d ∷ ls, rw (some_left, e) refl)

  timeout_message-some :
      (entries : List (Text × Entry)) (timeout : ℕ) (d : Diagnostics) (progress : Option (ℕ × ℕ))
      → all is_valid entries ≡ true
      → all (is_dated p) d.recent ≡ true
      → d.total ≢ 0
      → (message : Text) × (timeout_message p quote entries timeout (some d) progress
          ≡ some message)
  unfolding timeout_message explained
  timeout_message-some entries timeout d progress valid dated some_held =
      let (what, e) = describe-some entries valid in
      let (held, e') = held_lines-some d dated some_held in
      let first = head p quote what timeout progress ++ codes "." in
      (
        join (codes "\n")
            (first ∷ (held ++ (evicted_lines p quote d ++ (inspect_line p quote d ∷ [])))),
        rw (e, timeout_message, e', explained) refl,
      )

  -- The error of a timeout whose diagnostics found messages on the server has a text, if the dates of the
  -- filter and of the recent messages are valid; the text holds each reason for which a recent message
  -- did not match, and the address to inspect them at.
  pub timeout_message-reasons :
      (entries : List (Text × Entry)) (timeout : ℕ) (d : Diagnostics) (progress : Option (ℕ × ℕ))
      (m : MessageSummary) (reasons : List Reason) (r : Reason)
      → all is_valid entries ≡ true
      → all (is_dated p) d.recent ≡ true
      → d.total ≢ 0
      → Memᴰ (m, reasons) d.recent
      → Memᴰ r reasons
      → (message : Text) × (timeout_message p quote entries timeout (some d) progress
          ≡ some message)
        × IsPart message (reason_text quote r)
        × IsPart message d.inspect_url
  timeout_message-reasons entries timeout d progress m reasons r valid dated some_held listed
        why_not =
      let (message, e) = timeout_message-some entries timeout d progress valid dated some_held in
      let (told, link) =
        reasons-IsPart entries timeout d progress message m reasons r e some_held listed why_not in
      (message, e, told, link)
