-- ===== src/Client/Message.antt =====
-- packages/client/src/client.ts: the text of a timeout. The filter is given by its entries, in the order
-- in which the caller wrote them; `quote` is `JSON.stringify` of a string. The text is `none` where
-- `toISOString` throws.
pub mod Reasons
mod Tests
use mailpeek.Prelude.{
  ℕ, ◌-◌, ◌/◌, Bool, true, false, not, Option, none, some, List, [], ◌∷◌, ◌++◌, map, ◌==◌,
  if◌then◌else◌, tests, take, drop, filter, Text, codes, join, is_empty,
}
use mailpeek.Client.Types.{Address, MessageSummary}
use mailpeek.Client.Diagnose.{Reason, reason_text}
use mailpeek.Client.Platform.{Platform, Diagnostics}

pub data Entry : Type 0 where
  undefined : Entry
  string : Text → Entry
  date : Option ℕ → Entry
  number : ℕ → Entry

abbrev pub is_given : Text × Entry → Bool
is_given (key, undefined) = false
is_given (key, string s) = not (is_empty s)
is_given (key, date t) = true
is_given (key, number n) = true

abbrev pub or_text : Text → Text → Text
or_text a b = if is_empty a then b else a

-- A list of texts, if each is one.
abbrev pub cons_text : Option Text → Option (List Text) → Option (List Text)
cons_text (some t) (some ts) = some (t ∷ ts)
cons_text (some t) none = none
cons_text none ts = none

abbrev pub plural : ℕ → Text
plural n = if n == 1 then [] else codes "s"

module _ (p : Platform) (quote : Text → Text) where
  abbrev pub value_text : Entry → Option Text
  value_text undefined = none
  value_text (string s) = some (quote s)
  value_text (date none) = none
  value_text (date (some t)) = some (quote (p.iso t))
  value_text (number n) = some (p.show_number n)

  abbrev pub entry_text : Text × Entry → Option Text
  entry_text (key, value) = elim (value_text value) [
    | none ↦ none
    | some v ↦ some (key ++ (codes "=" ++ v))
  ]

  unfoldable pub entry_texts : List (Text × Entry) → Option (List Text)
  entry_texts [] = some []
  entry_texts (e ∷ es) = cons_text (entry_text e) (entry_texts es)

  abbrev pub braces : List Text → Text
  braces [] = codes "any filter"
  braces (t ∷ ts) = codes "{ " ++ (join (codes ", ") (t ∷ ts) ++ codes " }")

  unfoldable pub describe : List (Text × Entry) → Option Text
  describe entries = elim (entry_texts (filter is_given entries)) [
    | none ↦ none
    | some ts ↦ some (braces ts)
  ]

  abbrev pub head : Text → (timeout : ℕ) → Option (ℕ × ℕ) → Text
  head what timeout none =
      codes "No email matching "
      ++ (what ++ (codes " arrived within " ++ (p.show_number timeout ++ codes "ms")))
  head what timeout (some (received, expected)) =
      codes "Only "
      ++ (p.show_number received
          ++ (codes " of "
              ++ (p.show_number expected
                  ++ (codes " emails matching "
                      ++ (what
                          ++ (codes " arrived within "
                              ++ (p.show_number timeout ++ codes "ms")))))))

  abbrev pub envelope_recipients : MessageSummary → Text
  envelope_recipients m = elim m.envelope [ none ↦ [] | some e ↦ join (codes ", ") e.to ]

  abbrev pub to_text : MessageSummary → Text
  to_text m =
      or_text
        (or_text (join (codes ", ") (map (λ (a : Address). a.address) (m.to ++ m.cc)))
          (envelope_recipients m))
        (codes "(none)")

  abbrev pub why : List Reason → Text
  why [] = codes "matches (it arrived after the wait ended?)"
  why (r ∷ rs) = join (codes "; ") (map (reason_text quote) (r ∷ rs))

  abbrev pub recent_head : MessageSummary → (time : ℕ) → Text
  recent_head m time =
      codes "  - "
      ++ (quote m.subject
          ++ (codes " to "
              ++ (to_text m ++ (codes " at " ++ (take 12 (drop 11 (p.iso time)) ++ codes ": ")))))

  unfoldable pub recent_line : MessageSummary × List Reason → Option Text
  recent_line (m, reasons) = elim (p.parse_date m.created_at) [
    | none ↦ none
    | some time ↦ some (recent_head m time ++ why reasons)
  ]

  unfoldable pub recent_lines : List (MessageSummary × List Reason) → Option (List Text)
  recent_lines [] = some []
  recent_lines (r ∷ rs) = cons_text (recent_line r) (recent_lines rs)

  abbrev pub held_head : Diagnostics → Text
  held_head d =
      codes "Mailpeek holds "
      ++ (p.show_number d.total ++ (codes " message" ++ (plural d.total ++ codes ". Most recent:")))

  unfoldable pub held_lines : Diagnostics → Option (List Text)
  held_lines d =
      if d.total == 0
      then some (
          codes
            "Mailpeek holds no messages at all: is the application sending to this Mailpeek's SMTP port?"
          ∷ [])
      else cons_text (some (held_head d)) (recent_lines d.recent)

  abbrev pub evicted_lines : Diagnostics → List Text
  evicted_lines d =
      if d.evicted_count == 0
      then []
      else (p.show_number d.evicted_count
          ++ (codes " message(s) were removed because Mailpeek reached its limits "
              ++ codes
                  "(MAILPEEK_MAX_MESSAGES / MAILPEEK_MAX_STORE_SIZE). Raise them if parallel tests need more."))
        ∷ []

  abbrev pub inspect_line : Diagnostics → Text
  inspect_line d = codes "Inspect: " ++ d.inspect_url

  unfoldable pub explained : Text → Diagnostics → Option Text
  explained first d = elim (held_lines d) [
    | none ↦ none
    | some held ↦ some (
        join (codes "\n")
          ((first ++ codes ".") ∷ (held ++ (evicted_lines d ++ (inspect_line d ∷ [])))))
  ]

  abbrev pub with_diagnostics : Text → Option Diagnostics → Option Text
  with_diagnostics first none = some first
  with_diagnostics first (some d) = explained first d

  unfoldable pub timeout_message :
      List (Text × Entry)
      → (timeout : ℕ) → Option Diagnostics
      → (progress : Option (ℕ × ℕ)) → Option Text
  timeout_message entries timeout d progress = elim (describe entries) [
    | none ↦ none
    | some what ↦ with_diagnostics (head what timeout progress) d
  ]
