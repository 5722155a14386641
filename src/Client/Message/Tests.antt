-- ===== src/Client/Message/Tests.antt =====
-- The text of a timeout, and its theorem for one.
use mailpeek.Prelude.{
  ◌+◌, ◌≡◌, refl, false, none, some, List, [], ◌∷◌, ◌++◌, arith, Text, codes, join, IsPart, Memᴰ,
}
use mailpeek.Client.Types.{MessageSummary}
use mailpeek.Client.Diagnose.{no_recipient, too_early, reason_text}
use mailpeek.Client.Platform.{Platform, Diagnostics, rejected}
use mailpeek.Client.Message.{
  Entry, undefined, string, number, entry_texts, describe, recent_line, recent_lines, held_lines,
  explained, timeout_message,
}
use mailpeek.Client.Message.Reasons.{timeout_message-reasons}

-- Numbers are printed as one digit, and every time is the same.
abbrev texts : Platform
texts = record {
  World = Unit {0};
  clock = λ w. 0;
  now = λ w. (0, w);
  fetch = λ r w. (rejected false false [], w);
  signal_aborted = λ w. false;
  lower = λ s. s;
  parse_date = λ s. some 0;
  iso = λ t. codes "2026-01-02T10:20:30.400Z";
  encode = λ s. s;
  show_number = λ n. (48 + n) ∷ [];
}

abbrev quoted : Text → Text
quoted s = codes "\"" ++ (s ++ codes "\"")

abbrev welcome : MessageSummary
welcome = record {
  id = codes "1";
  from = record { name = none; address = codes "app@x.test" };
  to = record { name = none; address = codes "ana@x.test" } ∷ [];
  cc = [];
  subject = codes "Welcome";
  envelope = none;
  attachments = 0;
  size = 10;
  created_at = [];
}

abbrev seen : Diagnostics
seen = record {
  recent = (welcome, no_recipient (codes "bob") ∷ (too_early ∷ [])) ∷ [];
  total = 1;
  evicted_count = 0;
  inspect_url = codes "http://m/?q=bob";
}

abbrev wanted : List (Text × Entry)
wanted =
    (codes "to", string (codes "bob")) ∷ ((codes "q", undefined) ∷ ((codes "since", number 6) ∷ []))

wording : Unit {0}
unfolding timeout_message explained held_lines recent_lines recent_line describe entry_texts
    reason_text
wording = tt

head_test :
    timeout_message texts quoted wanted 5 none (some (1, 2))
    ≡ some (codes "Only 1 of 2 emails matching { to=\"bob\", since=6 } arrived within 5ms")
unfolding wording
head_test = refl

timeout_message_test :
    timeout_message texts quoted wanted 5 (some seen) none
    ≡ some (
        join (codes "\n") (
          codes "No email matching { to=\"bob\", since=6 } arrived within 5ms."
          ∷ (codes "Mailpeek holds 1 message. Most recent:"
              ∷ (codes
                    "  - \"Welcome\" to ana@x.test at 10:20:30.400: no recipient contains \"bob\"; received before `since`"
                  ∷ (codes "Inspect: http://m/?q=bob" ∷ [])))))
unfolding wording
timeout_message_test = refl

timeout_message-reasons_example :
    (message : Text) × (timeout_message texts quoted wanted 5 (some seen) none ≡ some message)
    × IsPart message (reason_text quoted too_early)
    × IsPart message seen.inspect_url
timeout_message-reasons_example =
    timeout_message-reasons texts quoted wanted 5 seen none welcome
      (no_recipient (codes "bob") ∷ (too_early ∷ [])) too_early refl refl (omega arith)
      (Memᴰ.head refl) (Memᴰ.tail (Memᴰ.head refl))
