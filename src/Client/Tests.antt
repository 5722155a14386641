-- ===== src/Client/Tests.antt =====
-- Runs of the client, and its theorems at concrete inputs.
mod Rounds
use mailpeek.Prelude.{
  ℕ, suc, ◌+◌, ◌≤◌, ◌≡◌, refl, ◌≢◌, ◌↔◌, ◌⊎◌, true, false, ◌&&◌, Option, none, some, List, [], ◌∷◌,
  map, arith, ltb, leb, if◌then◌else◌, length, any, All, Text, codes, is_space, trim_start,
  trim_end, trim, Memᴰ,
}
use mailpeek.Client.Platform.{invalid_date}
use mailpeek.Client.Inbox.{create_inbox, random_id, confine}
use mailpeek.Client.Inbox.Address.{IsAlphanumeric, random_id_lem, query-address}
use mailpeek.Client.Types.{Link}
use mailpeek.Client.Email.{
  Email, new_email, by_text, find_link, has_link, match_links, normalize, collapse, is_exact,
  is_part, is_in_href,
}
use mailpeek.Client.Email.Links.{HasText, HasInText, HasInHref, IsFirst, HasNone, find_link_iff}
use mailpeek.Client.Types.{Address, MessageSummary, MessageFilter, number, any_message}
use mailpeek.Client.Diagnose.{
  no_recipient, address_reasons, to_reasons, from_reasons, subject_reasons, query_reasons,
  since_reasons, body_reasons, field_includes, address_includes, explain_mismatch, too_early,
}
use mailpeek.Client.Platform.{
  Platform, Reply, Response, response, not_json, message, done, summaries,
}
use mailpeek.Client.Types.{MessageData}
use mailpeek.Client.Requests.{
  query, set_params, since_params, send, settle, expect_summaries, Config, messages,
}
use mailpeek.Client.Ensures.{Ensures}
use mailpeek.Client.Clock.{IsClock}
use mailpeek.Client.Wait.{WaitOptions, wait_for, wait_for_emails, get_all}
use mailpeek.Client.Wait.Deadline.{IsHeld, IsDelivered, GivesUpAt, wait_for_ends}
use mailpeek.Client.Wait.Batch.{wait_for_emails_ready}
use mailpeek.Client.Diagnose.Criteria.{by_to, is_about, Fails}
use mailpeek.Client.Diagnose.Exact.{explain_mismatch_iff}

-- `toLowerCase` on ASCII text.
abbrev lower_ascii : Text → Text
lower_ascii s = map (λ c. if leb b'A' c && leb c b'Z' then c + 32 else c) s

abbrev first_unit : Text → Option ℕ
first_unit [] = none
first_unit (c ∷ s) = some c

abbrev ana : Address
ana = record { name = some (codes "Ana"); address = codes "ana@x.test" }

abbrev welcome : MessageSummary
welcome = record {
  id = codes "1";
  from = record { name = none; address = codes "app@x.test" };
  to = ana ∷ [];
  cc = [];
  subject = codes "Welcome";
  envelope = none;
  attachments = 0;
  size = 10;
  created_at = 5 ∷ [];
}

abbrev to_bob : MessageFilter
to_bob = record any_message {
  to = some (codes " BOB ");
  since = some (number 6);
  body = some (codes "hi");
}

diagnosis : Unit {0}
unfolding explain_mismatch address_reasons to_reasons from_reasons subject_reasons query_reasons
    since_reasons body_reasons field_includes address_includes trim trim_start trim_end
diagnosis = tt

explain_test :
    explain_mismatch lower_ascii first_unit welcome to_bob
    ≡ no_recipient (codes " BOB ") ∷ too_early ∷ []
unfolding diagnosis
explain_test = refl

explain_mismatch_iff_example :
    (any (is_about by_to) (explain_mismatch lower_ascii first_unit welcome to_bob) ≡ true)
    ↔ Fails lower_ascii first_unit by_to welcome to_bob
explain_mismatch_iff_example = explain_mismatch_iff lower_ascii first_unit welcome to_bob by_to

-- A platform whose server answers nothing before the time 40000, and then a message.
abbrev found : MessageData
found = record {
  id = codes "1";
  message_id = none;
  from = ana;
  to = none;
  cc = none;
  reply_to = none;
  subject = [];
  date = none;
  text = none;
  html = none;
  headers = none;
  attachments = none;
  links = none;
  envelope = none;
  size = 0;
  created_at = [];
}

abbrev toy_reply : ℕ → Reply × ℕ
toy_reply w =
    if ltb w 40000
    then (response (record { status = 204; body = not_json }), w + 30000)
    else (response (record { status = 200; body = message found }), w)

abbrev toy : Platform
toy = record {
  World = ℕ;
  clock = λ w. w;
  now = λ w. (w, w);
  fetch = λ r w. toy_reply w;
  signal_aborted = λ w. false;
  lower = lower_ascii;
  parse_date = first_unit;
  iso = λ t. t ∷ [];
  encode = λ s. s;
  show_number = λ n. n ∷ [];
}

abbrev pub config : Config
config = record { timeout = 10000; request_timeout = 10000; base_url = []; inbox_domain = [] }

abbrev long_wait : WaitOptions
long_wait = record { filter = to_bob; timeout = some 45000 }

toy-IsClock : IsClock toy
toy-IsClock = record {
  now_reads = λ w. refl;
  now_later = λ w. omega arith;
  fetch_later = λ r w. ground arith;
}

toy-IsHeld : IsHeld toy config
toy-IsHeld = record {
  held = λ chunk params w res w' short sent a other. held_at chunk w res w' short a.replied other;
}
  where
    held_at :
        (chunk w : ℕ) (res : Response) (w' : ℕ)
        → chunk ≤ 30000
        → toy_reply w ≡ (response res, w')
        → res.status ≢ 200
        → w + chunk ≤ w'
    held_at chunk w res w' short e other = ground arith

wait_for_ends_example :
    Ensures
      (λ e w'. IsDelivered toy config 45000 e)
      (GivesUpAt toy config to_bob 45000 45000)
      (wait_for toy config 2 long_wait 0)
wait_for_ends_example = wait_for_ends toy config toy-IsClock toy-IsHeld 2 long_wait 0 (omega arith)

-- A platform whose server lists two messages, the newest first.
abbrev two_messages : List MessageSummary
two_messages = record welcome { id = codes "2" } ∷ welcome ∷ []

abbrev pub listing : Platform
listing = record toy {
  fetch = λ r w. (response (record { status = 200; body = summaries two_messages }), suc w);
}

abbrev pub any_wait : WaitOptions
any_wait = record { filter = any_message; timeout = none }

listed : messages listing 10000 any_message 0 ≡ done two_messages 1
unfolding messages query since_params send settle expect_summaries
listed = refl

wait_for_emails_ready_example :
    wait_for_emails listing config 1 1 2 any_wait 0
    ≡ get_all listing config (welcome ∷ record welcome { id = codes "2" } ∷ []) 1
wait_for_emails_ready_example =
    wait_for_emails_ready listing config 1 0 2 any_wait 0 1 two_messages listed (omega arith)

-- An email with three links, of which the second has the text that is looked for.
abbrev linked : Email
linked = record (new_email first_unit found) {
  links =
      record { text = codes "Confirm now"; href = codes "http://x.test/confirm" }
      ∷ record { text = codes " CONFIRM "; href = codes "http://x.test/2" }
      ∷ record { text = codes "Help"; href = codes "http://x.test/Help" }
      ∷ [];
}

searching : Unit {0}
unfolding find_link has_link match_links normalize collapse trim trim_start trim_end new_email
    is_space
searching = tt

find_link_test :
    find_link lower_ascii linked (by_text (codes "confirm"))
    ≡ some (record { text = codes " CONFIRM "; href = codes "http://x.test/2" })
unfolding searching
find_link_test = refl

has_link_test : has_link lower_ascii linked (by_text (codes "unsubscribe")) ≡ false
unfolding searching
has_link_test = refl

find_link_iff_example :
    let help : Link = record { text = codes "Help"; href = codes "http://x.test/Help" } in
    ((find_link lower_ascii linked (by_text (codes "confirm")) ≡ some help) ↔ (
      IsFirst (HasText lower_ascii (codes "confirm")) linked.links help
      ⊎ (HasNone (HasText lower_ascii (codes "confirm")) linked.links
          × (IsFirst (HasInText lower_ascii (codes "confirm")) linked.links help
              ⊎ (HasNone (HasInText lower_ascii (codes "confirm")) linked.links
                  × IsFirst (HasInHref lower_ascii (codes "confirm")) linked.links help)))))
    × ((has_link lower_ascii linked (by_text (codes "confirm")) ≡ false) ↔ (
        HasNone (HasText lower_ascii (codes "confirm")) linked.links
        × HasNone (HasInText lower_ascii (codes "confirm")) linked.links
        × HasNone (HasInHref lower_ascii (codes "confirm")) linked.links))
find_link_iff_example =
    find_link_iff lower_ascii linked (codes "confirm")
      (record { text = codes "Help"; href = codes "http://x.test/Help" })

abbrev a_new_inbox : Text
a_new_inbox =
    create_inbox (record config { inbox_domain = codes "mailpeek.local" }) none none (0 ∷ 61 ∷ [])

naming : Unit {0}
unfolding create_inbox random_id
naming = tt

create_inbox_test : a_new_inbox ≡ codes "test-az@mailpeek.local"
unfolding naming
create_inbox_test = refl

set_param_test :
    set_params
      ((codes "q", codes "b") ∷ (codes "timeout", codes "5") ∷ [])
      ((codes "q", codes "a") ∷ (codes "to", codes "x") ∷ [])
    ≡ ((codes "q", codes "b") ∷ (codes "to", codes "x") ∷ (codes "timeout", codes "5") ∷ [])
set_param_test = refl

query-address_example :
    Ensures
      (λ params w'. Memᴰ (codes "address", codes "a@x.test") params)
      (λ e w'. e ≡ invalid_date)
      (query toy (confine (codes "a@x.test") to_bob) ((codes "timeout", codes "5") ∷ []) 0)
query-address_example =
    query-address toy (codes "a@x.test") refl to_bob ((codes "timeout", codes "5") ∷ []) refl 0
