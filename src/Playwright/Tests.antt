-- ===== src/Playwright/Tests.antt =====
-- Runs of the fixture, and its theorems at concrete inputs.
use mailpeek.Prelude.{
  All, ℕ, ◌+◌, ◌*◌, ◌≡◌, refl, true, false, none, some, List, [], ◌∷◌, ◌++◌, map, length, codes,
}
use mailpeek.Client.Platform.{Platform, done, rejected}
use mailpeek.Client.Requests.{
  Config, messages, query, since_params, send, settle, clear, clear_failures,
}
use mailpeek.Client.Inbox.{create_inbox, random_id, inbox_messages, inbox_clear}
use mailpeek.Playwright.{
  passed, always, Inbox, Use, inbox_created, worker_inbox_used, worker_inbox, used_inboxes,
  Reporting, attach_inbox, attach_emails, try_clear, clear_each, report_if, clear_if, after_test,
  mail,
}
use mailpeek.Playwright.Uses.{IsAmong, IsUsed}
use mailpeek.Playwright.Cleanup.{CleansUp, Reported, mail-deletions}
use mailpeek.Playwright.Server.{MailpeekWebServerOptions, WebServer, mailpeek_web_server}

-- A platform that counts the requests and answers none.
abbrev silent : Platform
silent = record {
  World = ℕ;
  clock = λ w. w;
  now = λ w. (w, w);
  fetch = λ r w. (rejected false false [], w + 1);
  signal_aborted = λ w. false;
  lower = λ s. s;
  parse_date = λ s. none;
  iso = λ t. t ∷ [];
  encode = λ s. s;
  show_number = λ n. n ∷ [];
}

abbrev config : Config
config = record {
  timeout = 10000;
  request_timeout = 10000;
  base_url = [];
  inbox_domain = codes "mailpeek.local";
}

abbrev uses : List Use
uses = worker_inbox_used ∷ (inbox_created none none (7 ∷ 8 ∷ []) ∷ (worker_inbox_used ∷ []))

fixture : Unit {0}
unfolding mail after_test report_if clear_if attach_emails attach_inbox try_clear clear_each
    inbox_messages inbox_clear messages clear clear_failures query since_params send settle
    create_inbox random_id
fixture = tt

used_test :
    map
      (λ (i : Inbox). i.address)
      (used_inboxes config (worker_inbox config (codes "3") (1 ∷ [])) 1 [] uses)
    ≡ codes "worker-3-b@mailpeek.local" ∷ (codes "test-hi@mailpeek.local" ∷ [])
unfolding fixture
used_test = refl

-- A test that passes clears its two inboxes by four requests.
passed_test :
    mail silent config passed true false (codes "3") (1 ∷ []) uses (0, []) ≡ done tt (4, [])
unfolding fixture
passed_test = refl

-- A failed test asks for the messages of the first inbox, and keeps them.
failed_test :
    mail silent config passed true true (codes "3") (1 ∷ []) uses (0, []) ≡ done tt (1, [])
unfolding fixture
failed_test = refl

mail-deletions_example :
    let worker = worker_inbox config (codes "3") (1 ∷ []) in
    let inboxes = used_inboxes config worker 1 [] uses in
    (s' : Reporting silent config) × (after : silent.World) × (mail silent config always true true
        (codes "3")
        (1 ∷ [])
        uses
        (0, [])
      ≡ done tt (after, s'.1))
    × CleansUp silent config always true inboxes s'.0 after
    × Reported silent config true (11 * length inboxes) (0, []) s'
    × All (IsAmong config worker inboxes) uses
    × All (IsUsed config worker uses) inboxes
mail-deletions_example =
    mail-deletions silent config always true true (codes "3") (1 ∷ []) uses (0, [])

abbrev options : MailpeekWebServerOptions
options = record {
  smtp_port = none;
  http_port = some b'h';
  image = none;
  binary = some (codes "mailpeek");
  args = some (codes "--demo" ∷ []);
  reuse_existing_server = none;
  timeout = none;
}

abbrev server : WebServer
server = mailpeek_web_server (λ n. n ∷ []) none options

command_test :
    server.command ≡ codes "mailpeek --smtp-port " ++ (1026 ∷ codes " --http-port h --demo")
unfolding mailpeek_web_server
command_test = refl
