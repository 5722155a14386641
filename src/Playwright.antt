-- ===== src/Playwright.antt =====
-- packages/playwright/src/index.ts: the `mail` fixture of a test. The fixture runs in the world of the
-- client's platform with the list of attachments of the test's report, which `testInfo.attach` adds
-- to and here never refuses; what the JSON of an attachment holds is a value.
pub mod Cleanup
pub mod Report
pub mod Server
pub mod Uses
mod Tests
use mailpeek.Prelude.{
  ℕ, ◌+◌, ◌-◌, Bool, true, false, not, ◌&&◌, Option, none, some, List, [], ◌∷◌, ◌++◌, map, ◌==◌,
  if◌then◌else◌, take, any, Text, codes, is_empty,
}
use mailpeek.Client.Types.{Address, MessageSummary, any_message}
use mailpeek.Client.Email.{Email}
use mailpeek.Client.Platform.{Platform, M, done, raised, out_of_fuel, ◌>>=◌, ◌>>◌, pure, catch}
use mailpeek.Client.Requests.{Config, get, raw}
use mailpeek.Client.Wait.{inspect_url}
use mailpeek.Client.Inbox.{create_inbox, inbox_messages, inbox_clear}

pub data MailpeekCleanup : Type 0 where
  passed always never : MailpeekCleanup

-- An inbox object: which one it is, and its address.
pub record Inbox : Type 0 where
  pub ref : ℕ
  pub address : Text

pub data Body : Type 0 where
  summary_json : (address link : Text) → List (Text × Text × Text × List Text × Text) → Body
  eml : Text → Body
  html : Text → Body

pub record Attached : Type 0 where
  pub name : Text
  pub body : Body

-- What a test does with the fixture that the end of the test depends on. The worker's inbox is the
-- object 0, and a created inbox is a new object.
pub data Use : Type 0 where
  inbox_created : (prefix domain : Option Text) → (bytes : List ℕ) → Use
  worker_inbox_used : Use

abbrev pub add : List Inbox → Inbox → List Inbox
add inboxes i = if any (λ (j : Inbox). j.ref == i.ref) inboxes then inboxes else inboxes ++ (i ∷ [])

abbrev pub worker_inbox : Config → (worker_index : Text) → (bytes : List ℕ) → Inbox
worker_inbox c worker_index bytes = record {
  ref = 0;
  address = create_inbox c (some (codes "worker-" ++ worker_index)) none bytes;
}

-- The set of the inboxes that the test used, in the order in which it did.
abbrev pub used_inboxes :
    Config → (worker : Inbox) → (next : ℕ) → List Inbox → List Use → List Inbox
used_inboxes c worker next inboxes [] = inboxes
used_inboxes c worker next inboxes (inbox_created prefix domain bytes ∷ us) =
    used_inboxes c worker (next + 1)
      (add inboxes (record { ref = next; address = create_inbox c prefix domain bytes })) us
used_inboxes c worker next inboxes (worker_inbox_used ∷ us) =
    used_inboxes c worker next (add inboxes worker) us

abbrev pub max_attached : ℕ
max_attached = 5

-- The part of a summary that is attached.
abbrev pub row : MessageSummary → Text × Text × Text × List Text × Text
row m = (m.id, m.subject, m.from.address, map (λ (a : Address). a.address) m.to, m.created_at)

abbrev pub cleans : MailpeekCleanup → (failed : Bool) → Bool
cleans always failed = true
cleans passed failed = not failed
cleans never failed = false

module _ (p : Platform) (c : Config) where
  open p use {World}

  abbrev pub Reporting : Type 0
  Reporting = World × List Attached

  -- A method of the client leaves the report as it is.
  abbrev pub with_report {ℓ} : {A : Type ℓ} → M World A → M Reporting A
  with_report m (w, report) = elim (m w) [
    | done a w' ↦ done a (w', report)
    | raised e w' ↦ raised e (w', report)
    | out_of_fuel ↦ out_of_fuel
  ]

  -- `testInfo.attach`
  abbrev pub attach : Text → Body → M Reporting (Unit {0})
  attach name body (w, report) = done tt (w, report ++ (record { name = name; body = body } ∷ []))

  abbrev pub email_name : ℕ → MessageSummary → Text
  email_name i m = take 80 (
      codes "email "
      ++ (p.show_number (i + 1)
          ++ (codes " - " ++ (if is_empty m.subject then codes "(no subject)" else m.subject))))

  abbrev pub attach_html : Text → Email → M Reporting (Unit {0})
  attach_html name email =
      if is_empty email.html then pure tt else attach (name ++ codes ".html") (html email.html)

  unfoldable pub attach_email : ℕ → MessageSummary → M Reporting (Unit {0})
  attach_email i m = do
    source ← with_report (raw p c.request_timeout m.id)
    attach (email_name i m ++ codes ".eml") (eml source)
    email ← with_report (get p c.request_timeout m.id)
    attach_html (email_name i m) email

  unfoldable pub attach_each : ℕ → List MessageSummary → M Reporting (Unit {0})
  attach_each i [] = pure tt
  attach_each i (m ∷ ms) = do attach_email i m; attach_each (i + 1) ms

  abbrev pub inbox_link : Text → Text
  inbox_link address = inspect_url p c (record any_message { address = some address })

  unfoldable pub attach_inbox : Inbox → M Reporting (Unit {0})
  attach_inbox i = do
    messages ← with_report (inbox_messages p c i.address c.request_timeout any_message)
    attach (codes "mailpeek " ++ i.address)
        (summary_json i.address (inbox_link i.address) (map row messages))
    attach_each 0 (take max_attached messages)

  unfoldable pub attach_emails : List Inbox → M Reporting (Unit {0})
  attach_emails [] = pure tt
  attach_emails (i ∷ is') = do attach_inbox i; attach_emails is'

  -- `inbox.clear().catch(() => undefined)`
  unfoldable pub try_clear : Inbox → M World (Unit {0})
  try_clear i =
      catch (do deleted ← inbox_clear p c i.address c.request_timeout; pure tt) (λ _. pure tt)

  -- The requests of `Promise.all` are made one after the other; none of them fails.
  unfoldable pub clear_each : List Inbox → M World (Unit {0})
  clear_each [] = pure tt
  clear_each (i ∷ is') = do try_clear i; clear_each is'

  unfoldable pub report_if : (attaching : Bool) → List Inbox → M Reporting (Unit {0})
  report_if true inboxes = catch (attach_emails inboxes) (λ _. pure tt)
  report_if false inboxes = pure tt

  unfoldable pub clear_if : (clearing : Bool) → List Inbox → M Reporting (Unit {0})
  clear_if true inboxes = with_report (clear_each inboxes)
  clear_if false inboxes = pure tt

  -- What follows `use`: the status of the test tells whether it failed.
  unfoldable pub after_test :
      MailpeekCleanup → (attach_on_failure failed : Bool) → List Inbox → M Reporting (Unit {0})
  after_test cleanup attach_on_failure failed inboxes = do
    report_if (failed && attach_on_failure) inboxes
    clear_if (cleans cleanup failed) inboxes

  -- The `mail` fixture once the test is over, with the uses that the test made of it.
  unfoldable pub mail :
      MailpeekCleanup
      → (attach_on_failure failed : Bool) → (worker_index : Text) → (worker_bytes : List ℕ)
      → List Use
      → M Reporting (Unit {0})
  mail cleanup attach_on_failure failed worker_index worker_bytes uses =
      after_test cleanup attach_on_failure failed
        (used_inboxes c (worker_inbox c worker_index worker_bytes) 1 [] uses)
