-- ===== src/Web/Tests.antt =====
-- Runs of the page's parts, and their theorems at concrete inputs, over the messages below.
mod Lists
mod Connection
mod Choice
mod Widths
mod Opened
mod Calls
use mailpeek.Prelude.{ℕ, zero, suc, none, List, [], ◌∷◌, Text, codes}
use mailpeek.Web.Types.{Address, MessageSummary}

abbrev pub sender : Address
sender = record { name = none; address = codes "app@x.test" }

abbrev pub mail : Text → MessageSummary
mail id = record {
  id = id;
  from = sender;
  to = [];
  cc = [];
  subject = [];
  attachments = 0;
  size = 1;
  created_at = [];
}

-- Some messages, each with a number for its id, and a page of the first 50 of 52 and then of the rest.
abbrev pub mails : ℕ → List MessageSummary
mails zero = []
mails (suc n) = mail (suc n ∷ []) ∷ mails n
