-- ===== src/Client/Types.antt =====
-- packages/client/src/types.ts: messages and filters. `undefined` fields are `none`.
use mailpeek.Prelude.{ℕ, ◌≡◌, ◌≢◌, Bool, Option, none, some, List, [], ◌∷◌, Text}

pub record Address : Type 0 where
  pub name : Option Text
  pub address : Text

pub record Envelope : Type 0 where
  pub from : Text
  pub to : List Text

-- The code reads `envelope` by `?.`, so that it may be missing.
pub record MessageSummary : Type 0 where
  pub id : Text
  pub from : Address
  pub to : List Address
  pub cc : List Address
  pub subject : Text
  pub envelope : Option Envelope
  pub attachments : ℕ
  pub size : ℕ
  pub created_at : Text

-- A `Date` holds a time in milliseconds, or `none` if it is invalid.
pub data Since : Type 0 where
  moment : Option ℕ → Since
  text : Text → Since
  number : ℕ → Since

pub record MessageFilter : Type 0 where
  pub to : Option Text
  pub address : Option Text
  pub from : Option Text
  pub subject : Option Text
  pub body : Option Text
  pub q : Option Text
  pub since : Option Since

abbrev pub any_message : MessageFilter
any_message = record {
  to = none;
  address = none;
  from = none;
  subject = none;
  body = none;
  q = none;
  since = none;
}

-- `if (value)` of an optional string.
abbrev pub truthy : Option Text → Option Text
truthy none = none
truthy (some []) = none
truthy (some (c ∷ s)) = some (c ∷ s)

-- The value of a string field that is set and not empty.
abbrev pub IsSetTo : Option Text → Text → Type 0
IsSetTo o v = (o ≡ some v) × (v ≢ [])

pub record Attachment : Type 0 where
  pub id : Text
  pub filename : Text
  pub content_type : Text
  pub content_id : Option Text
  pub inline : Bool
  pub size : ℕ

pub record Link : Type 0 where
  pub text : Text
  pub href : Text

-- A message as the server sends it; the code allows for missing lists and texts.
pub record MessageData : Type 0 where
  pub id : Text
  pub message_id : Option Text
  pub from : Address
  pub to : Option (List Address)
  pub cc : Option (List Address)
  pub reply_to : Option (List Address)
  pub subject : Text
  pub date : Option Text
  pub text : Option Text
  pub html : Option Text
  pub headers : Option (List (Text × List Text))
  pub attachments : Option (List Attachment)
  pub links : Option (List Link)
  pub envelope : Option Envelope
  pub size : ℕ
  pub created_at : Text

pub data Stage : Type 0 where
  rcpt data_stage : Stage

-- What `failNext` asks for.
pub record FailureOptions : Type 0 where
  pub stage : Option Stage
  pub code : Option ℕ
  pub message : Option Text
  pub address : Option Text
  pub count : Option ℕ

-- A pending simulated SMTP failure.
pub record SmtpFailure : Type 0 where
  pub id : Text
  pub stage : Stage
  pub code : ℕ
  pub message : Text
  pub address : Option Text
  pub remaining : ℕ
