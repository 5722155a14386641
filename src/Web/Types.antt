-- ===== src/Web/Types.antt =====
-- web/src/api.ts and web/src/lib/errors.ts: the data that the page shows, and its problems. A
-- failed request is told by what it threw.
use mailpeek.I18n.Keys.{
  MessageKey, error_network, error_unauthorized, error_not_found, error_server, error_http,
  error_unknown,
}
use mailpeek.Prelude.{ℕ, leb, ◌==◌, if◌then◌else◌, Option, none, some, List, Text}

pub record Address : Type 0 where
  pub name : Option Text
  pub address : Text

pub record MessageSummary : Type 0 where
  pub id : Text
  pub from : Address
  pub to : List Address
  pub cc : List Address
  pub subject : Text
  pub attachments : ℕ
  pub size : ℕ
  pub created_at : Text

pub record MessagePage : Type 0 where
  pub messages : List MessageSummary
  pub next_cursor : Option Text

-- What a request can throw: an `ApiError` with its status, a `TypeError` of `fetch`, or another.
pub data Thrown : Type 0 where
  api_error : ℕ → Thrown
  type_error : Thrown
  other_error : Thrown

-- The key of a message and its variable `status`.
pub record Problem : Type 0 where
  pub key : MessageKey
  pub status : Option ℕ

abbrev pub describe_error : Thrown → Problem
describe_error (api_error status) =
    if status == 401
    then record { key = error_unauthorized; status = none }
    else if status == 404
    then record { key = error_not_found; status = none }
    else if leb 500 status
    then record { key = error_server; status = some status }
    else record { key = error_http; status = some status }
describe_error type_error = record { key = error_network; status = none }
describe_error other_error = record { key = error_unknown; status = none }
