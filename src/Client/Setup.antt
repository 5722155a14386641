-- ===== src/Client/Setup.antt =====
-- packages/client/src/client.ts: the constructor, with the credentials of the client. The parser and
-- the text of a URL, `decodeURIComponent` and the UTF-8 encoder are those of the platform.
pub mod Base64
pub mod Header
mod Tests
use mailpeek.Prelude.{
  ℕ, ◌+◌, ◌-◌, ◌*◌, ◌/◌, ◌%◌, ◌&&◌, Option, none, some, get_or, List, [], ◌∷◌, ◌++◌, ltb, ◌==◌,
  if◌then◌else◌, Text, codes, is_empty,
}
use mailpeek.Client.Requests.{Config}

pub record Credentials : Type 0 where
  pub username : Text
  pub password : Text

-- `fetch` is the platform's.
pub record MailpeekOptions : Type 0 where
  pub base_url : Option Text
  pub auth : Option Credentials
  pub timeout : Option ℕ
  pub request_timeout : Option ℕ
  pub inbox_domain : Option Text

-- A URL: its user, its password, and the rest of it.
pub record Url : Type 0 where
  pub username : Text
  pub password : Text
  pub rest : Text

pub record Encodings : Type 0 where
  pub parse_url : Text → Option Url
  pub url_text : Url → Text
  pub decode_uri : Text → Option Text
  pub utf8 : Text → List ℕ

-- The unit for six bits.
unfoldable pub base64_unit : ℕ → ℕ
base64_unit k =
    if ltb k 26
    then b'A' + k
    else if ltb k 52
    then 71 + k
    else if ltb k 62
    then k - 4
    else if k == 62
    then b'+'
    else b'/'

-- `btoa`
abbrev pub base64 : List ℕ → Text
base64 [] = []
base64 (a ∷ []) = base64_unit (a / 4) ∷ base64_unit (a % 4 * 16) ∷ b'=' ∷ b'=' ∷ []
base64 (a ∷ (b ∷ [])) =
    base64_unit (a / 4) ∷ base64_unit (a % 4 * 16 + b / 16) ∷ base64_unit (b % 16 * 4) ∷ b'=' ∷ []
base64 (a ∷ (b ∷ (c ∷ bytes))) =
    base64_unit (a / 4)
    ∷ base64_unit (a % 4 * 16 + b / 16)
    ∷ base64_unit (b % 16 * 4 + c / 64)
    ∷ base64_unit (c % 64)
    ∷ base64 bytes

-- `s.replace(/\/+$/, "")`
abbrev pub strip_slashes : Text → Text
strip_slashes [] = []
strip_slashes (c ∷ s) =
    let rest = strip_slashes s in if c == b'/' && is_empty rest then [] else c ∷ rest

-- `value || undefined`
abbrev pub non_empty : Option Text → Option Text
non_empty none = none
non_empty (some s) = if is_empty s then none else some s

pub record Mailpeek : Type 0 where
  pub config : Config
  pub authorization : Option Text

module _ (x : Encodings) where
  abbrev pub login : Credentials → Text
  login c = c.username ++ (codes ":" ++ c.password)

  unfoldable pub basic_auth : Credentials → Text
  basic_auth c = codes "Basic " ++ base64 (x.utf8 (login c))

  abbrev pub decoded : Option Text → Option Text → Option (Option Credentials)
  decoded (some u) (some v) = some (some (record { username = u; password = v }))
  decoded (some u) none = none
  decoded none v = none

  -- The credentials of the options, or else those of the URL; `none` where their decoding throws.
  unfoldable pub credentials : Option Credentials → Url → Option (Option Credentials)
  credentials (some c) url = some (some c)
  credentials none url =
      if is_empty url.username
      then some none
      else decoded (x.decode_uri url.username) (x.decode_uri url.password)

  abbrev pub header : Option Credentials → Option Text
  header none = none
  header (some c) = some (basic_auth c)

  abbrev pub given_url : (mailpeek_url : Option Text) → MailpeekOptions → Text
  given_url mailpeek_url o =
      get_or o.base_url (get_or (non_empty mailpeek_url) (codes "http://localhost:8026"))

  -- `url.username = ""` and `url.password = ""`
  abbrev pub without_login : Url → Url
  without_login url = record url { username = []; password = [] }

  abbrev pub config_of : MailpeekOptions → Url → Config
  config_of o url = record {
    timeout = get_or o.timeout 10000;
    request_timeout = get_or o.request_timeout 10000;
    base_url = strip_slashes (x.url_text (without_login url));
    inbox_domain = get_or o.inbox_domain (codes "mailpeek.local");
  }

  abbrev pub with_url : MailpeekOptions → Option Url → Option Mailpeek
  with_url o none = none
  with_url o (some url) = elim (credentials o.auth url) [
    | none ↦ none
    | some c ↦ some (record { config = config_of o url; authorization = header c })
  ]

  -- The constructor, with the variable of the environment; `none` if it throws.
  unfoldable pub new_mailpeek : (mailpeek_url : Option Text) → MailpeekOptions → Option Mailpeek
  new_mailpeek mailpeek_url o = with_url o (x.parse_url (given_url mailpeek_url o))
