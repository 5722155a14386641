-- ===== src/Client/Setup/Tests.antt =====
-- Clients that are made, and the theorem at concrete options.
use mailpeek.Prelude.{◌++◌, ℕ, ◌%◌, ◌≡◌, refl, none, some, [], map, if◌then◌else◌, codes, is_empty}
use mailpeek.Client.Setup.{
  MailpeekOptions, Url, Encodings, base64_unit, basic_auth, credentials, new_mailpeek,
}

-- ASCII text; the parser gives one URL, and only if there is a text.
abbrev the_url : Url
the_url = record { username = codes "ana"; password = codes "b c"; rest = codes "http://m:8026//" }

abbrev byte_of : ℕ → ℕ
byte_of c = c % 256

abbrev ascii : Encodings
ascii = record {
  parse_url = λ s. if is_empty s then none else some the_url;
  url_text = λ u. if is_empty u.username then u.rest else u.username ++ (codes "@" ++ u.rest);
  decode_uri = λ s. some s;
  utf8 = λ s. map byte_of s;
}

abbrev no_options : MailpeekOptions
no_options = record {
  base_url = none;
  auth = none;
  timeout = none;
  request_timeout = none;
  inbox_domain = none;
}

setup : Unit {0}
unfolding new_mailpeek credentials basic_auth base64_unit
setup = tt

new_mailpeek_test :
    new_mailpeek ascii (some []) no_options
    ≡ some (record {
      config = record {
        timeout = 10000;
        request_timeout = 10000;
        base_url = codes "http://m:8026";
        inbox_domain = codes "mailpeek.local";
      };
      authorization = some (codes "Basic YW5hOmIgYw==");
    })
unfolding setup
new_mailpeek_test = refl
