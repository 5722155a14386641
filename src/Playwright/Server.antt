-- ===== src/Playwright/Server.antt =====
-- packages/playwright/src/server.ts: the entry of `webServer` that starts Mailpeek. `CI` is the value
-- of that environment variable, and the printing of a number is a parameter.
pub mod Command
use mailpeek.Prelude.{
  ℕ, Bool, false, not, Option, none, some, get_or, List, [], ◌∷◌, ◌++◌, if◌then◌else◌, Text, codes,
  join, is_empty,
}

pub record MailpeekWebServerOptions : Type 0 where
  pub smtp_port : Option ℕ
  pub http_port : Option ℕ
  pub image : Option Text
  pub binary : Option Text
  pub args : Option (List Text)
  pub reuse_existing_server : Option Bool
  pub timeout : Option ℕ

pub record WebServer : Type 0 where
  pub command : Text
  pub url : Text
  pub reuse_existing_server : Bool
  pub timeout : ℕ
  pub stdout : Text
  pub stderr : Text

-- Whether a string is given and not empty.
abbrev pub is_truthy : Option Text → Bool
is_truthy none = false
is_truthy (some s) = not (is_empty s)

module _ (show_number : ℕ → Text) where
  abbrev pub smtp_flag : MailpeekWebServerOptions → Text
  smtp_flag o = codes "--smtp-port " ++ show_number (get_or o.smtp_port 1026)

  abbrev pub http_flag : MailpeekWebServerOptions → Text
  http_flag o = codes "--http-port " ++ show_number (get_or o.http_port 8026)

  abbrev pub flags : MailpeekWebServerOptions → Text
  flags o = join (codes " ") (smtp_flag o ∷ (http_flag o ∷ get_or o.args []))

  abbrev pub published : Text → Text
  published port = codes "-p " ++ (port ++ (codes ":" ++ (port ++ codes " ")))

  abbrev pub docker : MailpeekWebServerOptions → Text
  docker o =
      codes "docker run --rm "
      ++ (published (show_number (get_or o.smtp_port 1026))
          ++ (published (show_number (get_or o.http_port 8026))
              ++ get_or o.image (codes "4ndbrslz/mailpeek")))

  abbrev pub program : MailpeekWebServerOptions → Text
  program o = if is_truthy o.binary then get_or o.binary [] else docker o

  unfoldable pub mailpeek_web_server : (ci : Option Text) → MailpeekWebServerOptions → WebServer
  mailpeek_web_server ci o = record {
    command = program o ++ (codes " " ++ flags o);
    url =
        codes "http://localhost:"
        ++ (show_number (get_or o.http_port 8026) ++ codes "/api/v1/health");
    reuse_existing_server = get_or o.reuse_existing_server (not (is_truthy ci));
    timeout = get_or o.timeout 60000;
    stdout = codes "ignore";
    stderr = codes "pipe";
  }
