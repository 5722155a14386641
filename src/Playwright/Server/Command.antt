-- ===== src/Playwright/Server/Command.antt =====
-- packages/playwright/src/server.ts: the command starts the server that the health check asks.
use mailpeek.Prelude.{ℕ, ◌≡◌, refl, sym, Option, get_or, List, [], ◌∷◌, ◌++◌, Text, codes, join}
use mathlib.Core.List.{append-nil}
use mailpeek.Playwright.Server.{
  MailpeekWebServerOptions, smtp_flag, http_flag, program, mailpeek_web_server,
}

-- The health check of the address asks the port `n` of this machine.
pub Asks : (show_number : ℕ → Text) → ℕ → Text → Type 0
Asks show_number n url =
    url ≡ codes "http://localhost:" ++ (show_number n ++ codes "/api/v1/health")

-- Each text of the list after a blank.
pub spaced : List Text → Text
spaced [] = []
spaced (x ∷ xs) = codes " " ++ (x ++ spaced xs)

join-spaced : (x : Text) (xs : List Text) → join (codes " ") (x ∷ xs) ≡ x ++ spaced xs
unfolding spaced
join-spaced x [] = sym (append-nil x)
join-spaced x (y ∷ ys) = rw (join-spaced y ys)

-- The command is a program (the binary that is given, or else Docker with the image) and, each after a
-- blank, the flags with the two ports and the further flags in their order; the port of the flag is the
-- one that the health check asks, 8026 if none is given.
pub command-flags :
    (show_number : ℕ → Text) (ci : Option Text) (o : MailpeekWebServerOptions)
    → let server = mailpeek_web_server show_number ci o in
      let port = get_or o.http_port 8026 in
      (server.command
        ≡ program show_number o
          ++ spaced (
              smtp_flag show_number o
              ∷ ((codes "--http-port " ++ show_number port) ∷ get_or o.args [])))
      × Asks show_number port server.url
unfolding mailpeek_web_server Asks spaced
command-flags show_number ci o =
    (rw (join-spaced (smtp_flag show_number o) (http_flag show_number o ∷ get_or o.args [])), refl)
