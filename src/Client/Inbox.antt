-- ===== src/Client/Inbox.antt =====
-- packages/client/src/inbox.ts, and `createInbox` of client.ts. An inbox is its address; each call
-- puts it in place of whatever address the filter has. The random bytes are given.
pub mod Address
use mailpeek.Prelude.{ℕ, ◌%◌, Option, some, get_or, List, ◌++◌, map, get_elem?, Text, codes}
use mailpeek.Client.Types.{MessageSummary, MessageFilter, any_message, FailureOptions, SmtpFailure}
use mailpeek.Client.Email.{Email}
use mailpeek.Client.Platform.{Platform, M, ◌>>=◌, pure, both}
use mailpeek.Client.Requests.{Config, messages, latest, clear, fail_next, clear_failures}
use mailpeek.Client.Wait.{WaitOptions, wait_for, wait_for_emails}

abbrev pub alphabet : Text
alphabet = codes "abcdefghijklmnopqrstuvwxyz0123456789"

unfoldable pub random_id : (bytes : List ℕ) → Text
random_id bytes = map (λ b. get_or (get_elem? alphabet (b % 36)) 0) bytes

-- The prefix is "test" and the domain the client's if none is given.
unfoldable pub create_inbox : Config → (prefix domain : Option Text) → (bytes : List ℕ) → Text
create_inbox c prefix domain bytes =
    get_or prefix (codes "test")
    ++ (codes "-" ++ (random_id bytes ++ (codes "@" ++ get_or domain c.inbox_domain)))

abbrev pub confine : Text → MessageFilter → MessageFilter
confine address f = record f { address = some address }

abbrev pub confine_failure : Text → FailureOptions → FailureOptions
confine_failure address o = record o { address = some address }

module _ (p : Platform) (c : Config) (address : Text) where
  open p use {World}

  unfoldable pub inbox_messages : ℕ → MessageFilter → M World (List MessageSummary)
  inbox_messages timeout f = messages p timeout (confine address f)

  unfoldable pub inbox_latest : ℕ → MessageFilter → M World (Option Email)
  inbox_latest timeout f = latest p timeout (confine address f)

  unfoldable pub inbox_wait : ℕ → WaitOptions → M World Email
  inbox_wait fuel o = wait_for p c fuel (record o { filter = confine address o.filter })

  unfoldable pub inbox_wait_for_emails :
      (fuel rounds count : ℕ) → WaitOptions → M World (List Email)
  inbox_wait_for_emails fuel rounds count o =
      wait_for_emails p c fuel rounds count (record o { filter = confine address o.filter })

  unfoldable pub inbox_fail_next : ℕ → FailureOptions → M World SmtpFailure
  inbox_fail_next timeout o = fail_next p timeout (confine_failure address o)

  unfoldable pub inbox_clear : ℕ → M World ℕ
  inbox_clear timeout = do
    results ←
        both (clear p timeout (confine address any_message))
          (clear_failures p timeout (some address))
    pure results.0
