-- ===== src/Web/Tests/Lists.antt =====
-- Runs of the page: the list of messages.
use mailpeek.Prelude.{
  ◌≡◌, refl, subst, ◌≢◌, ◌⊎◌, true, false, none, some, List, [], ◌∷◌, take, drop, Text, codes,
}
use mailpeek.Web.Types.{MessageSummary, MessagePage, api_error}
use mailpeek.I18n.Keys.{error_http}
use mailpeek.Web.Messages.{
  Load, Event, page, failed, refreshed, timer_fired, more_wanted, replied, finish, step, load,
  refresh, fire_timer, load_more, change_query,
}
use mailpeek.Web.Messages.Loads.{mounted, IsCurrentLoad, mounted_on_its_way, finish_older}
use mailpeek.Web.Messages.Listing.{Answers, AllTruthful, Shows, mounted-Shows}
use mailpeek.Web.Tests.{mails}

abbrev first_page : MessagePage
first_page = record { messages = take 50 (mails 52); next_cursor = some (codes "2") }

abbrev last_page : MessagePage
last_page = record { messages = mails 2; next_cursor = none }

abbrev paging : List Event
paging = replied 0 (page first_page 52) ∷ more_wanted ∷ replied 0 (page last_page 0) ∷ []

loading : Unit {0}
unfolding finish step load refresh fire_timer load_more change_query
loading = tt

paging_test : (mounted (codes "q") paging).state.messages ≡ mails 52
unfolding loading
paging_test = refl

abbrev behind : List MessageSummary → Text → List MessageSummary
behind whole c = drop 50 whole

-- An answer to the first load that comes after a refresh and its timer is for a load gone by.
stale_test :
    (mounted
      (codes "q")
      (refreshed ∷ timer_fired ∷ replied 1 (page first_page 52) ∷ [])).state.messages
    ≡ []
unfolding loading
stale_test = refl

-- A page appended after a failure leaves the old error shown.
abbrev failing : List Event
failing =
    replied 0 (page first_page 52)
    ∷ more_wanted
    ∷ replied 0 (failed (api_error 429))
    ∷ more_wanted
    ∷ replied 0 (page last_page 0)
    ∷ []

stale_error_test :
    (mounted (codes "q") failing).state.error
    ≡ some (record { key = error_http; status = some 429 })
unfolding loading
stale_error_test = refl

mounted_on_its_way_example :
    let s = mounted (codes "q") paging in
    (s.is_pending ≡ true)
    ⊎ ((l : Load) × IsCurrentLoad s l
        × ((l.is_settled ≡ false) ⊎ ((s.synced ≡ some s.generation) ⊎ (s.state.error ≢ none))))
mounted_on_its_way_example = mounted_on_its_way (codes "q") paging

finish_older_example :
    finish 1 (page first_page 52) (mounted (codes "q") (refreshed ∷ timer_fired ∷ []))
    ≡ mounted (codes "q") (refreshed ∷ timer_fired ∷ [])
finish_older_example =
    finish_older (codes "q") (refreshed ∷ timer_fired ∷ []) 0 (page first_page 52)

same_load : {x l : Load} (P : Load → Type 0) → some x ≡ some l → P x → P l
same_load P e h = subst P (cc) h

paging-AllTruthful : AllTruthful (λ g q. mails 52) behind (mounted (codes "q") []) paging
unfolding loading
paging-AllTruthful = (
  λ l e now.
      same_load (λ l. Answers (λ g q. mails 52) behind l (page first_page 52)) e (refl, refl),
  (
    tt,
    (λ l e now. same_load (λ l. Answers (λ g q. mails 52) behind l (page last_page 0)) e refl, tt),
  ),
)

paging-synced : (mounted (codes "q") paging).synced ≡ some (mounted (codes "q") paging).generation
unfolding loading
paging-synced = refl

mounted-Shows_example : Shows (λ g q. mails 52) behind (mounted (codes "q") paging).state (mails 52)
mounted-Shows_example =
    mounted-Shows (λ g q. mails 52) behind (codes "q") paging paging-AllTruthful paging-synced
