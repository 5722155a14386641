-- ===== src/Playwright/Cleanup.antt =====
-- packages/playwright/src/index.ts: what the end of a test clears, and that it ends.
use mailpeek.Prelude.{
  ℕ, ◌+◌, ◌*◌, ◌≡◌, refl, ap, ◌∙◌, ◌≢◌, Bool, true, false, ◌&&◌, Option, none, some, get_or, List,
  [], ◌∷◌, ◌++◌, arith, ◌==◌, if◌then◌else◌, length, any, All, Text, codes, if-cases,
}
use mailpeek.Client.Platform.{Platform, Request, M, done, raised, out_of_fuel, ◌>>=◌, pure, catch}
use mailpeek.Client.Ensures.{Ensures, bind_done}
use mailpeek.Client.Ends.{deletion, bind-LeadsTo, inbox_clear-LeadsTo}
use mailpeek.Client.Requests.{Config}
use mailpeek.Client.Inbox.{inbox_clear, create_inbox}
use mailpeek.Playwright.{
  MailpeekCleanup, always, passed, never, Inbox, Use, inbox_created, worker_inbox_used, add,
  worker_inbox, used_inboxes, Reporting, with_report, attach_emails, try_clear, clear_each, cleans,
  report_if, clear_if, after_test, mail,
}
use mailpeek.Playwright.Uses.{IsAmong, IsUsed, used_inboxes-IsAmong, used_inboxes-IsUsed}
use mailpeek.Playwright.Report.{Grows, Attaches, attach_emails-Attaches}

-- Whatever a caught step does, it is done.
caught :
    {W : Type 0} (Q : W → Type 0) (m : M W (Unit {0})) (w : W)
    → Ensures (λ _. Q) (λ _. Q) (m w)
    → (w' : W) × (catch m (λ _. pure tt) w ≡ done tt w') × Q w'
caught Q m w h =
    elim (m w)
        as (λ o.
          Ensures (λ _. Q) (λ _. Q) o
          → (w' : _) × (elim o [
            | done a v ↦ done a v
            | raised e v ↦ done tt v
            | out_of_fuel ↦ out_of_fuel
          ]
              ≡ done tt w')
            × Q w') [
              | done a v ↦ λ h. (v, refl, h)
              | raised e v ↦ λ h. (v, refl, h)
              | out_of_fuel ↦ λ h. absurd h
            ]
      h

abbrev pub IsNamed : Inbox → Type 0
IsNamed i = i.address ≢ []

append-IsNamed : (s t : Text) → t ≢ [] → s ++ t ≢ []
append-IsNamed [] t h = h
append-IsNamed (x ∷ s) t h = λ e. ground arith

create_inbox-IsNamed :
    (c : Config) (prefix domain : Option Text) (bytes : List ℕ)
    → create_inbox c prefix domain bytes ≢ []
unfolding create_inbox
create_inbox-IsNamed c prefix domain bytes =
    append-IsNamed (get_or prefix (codes "test")) _ (λ e. ground arith)

All-append : {A : Type 0} (P : A → Type 0) (xs ys : List A) → All P xs → All P ys → All P (xs ++ ys)
All-append P [] ys h h' = h'
All-append P (x ∷ xs) ys h h' = (h.0, All-append P xs ys h.1 h')

add-IsNamed : (is' : List Inbox) (i : Inbox) → All IsNamed is' → IsNamed i → All IsNamed (add is' i)
add-IsNamed is' i h hi =
    if-cases (All IsNamed) (any (λ (j : Inbox). j.ref == i.ref) is') is' (is' ++ (i ∷ [])) h
      (All-append IsNamed is' (i ∷ []) h (hi, tt))

used_inboxes-IsNamed :
    (c : Config) (worker : Inbox) (next : ℕ) (is' : List Inbox) (us : List Use)
    → IsNamed worker
    → All IsNamed is'
    → All IsNamed (used_inboxes c worker next is' us)
used_inboxes-IsNamed c worker next is' [] hw h = h
used_inboxes-IsNamed c worker next is' (inbox_created prefix domain bytes ∷ us) hw h =
    used_inboxes-IsNamed c worker (next + 1) _ us hw
      (add-IsNamed is' _ h (create_inbox-IsNamed c prefix domain bytes))
used_inboxes-IsNamed c worker next is' (worker_inbox_used ∷ us) hw h =
    used_inboxes-IsNamed c worker next _ us hw (add-IsNamed is' worker h hw)

module _ (p : Platform) (c : Config) where
  -- The world after the requests, whatever their replies are.
  pub fetch_all : List Request → p.World → p.World
  fetch_all [] w = w
  fetch_all (r ∷ rs) w = fetch_all rs (p.fetch r w).1

  -- The two deletions of each inbox.
  pub deletions : List Inbox → List Request
  deletions [] = []
  deletions (i ∷ is') =
      deletion p (codes "/messages") c.request_timeout i.address
      ∷ (deletion p (codes "/smtp/failures") c.request_timeout i.address ∷ deletions is')

  try_clear-deletions :
      (i : Inbox) (w : p.World)
      → IsNamed i
      → try_clear p c i w ≡ done tt (fetch_all (deletions (i ∷ [])) w)
  unfolding try_clear fetch_all deletions
  try_clear-deletions i w h =
      let (w', e, e') =
        caught (λ v. v ≡ fetch_all (deletions (i ∷ [])) w)
          (do deleted ← inbox_clear p c i.address c.request_timeout; pure tt) w
          (bind-LeadsTo (inbox_clear p c i.address c.request_timeout) (λ _. pure tt) w _
            (inbox_clear-LeadsTo p c i.address c.request_timeout w h) (λ _. refl)) in
      e ∙ ap (done tt) e'

  clear_each-deletions :
      (is' : List Inbox) (w : p.World)
      → All IsNamed is'
      → clear_each p c is' w ≡ done tt (fetch_all (deletions is') w)
  unfolding clear_each fetch_all deletions
  clear_each-deletions [] w h = refl
  clear_each-deletions (i ∷ is') w h =
      bind_done (try_clear p c i) (λ _. clear_each p c is') w (try_clear-deletions i w h.0)
      ∙ clear_each-deletions is' _ h.1

  -- What a test that attaches may add to its report; any other leaves all as it was.
  pub Reported : (attaching : Bool) → ℕ → Reporting p c → Reporting p c → Type 0
  Reported true n s s' = Grows n s.1 s'.1
  Reported false n s s' = s' ≡ s

  -- What the cleanup makes of the world: nothing, or the two deletions of each inbox.
  pub CleansUp : MailpeekCleanup → (failed : Bool) → List Inbox → (before after : p.World) → Type 0
  CleansUp always failed is' w w' = w' ≡ fetch_all (deletions is') w
  CleansUp passed false is' w w' = w' ≡ fetch_all (deletions is') w
  CleansUp passed true is' w w' = w' ≡ w
  CleansUp never failed is' w w' = w' ≡ w

  cleans-CleansUp :
      (cleanup : MailpeekCleanup) (failed : Bool) (is' : List Inbox) (w : p.World)
      → CleansUp cleanup failed is' w
          (if cleans cleanup failed then fetch_all (deletions is') w else w)
  unfolding CleansUp
  cleans-CleansUp always failed is' w = refl
  cleans-CleansUp passed false is' w = refl
  cleans-CleansUp passed true is' w = refl
  cleans-CleansUp never failed is' w = refl

  clear_if-deletions :
      (b : Bool) (is' : List Inbox) (s : Reporting p c)
      → All IsNamed is'
      → clear_if p c b is' s ≡ done tt ((if b then fetch_all (deletions is') s.0 else s.0), s.1)
  unfolding clear_if
  clear_if-deletions true is' s h = rw (clear_each-deletions is' s.0 h, with_report)
  clear_if-deletions false is' s h = refl

  report_if-Reported :
      (b : Bool) (is' : List Inbox) (s : Reporting p c)
      → (s' : Reporting p c) × (report_if p c b is' s ≡ done tt s')
        × Reported b (11 * length is') s s'
  unfolding Reported Attaches report_if
  report_if-Reported true is' s =
      caught (λ s'. Grows (11 * length is') s.1 s'.1) (attach_emails p c is') s
        (attach_emails-Attaches p c is' s)
  report_if-Reported false is' s = (s, refl, refl)

  -- The end of a test is done whatever the server answers. If the test failed and the option is on, it
  -- first adds at most 11 attachments for each inbox that the test used; otherwise the report is as
  -- before and no request was made so far. Then it makes the two deletions of each of these inboxes,
  -- each of its own address, if the cleanup is `always`, or `passed` and the test did not fail, and no
  -- request otherwise. These inboxes are those that the test created and, if it used it, the worker's.
  pub mail-deletions :
      (cleanup : MailpeekCleanup) (attach_on_failure failed : Bool) (worker_index : Text)
      (worker_bytes : List ℕ) (uses : List Use) (s : Reporting p c)
      → let inboxes = used_inboxes c (worker_inbox c worker_index worker_bytes) 1 [] uses in
        (s' : Reporting p c) × (after : p.World) × (mail p c cleanup attach_on_failure failed
            worker_index worker_bytes uses s
          ≡ done tt (after, s'.1))
        × CleansUp cleanup failed inboxes s'.0 after
        × Reported (failed && attach_on_failure) (11 * length inboxes) s s'
        × All (IsAmong c (worker_inbox c worker_index worker_bytes) inboxes) uses
        × All (IsUsed c (worker_inbox c worker_index worker_bytes) uses) inboxes
  unfolding mail after_test
  mail-deletions cleanup attach_on_failure failed worker_index worker_bytes uses s =
      let inboxes = used_inboxes c (worker_inbox c worker_index worker_bytes) 1 [] uses in
      let worker = worker_inbox c worker_index worker_bytes in
      let (s', e, reported) = report_if-Reported (failed && attach_on_failure) inboxes s in
      (
        s',
        (if cleans cleanup failed then fetch_all (deletions inboxes) s'.0 else s'.0),
        bind_done (report_if p c (failed && attach_on_failure) inboxes)
              (λ _. clear_if p c (cleans cleanup failed) inboxes) s e
            ∙ clear_if-deletions (cleans cleanup failed) inboxes s' (
                used_inboxes-IsNamed c (worker_inbox c worker_index worker_bytes) 1 [] uses
                  (create_inbox-IsNamed c (some (codes "worker-" ++ worker_index)) none
                    worker_bytes)
                  tt),
        cleans-CleansUp cleanup failed inboxes s'.0,
        reported,
        used_inboxes-IsAmong c worker 1 [] uses refl (omega arith) tt,
        used_inboxes-IsUsed c worker uses 1 [] uses (λ u m. m) tt,
      )
