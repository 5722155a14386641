-- ===== src/Client/Wait.antt =====
-- packages/client/src/client.ts: `waitFor`, `waitForEmails`, `diagnose` and `inspectUrl`. Times are
-- milliseconds; a time past the deadline leaves 0, as `Math.max(0, …)` does. A loop takes fuel, a
-- round for each unit.
pub mod Deadline
pub mod Batch
pub mod Timed
pub mod Rounds
use mailpeek.Prelude.{
  ℕ, zero, suc, ◌+◌, ◌-◌, min, Bool, true, false, Option, none, some, get_or, List, [], ◌∷◌, ◌++◌,
  map, reverse, leb, ◌==◌, if◌then◌else◌, or_else, length, take, drop, filter, Text, codes,
}
use mailpeek.Client.Types.{MessageSummary, MessageFilter, Since, moment, any_message, truthy}
use mailpeek.Client.Diagnose.{explain_mismatch}
use mailpeek.Client.Email.{Email}
use mailpeek.Client.Platform.{
  Platform, get_method, Request, Response, Failure, timed_out, Diagnostics, M, done, out_of_fuel,
  ◌>>=◌, ◌>>◌, pure, throw, catch,
}
use mailpeek.Client.Requests.{Config, query, send, expect_message, ask, messages, get, info}

abbrev pub max_server_wait : ℕ
max_server_wait = 30000

abbrev pub diagnose_timeout : ℕ
diagnose_timeout = 2000

-- The options of a wait, its filter apart.
pub record WaitOptions : Type 0 where
  pub filter : MessageFilter
  pub timeout : Option ℕ

-- `list.slice(-count)`; `-0` is `0`, which takes the whole list.
abbrev pub slice_last {ℓ} : {A : Type ℓ} → ℕ → List A → List A
slice_last n xs = if n == 0 then xs else drop (length xs - n) xs

abbrev pub succ_time : Option ℕ → Option ℕ
succ_time none = none
succ_time (some t) = some (t + 1)

-- The `since` of the next wait: one millisecond behind the newest message listed.
abbrev pub next_since : (Text → Option ℕ) → List MessageSummary → Option Since → Option Since
next_since parse_date [] since = since
next_since parse_date (newest ∷ rest) since =
    some (moment (succ_time (parse_date newest.created_at)))

abbrev pub is_timeout : Failure → Bool
is_timeout (timed_out e) = true
is_timeout _ = false

abbrev pub give_up : MessageFilter → ℕ → Option (ℕ × ℕ) → Option Diagnostics → Failure
give_up f timeout progress d =
    timed_out
      (record { filter_given = f; timeout_given = timeout; diagnostics = d; progress = progress })

module _ (p : Platform) (c : Config) where
  open p use {World}

  -- `inspectUrl`: an empty string is defined, so `??` keeps it, and then falsy.
  unfoldable pub inspect_url : MessageFilter → Text
  inspect_url f =
      elim (truthy (or_else f.address (or_else f.to (or_else f.subject (or_else f.from f.q))))) [
        | none ↦ c.base_url ++ codes "/"
        | some q ↦ c.base_url ++ (codes "/?q=" ++ p.encode q)
      ]

  -- `info?.store?.evicted ?? 0`, where a failed request leaves `info` undefined.
  unfoldable pub evictions : M World ℕ
  evictions = catch (info p diagnose_timeout) (λ _. pure 0)

  -- The `try` block of `diagnose`; the two requests of `Promise.all` are made one after the other.
  unfoldable pub observe : MessageFilter → M World (Option Diagnostics)
  observe f = do
    all_messages ← messages p diagnose_timeout any_message
    evicted ← evictions
    pure (
        some (record {
          recent =
              map (λ (m : MessageSummary). (m, explain_mismatch p.lower p.parse_date m f))
                (take 5 all_messages);
          total = length all_messages;
          evicted_count = evicted;
          inspect_url = inspect_url f;
        }))

  unfoldable pub diagnose : MessageFilter → M World (Option Diagnostics)
  diagnose f w = if p.signal_aborted w then done none w else catch (observe f) (λ _. pure none) w

  abbrev pub wait_params : ℕ → List (Text × Text)
  wait_params chunk = (codes "timeout", p.show_number chunk) ∷ []

  abbrev pub wait_request : ℕ → List (Text × Text) → Request
  wait_request chunk params =
      ask get_method (codes "/messages/wait") params (chunk + c.request_timeout)

  -- One request of `waitFor`, which the server holds for `chunk` milliseconds.
  unfoldable pub wait_once : MessageFilter → ℕ → M World Response
  wait_once f chunk = do
    params ← query p f (wait_params chunk)
    send p (wait_request chunk params) (204 ∷ [])

  unfoldable pub wait_loop : ℕ → MessageFilter → (timeout deadline : ℕ) → M World Email
  wait_loop zero f timeout deadline = λ w. out_of_fuel
  wait_loop (suc fuel) f timeout deadline = do
    start ← λ w. done (p.now w).0 (p.now w).1
    res ← wait_once f (min (deadline - start) max_server_wait)
    if res.status == 200 then expect_message p res.body else (do
      end ← λ w. done (p.now w).0 (p.now w).1
      if leb deadline end
          then (do d ← diagnose f; throw (give_up f timeout none d))
          else wait_loop fuel f timeout deadline)

  unfoldable pub wait_for : ℕ → WaitOptions → M World Email
  wait_for fuel o = do
    start ← λ w. done (p.now w).0 (p.now w).1
    let timeout = get_or o.timeout c.timeout
    wait_loop fuel o.filter timeout (start + timeout)

  -- `Promise.all(…)`, one request after the other.
  unfoldable pub get_all : List MessageSummary → M World (List Email)
  get_all [] = pure []
  get_all (m ∷ ms) = do email ← get p c.request_timeout m.id; rest ← get_all ms; pure (email ∷ rest)

  -- The wait between two listings; only its timeout is caught.
  unfoldable pub wait_for_more : ℕ → MessageFilter → ℕ → M World (Unit {0})
  wait_for_more fuel f remaining =
      catch (do email ← wait_for fuel (record { filter = f; timeout = some remaining }); pure tt)
        (λ e. if is_timeout e then pure tt else throw e)

  unfoldable pub batch_loop :
      (fuel rounds count : ℕ) → MessageFilter → (timeout deadline : ℕ) → M World (List Email)
  batch_loop fuel zero count f timeout deadline = λ w. out_of_fuel
  batch_loop fuel (suc rounds) count f timeout deadline = do
    list ← messages p c.request_timeout f
    if leb count (length list) then get_all (reverse (slice_last count list)) else (do
      now ← λ w. done (p.now w).0 (p.now w).1
      if leb deadline now
          then (do d ← diagnose f; throw (give_up f timeout (some (length list, count)) d))
          else (do
            wait_for_more fuel (record f { since = next_since p.parse_date list f.since })
                (deadline - now)
            batch_loop fuel rounds count f timeout deadline))

  unfoldable pub wait_for_emails : (fuel rounds count : ℕ) → WaitOptions → M World (List Email)
  wait_for_emails fuel rounds count o = do
    start ← λ w. done (p.now w).0 (p.now w).1
    let timeout = get_or o.timeout c.timeout
    batch_loop fuel rounds count o.filter timeout (start + timeout)
