-- ===== src/Client/Requests.antt =====
-- packages/client/src/client.ts: `query`, `request` and the methods that make one request. The world
-- is that of a platform; the client's options are `Config`. Headers are left out: the credentials go
-- into one of them and no method reads any.
use mailpeek.Prelude.{
  ℕ, Bool, true, false, ◌&&◌, ◌||◌, Option, none, some, List, [], ◌∷◌, ◌++◌, leb, ◌==◌,
  if◌then◌else◌, any, Text, codes, text_eq,
}
use mailpeek.Client.Types.{
  MessageSummary, MessageFilter, Since, moment, text, number, truthy, FailureOptions, SmtpFailure,
}
use mailpeek.Client.Email.{Email, new_email}
use mailpeek.Client.Platform.{
  Platform, Method, get_method, post_method, delete_method, Request, Body, message, summaries,
  deleted, evicted, failure, failures, health, plain, content, error_text, Response, Reply,
  response, rejected, aborted, no_answer, unreachable, login_required, http_failure, bad_body,
  invalid_date, M, ◌>>=◌, pure, throw, catch,
}

pub record Config : Type 0 where
  pub timeout : ℕ
  pub request_timeout : ℕ
  pub base_url : Text
  pub inbox_domain : Text

abbrev pub Params : Type 0
Params = List (Text × Text)

abbrev pub filter_param : Text → Option Text → Params
filter_param key value = elim (truthy value) [ none ↦ [] | some v ↦ (key, v) ∷ [] ]

-- `params.set(key, value)` on parameters whose keys are distinct.
abbrev pub set_param : Text → Text → Params → Params
set_param key value [] = (key, value) ∷ []
set_param key value ((k, v) ∷ params) =
    let rest = set_param key value params in
    if text_eq k key then (key, value) ∷ params else (k, v) ∷ rest

abbrev pub set_params : (extra : Params) → Params → Params
set_params [] params = params
set_params ((key, value) ∷ extra) params = set_params extra (set_param key value params)

abbrev pub is_ok : ℕ → Bool
is_ok status = leb 200 status && leb status 299

abbrev pub ask : Method → Text → Params → ℕ → Request
ask method path params timeout = record {
  method = method;
  path = path;
  params = params;
  payload = none;
  timeout = timeout;
}

module _ (p : Platform) where
  open p use {World}

  -- `since instanceof Date ? since.toISOString() : String(since)`; an invalid date throws.
  unfoldable pub since_param : Since → M World Text
  since_param (moment (some t)) = pure (p.iso t)
  since_param (moment none) = throw invalid_date
  since_param (text s) = pure s
  since_param (number n) = pure (p.show_number n)

  unfoldable pub since_params : Option Since → M World Params
  since_params none = pure []
  since_params (some since) = do value ← since_param since; pure ((codes "since", value) ∷ [])

  -- The keys of the filter are distinct, so each of their `params.set` adds a pair at the end.
  unfoldable pub query : MessageFilter → Params → M World Params
  query f extra = do
    since ← since_params f.since
    pure (
        set_params extra (
          filter_param (codes "to") f.to
          ++ (filter_param (codes "address") f.address
              ++ (filter_param (codes "from") f.from
                  ++ (filter_param (codes "subject") f.subject
                      ++ (filter_param (codes "body") f.body
                          ++ (filter_param (codes "q") f.q ++ since)))))))

  abbrev error_of : Body → Option Text
  error_of (error_text e) = some e
  error_of _ = none

  -- What `request` makes of a reply.
  unfoldable pub settle : Request → List ℕ → Reply → M World Response
  settle r allowed (rejected true timer reason) = throw aborted
  settle r allowed (rejected false true reason) = throw (no_answer r)
  settle r allowed (rejected false false reason) = throw (unreachable reason)
  settle r allowed (response res) =
      if is_ok res.status || any (λ s. s == res.status) allowed
      then pure res
      else if res.status == 401
      then throw login_required
      else throw (http_failure r res.status (error_of res.body))

  unfoldable pub send : Request → List ℕ → M World Response
  send r allowed w = let (reply, w') = p.fetch r w in settle r allowed reply w'

  -- `(await res.json()) as T`, by what the method that asked expects.
  unfoldable pub expect_message : Body → M World Email
  expect_message (message m) = pure (new_email p.parse_date m)
  expect_message _ = throw bad_body

  unfoldable pub expect_summaries : Body → M World (List MessageSummary)
  expect_summaries (summaries l) = pure l
  expect_summaries _ = throw bad_body

  unfoldable pub expect_deleted : Body → M World ℕ
  expect_deleted (deleted n) = pure n
  expect_deleted _ = throw bad_body

  unfoldable pub expect_evicted : Body → M World ℕ
  expect_evicted (evicted n) = pure n
  expect_evicted _ = throw bad_body

  unfoldable pub expect_failure : Body → M World SmtpFailure
  expect_failure (failure f) = pure f
  expect_failure _ = throw bad_body

  unfoldable pub expect_failures : Body → M World (List SmtpFailure)
  expect_failures (failures l) = pure l
  expect_failures _ = throw bad_body

  unfoldable pub expect_plain : Body → M World Text
  expect_plain (plain t) = pure t
  expect_plain _ = throw bad_body

  unfoldable pub expect_content : Body → M World (List ℕ)
  expect_content (content bytes) = pure bytes
  expect_content _ = throw bad_body

  unfoldable pub expect_health : Body → M World Bool
  expect_health (health s) = pure (text_eq s (codes "ok"))
  expect_health _ = throw bad_body

  abbrev pub message_path : Text → Text
  message_path id = codes "/messages/" ++ p.encode id

  -- `timeout` is the transport timeout of the request.
  unfoldable pub messages : ℕ → MessageFilter → M World (List MessageSummary)
  messages timeout f = do
    params ← query f []
    res ← send (ask get_method (codes "/messages") params timeout) []
    expect_summaries res.body

  unfoldable pub get : ℕ → Text → M World Email
  get timeout id = do
    res ← send (ask get_method (message_path id) [] timeout) []
    expect_message res.body

  unfoldable pub latest : ℕ → MessageFilter → M World (Option Email)
  latest timeout f = do
    params ← query f []
    res ← send (ask get_method (codes "/messages/latest") params timeout) (404 ∷ [])
    if res.status == 404 then pure none else (do email ← expect_message res.body; pure (some email))

  unfoldable pub delete : ℕ → Text → M World (Unit {0})
  delete timeout id = do res ← send (ask delete_method (message_path id) [] timeout) []; pure tt

  unfoldable pub clear : ℕ → MessageFilter → M World ℕ
  clear timeout f = do
    params ← query f []
    res ← send (ask delete_method (codes "/messages") params timeout) []
    expect_deleted res.body

  unfoldable pub fail_next : ℕ → FailureOptions → M World SmtpFailure
  fail_next timeout options = do
    res ←
        send
          (record (ask post_method (codes "/smtp/failures") [] timeout) { payload = some options })
          []
    expect_failure res.body

  unfoldable pub smtp_failures : ℕ → M World (List SmtpFailure)
  smtp_failures timeout = do
    res ← send (ask get_method (codes "/smtp/failures") [] timeout) []
    expect_failures res.body

  -- An empty address is falsy, and then all failures are cleared.
  unfoldable pub clear_failures : ℕ → Option Text → M World ℕ
  clear_failures timeout address = do
    res ←
        send
          (ask delete_method (codes "/smtp/failures") (filter_param (codes "address") address)
            timeout)
          []
    expect_deleted res.body

  unfoldable pub raw : ℕ → Text → M World Text
  raw timeout id = do
    res ← send (ask get_method (message_path id ++ codes "/raw") [] timeout) []
    expect_plain res.body

  unfoldable pub attachment : ℕ → (message_id attachment_id : Text) → M World (List ℕ)
  attachment timeout message_id attachment_id = do
    res ←
        send
          (ask get_method
            (message_path message_id ++ (codes "/attachments/" ++ p.encode attachment_id)) []
            timeout)
          []
    expect_content res.body

  -- Of the server's information the client itself reads the evictions.
  unfoldable pub info : ℕ → M World ℕ
  info timeout = do
    res ← send (ask get_method (codes "/info") [] timeout) []
    expect_evicted res.body

  -- `health` never throws.
  unfoldable pub is_healthy : ℕ → M World Bool
  is_healthy timeout =
      catch (do res ← send (ask get_method (codes "/health") [] timeout) []; expect_health res.body)
        (λ _. pure false)
