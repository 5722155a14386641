-- ===== src/Client/Clock.antt =====
-- What the client relies on of time, and what its requests keep of it.
use mailpeek.Prelude.{
  Memᴰ, ◌∷◌, ℕ, ◌+◌, ◌≤◌, ◌<◌, ◌≡◌, refl, subst, inl, inr, true, false, ◌||◌, Option, none, some,
  List, [], arith, ◌==◌, Bool-cases, any, Text, text_eq, codes,
}
use mailpeek.Client.Types.{MessageFilter, MessageData, Since, moment, text, number}
use mailpeek.Client.Email.{Email, new_email}
use mailpeek.Client.Platform.{
  Platform, get_method, Request, Reply, response, rejected, Response, Body, message, Failure, M,
  summaries, evicted, ◌>>=◌,
}
use mailpeek.Client.Requests.{
  is_ok, ask, Params, set_param, query, since_params, since_param, settle, send, expect_message,
  expect_summaries, expect_evicted, messages, info,
}
use mailpeek.Client.Wait.{is_timeout}
use mailpeek.Client.Ensures.{Ensures, bind_rule, weaken}

set_param-sent :
    (key value : Text) (params : Params) → Memᴰ (key, value) (set_param key value params)
set_param-sent key value [] = Memᴰ.head refl
set_param-sent key value ((k, v) ∷ params) = elim (Bool-cases (text_eq k key)) [
  | inl e ↦ rw e (Memᴰ.head refl)
  | inr e ↦ rw e (Memᴰ.tail (set_param-sent key value params))
]

module _ (p : Platform) where
  -- The clock does not go back, and `Date.now()` reads it.
  pub record IsClock : Type 0 where
    pub now_reads : (w : p.World) → p.clock (p.now w).1 ≡ (p.now w).0
    pub now_later : (w : p.World) → p.clock w ≤ (p.now w).0
    pub fetch_later : (r : Request) (w : p.World) → p.clock w ≤ p.clock (p.fetch r w).1

  -- A failure that is no timeout of a wait, no earlier than the given time.
  abbrev pub FailsSince : ℕ → Failure → p.World → Type 0
  FailsSince t e w = (is_timeout e ≡ false) × (t ≤ p.clock w)

  abbrev pub Later {ℓ} : {A : Type ℓ} → ℕ → A → p.World → Type 0
  Later t a w = t ≤ p.clock w

  -- A reply that `request` lets through.
  pub record Answers (r : Request) (allowed : List ℕ) (w : p.World) (res : Response) (w' : p.World)
      : Type 0 where
    pub replied : p.fetch r w ≡ (response res, w')
    pub accepted : (is_ok res.status || any (λ s. s == res.status) allowed) ≡ true

  -- The steps that make no request leave the world as it is.
  abbrev pub Quiet {ℓ} : {A : Type ℓ} → p.World → A → p.World → Type 0
  Quiet w a w' = w ≡ w'

  abbrev pub FailsQuietly : p.World → Failure → p.World → Type 0
  FailsQuietly w e w' = (is_timeout e ≡ false) × (w ≡ w')

  since_params_rule :
      (since : Option Since) (w : p.World)
      → Ensures (Quiet w) (FailsQuietly w) (since_params p since w)
  unfolding since_params since_param
  since_params_rule none w = refl
  since_params_rule (some (moment (some t))) w = refl
  since_params_rule (some (moment none)) w = (refl, refl)
  since_params_rule (some (text s)) w = refl
  since_params_rule (some (number n)) w = refl

  pub query_rule :
      (f : MessageFilter) (extra : List (Text × Text)) (w : p.World)
      → Ensures (Quiet w) (FailsQuietly w) (query p f extra w)
  unfolding query
  query_rule f extra w =
      bind_rule (Quiet w) (Quiet w) (FailsQuietly w) (since_params p f.since) _ w
        (since_params_rule f.since w) (λ ps w' e. e)

  settle_rule :
      (r : Request) (allowed : List ℕ) (reply : Reply) (w : p.World)
      → Ensures
          (λ res w'.
            (w ≡ w')
            × (reply ≡ response res)
            × ((is_ok res.status || any (λ s. s == res.status) allowed) ≡ true))
          (FailsQuietly w)
          (settle p r allowed reply w)
  unfolding settle
  settle_rule r allowed (rejected true timer reason) w = (refl, refl)
  settle_rule r allowed (rejected false true reason) w = (refl, refl)
  settle_rule r allowed (rejected false false reason) w = (refl, refl)
  settle_rule r allowed (response res) w =
      elim (Bool-cases (is_ok res.status || any (λ s. s == res.status) allowed)) [
        | inl e ↦ rw e (refl, refl, e)
        | inr e ↦ elim (Bool-cases (res.status == 401)) [
          | inl e' ↦ rw (e, e') (refl, refl)
          | inr e' ↦ rw (e, e') (refl, refl)
        ]
      ]

  module _ (k : IsClock) where
    pub send_rule :
        (r : Request) (allowed : List ℕ) (w : p.World)
        → Ensures (Answers r allowed w) (FailsSince (p.clock w)) (send p r allowed w)
    unfolding send
    send_rule r allowed w =
        weaken (settle p r allowed (p.fetch r w).0 (p.fetch r w).1)
          (λ res w' (same, replied, accepted). record {
            replied = λ i. (replied i, same i);
            accepted = accepted;
          })
          (λ e w' (other, same). (other, rw (← same) (k.fetch_later r w)))
          (settle_rule r allowed (p.fetch r w).0 (p.fetch r w).1)

    pub Answers-later :
        {r : Request} {allowed : List ℕ} {w : p.World} {res : Response} {w' : p.World}
        → Answers r allowed w res w'
        → p.clock w ≤ p.clock w'
    Answers-later {r} {w} a = subst (λ x. p.clock w ≤ p.clock x.1) a.replied (k.fetch_later r w)

  -- A step that takes time, then one that takes none.
  pub then_quietly {ℓ κ} :
      {A : Type ℓ} {B : Type κ} (t : ℕ) (m : M p.World A) (k : A → M p.World B) (w : p.World)
      → Ensures (Later t) (FailsSince t) (m w)
      → ((a : A) (w' : p.World) → Ensures (Quiet w') (FailsQuietly w') (k a w'))
      → Ensures (Later t) (FailsSince t) ((m >>= k) w)
  then_quietly t m k w h quiet = bind_rule (Later t) (Later t) (FailsSince t) m k w h λ a w' later.
      weaken (k a w') (λ b w'' same. rw (← same) later)
        (λ e w'' (other, same). (other, rw (← same) later)) (quiet a w')

  expect_summaries_rule :
      (b : Body) (w : p.World) → Ensures (Quiet w) (FailsQuietly w) (expect_summaries p b w)
  unfolding expect_summaries
  expect_summaries_rule (summaries l) w = refl
  expect_summaries_rule _ w = (refl, refl)

  expect_evicted_rule :
      (b : Body) (w : p.World) → Ensures (Quiet w) (FailsQuietly w) (expect_evicted p b w)
  unfolding expect_evicted
  expect_evicted_rule (evicted n) w = refl
  expect_evicted_rule _ w = (refl, refl)

  -- The email of a message body.
  abbrev pub IsEmailOf : Body → Email → Type 0
  IsEmailOf b e = (m : MessageData) × (b ≡ message m) × (e ≡ new_email p.parse_date m)

  pub expect_message_rule :
      (b : Body) (w : p.World)
      → Ensures (λ e w'. IsEmailOf b e × (w ≡ w')) (FailsQuietly w) (expect_message p b w)
  unfolding expect_message
  expect_message_rule (message m) w = ((m, refl, refl), refl)
  expect_message_rule _ w = (refl, refl)

  module _ (k : IsClock) where
    send-Later :
        (r : Request) (allowed : List ℕ) (w : p.World)
        → Ensures (Later (p.clock w)) (FailsSince (p.clock w)) (send p r allowed w)
    send-Later r allowed w =
        weaken (send p r allowed w) (λ res w' a. Answers-later k a) (λ e w' h. h)
          (send_rule k r allowed w)

    pub query_since :
        (f : MessageFilter) (extra : List (Text × Text)) (w : p.World)
        → Ensures (Quiet w) (FailsSince (p.clock w)) (query p f extra w)
    query_since f extra w =
        weaken (query p f extra w) (λ a w' h. h)
          (λ e w' (other, same). (other, rw (← same) (omega arith))) (query_rule f extra w)

    -- A parameter that is given to `query` is sent.
    pub query_since-sent :
        (key value : Text) (f : MessageFilter) (w : p.World)
        → Ensures
            (λ ps w'. (w ≡ w') × Memᴰ (key, value) ps)
            (FailsSince (p.clock w))
            (query p f ((key, value) ∷ []) w)
    unfolding query
    query_since-sent key value f w =
        bind_rule (Quiet w) (λ ps w'. (w ≡ w') × Memᴰ (key, value) ps) (FailsSince (p.clock w))
          (since_params p f.since) _ w
          (weaken (since_params p f.since w) (λ a w' h. h)
            (λ e w' (other, same). (other, rw (← same) (omega arith)))
            (since_params_rule f.since w))
          (λ ps w' e. (e, set_param-sent key value _))

    pub messages-Later :
        (timeout : ℕ) (f : MessageFilter) (w : p.World)
        → Ensures (Later (p.clock w)) (FailsSince (p.clock w)) (messages p timeout f w)
    unfolding messages
    messages-Later timeout f w =
        bind_rule (Quiet w) (Later (p.clock w)) (FailsSince (p.clock w)) (query p f []) _ w
          (query_since f [] w)
          λ ps w' same.
            then_quietly (p.clock w) (send p _ []) _ w' (rw same (send-Later _ [] w'))
              λ res w''. expect_summaries_rule res.body w''

    pub info-Later :
        (timeout : ℕ) (w : p.World)
        → Ensures (Later (p.clock w)) (FailsSince (p.clock w)) (info p timeout w)
    unfolding info
    info-Later timeout w =
        then_quietly (p.clock w) (send p _ []) _ w (send-Later _ [] w)
          λ res w'. expect_evicted_rule res.body w'

  -- A request takes at least a millisecond, whatever comes back.
  module _ (k : IsClock)
      (takes : (r : Request) (w : p.World) → p.clock w < p.clock (p.fetch r w).1) where
    send-takes :
        (r : Request) (allowed : List ℕ) (w : p.World)
        → Ensures (Later (p.clock w + 1)) (FailsSince (p.clock w + 1)) (send p r allowed w)
    unfolding send
    send-takes r allowed w =
        let later : p.clock w + 1 ≤ p.clock (p.fetch r w).1 = omega (arith, takes r w) in
        weaken (settle p r allowed (p.fetch r w).0 (p.fetch r w).1)
          (λ res w' (same, replied, accepted). rw (← same) later)
          (λ e w' (other, same). (other, rw (← same) later))
          (settle_rule r allowed (p.fetch r w).0 (p.fetch r w).1)

    listing-takes :
        (timeout : ℕ) (params : List (Text × Text)) (w : p.World)
        → Ensures
            (Later (p.clock w + 1))
            (λ e w'. is_timeout e ≡ false)
            ((send p (ask get_method (codes "/messages") params timeout) [] >>= λ res.
                expect_summaries p res.body)
              w)
    listing-takes timeout params w =
        weaken {R = FailsSince (p.clock w + 1)}
          ((send p (ask get_method (codes "/messages") params timeout) [] >>= λ res.
              expect_summaries p res.body)
            w)
          (λ l w' h. h) (λ e w' h. h.0)
          (then_quietly (p.clock w + 1)
            (send p (ask get_method (codes "/messages") params timeout) []) _ w (send-takes _ [] w)
            λ res w'. expect_summaries_rule res.body w')

    pub messages-takes :
        (timeout : ℕ) (f : MessageFilter) (w : p.World)
        → Ensures (Later (p.clock w + 1)) (λ e w'. is_timeout e ≡ false) (messages p timeout f w)
    unfolding messages
    messages-takes timeout f w =
        bind_rule (Quiet w) (Later (p.clock w + 1)) (λ e w'. is_timeout e ≡ false) (query p f []) _
          w (weaken (query p f [] w) (λ a w' h. h) (λ e w' h. h.0) (query_since k f [] w))
          λ ps w' same.
            subst
              (λ v.
                Ensures (Later (p.clock w + 1)) (λ e w'. is_timeout e ≡ false)
                  ((send p (ask get_method (codes "/messages") ps timeout) [] >>= λ res.
                      expect_summaries p res.body)
                    v))
              same (listing-takes timeout ps w)
