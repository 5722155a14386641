-- ===== src/Client/Wait/Deadline.antt =====
-- `waitFor` ends, at its deadline or with the email of a reply.
use mailpeek.Prelude.{
  Memᴰ, codes, ℕ, zero, suc, ◌+◌, ◌-◌, ◌*◌, ◌≤◌, ◌<◌, min, max, ◌≡◌, refl, ◌≢◌, inl, inr, false,
  none, get_or, List, [], ◌∷◌, arith, leb, ◌==◌, if◌then◌else◌, leb→le, ==_iff, Bool-cases, Text,
}
use mailpeek.Client.Types.{MessageFilter, any_message}
use mailpeek.Client.Email.{Email}
use mailpeek.Client.Platform.{Platform, Response, Failure, timed_out, ◌>>=◌, pure, throw}
use mailpeek.Client.Requests.{Config, query, send, expect_message, messages, info}
use mailpeek.Client.Wait.{
  max_server_wait, diagnose_timeout, WaitOptions, is_timeout, give_up, evictions, observe, diagnose,
  wait_params, wait_request, wait_once, wait_loop, wait_for,
}
use mailpeek.Client.Ensures.{Ensures, bind_rule, catch_rule, weaken}
use mailpeek.Client.Clock.{
  IsClock, FailsSince, Later, Answers, send_rule, query_since-sent, expect_message_rule,
  messages-Later, info-Later, IsEmailOf,
}

module _ (p : Platform) (c : Config) where
  -- The parameter that tells the server how long to wait.
  abbrev pub AsksFor : (chunk : ℕ) → List (Text × Text) → Type 0
  AsksFor chunk params = Memᴰ (codes "timeout", p.show_number chunk) params

  -- The server's side of a wait (`parseTimeout` of internal/api/api.go): if the parameter `timeout` asks
  -- for so many milliseconds, 30 seconds at most, an accepted reply other than 200 comes when they are
  -- over.
  pub record IsHeld : Type 0 where
    pub held :
        (chunk : ℕ) (params : List (Text × Text)) (w : p.World) (res : Response) (w' : p.World)
        → chunk ≤ max_server_wait
        → AsksFor chunk params
        → Answers p (wait_request p c chunk params) (204 ∷ []) w res w'
        → res.status ≢ 200
        → p.clock w + chunk ≤ p.clock w'

  -- The email came in a reply with status 200 to a wait request that asked for no more than the time left.
  pub record IsDelivered (deadline : ℕ) (e : Email) : Type 0 where
    pub chunk : ℕ
    pub params : List (Text × Text)
    pub before : p.World
    pub after : p.World
    pub res : Response
    pub answers : Answers p (wait_request p c chunk params) (204 ∷ []) before res after
    pub asked : AsksFor chunk params
    pub found : res.status ≡ 200
    pub email : IsEmailOf p res.body e
    pub in_time : p.clock before + chunk ≤ max deadline (p.clock before)
    pub within_limit : chunk ≤ max_server_wait

  -- A timeout is raised no earlier than the deadline, and names what was waited for.
  abbrev pub GivesUpAt : MessageFilter → (timeout deadline : ℕ) → Failure → p.World → Type 0
  GivesUpAt f timeout deadline (timed_out t) w =
      (deadline ≤ p.clock w) × (t.filter_given ≡ f) × (t.timeout_given ≡ timeout)
  GivesUpAt f timeout deadline e w = Unit

  module _ (k : IsClock p) where
    evictions-Later :
        (w : p.World) → Ensures (Later p (p.clock w)) (FailsSince p (p.clock w)) (evictions p c w)
    unfolding evictions
    evictions-Later w =
        catch_rule (Later p (p.clock w)) (FailsSince p (p.clock w)) (FailsSince p (p.clock w))
          (info p diagnose_timeout) (λ _. pure 0) w (info-Later p k diagnose_timeout w)
          (λ e w' h. h.1)

    observe-Later :
        (f : MessageFilter) (w : p.World)
        → Ensures (Later p (p.clock w)) (FailsSince p (p.clock w)) (observe p c f w)
    unfolding observe
    observe-Later f w =
        bind_rule (Later p (p.clock w)) (Later p (p.clock w)) (FailsSince p (p.clock w))
          (messages p diagnose_timeout any_message) _ w
          (messages-Later p k diagnose_timeout any_message w)
          λ l w' later.
            bind_rule (Later p (p.clock w')) (Later p (p.clock w)) (FailsSince p (p.clock w))
              (evictions p c) _ w'
              (weaken (evictions p c w') (λ n w'' h. h)
                (λ e w'' (other, late). (other, omega arith)) (evictions-Later w'))
              λ n w'' later'. omega arith

    -- The diagnosis never throws.
    pub diagnose-Later :
        (f : MessageFilter) (w : p.World)
        → Ensures (Later p (p.clock w)) (λ e w'. ⊥) (diagnose p c f w)
    unfolding diagnose
    diagnose-Later f w = elim (Bool-cases (p.signal_aborted w)) [
      | inl e ↦ rw e (omega arith)
      | inr e ↦ rw e (
          catch_rule (Later p (p.clock w)) (FailsSince p (p.clock w)) (λ e w'. ⊥) (observe p c f)
            (λ _. pure none) w (observe-Later f w) (λ e w' h. h.1))
    ]

    abbrev pub Answered : ℕ → p.World → Response → p.World → Type 0
    Answered chunk w res w' =
        (params : List (Text × Text)) × AsksFor chunk params
        × Answers p (wait_request p c chunk params) (204 ∷ []) w res w'

    pub wait_once_rule :
        (f : MessageFilter) (chunk : ℕ) (w : p.World)
        → Ensures (Answered chunk w) (FailsSince p (p.clock w)) (wait_once p c f chunk w)
    unfolding wait_once
    wait_once_rule f chunk w =
        bind_rule (λ ps w'. (w ≡ w') × AsksFor chunk ps) (Answered chunk w)
          (FailsSince p (p.clock w)) (query p f (wait_params p c chunk)) _ w
          (query_since-sent p k (codes "timeout") (p.show_number chunk) f w)
          λ ps w' (same, sent).
            weaken (send p (wait_request p c chunk ps) (204 ∷ []) w')
              (λ res w'' a. (ps, sent, rw same a)) (λ e w'' h. rw same h)
              (send_rule p k (wait_request p c chunk ps) (204 ∷ []) w')

    other-GivesUpAt :
        (f : MessageFilter) (timeout deadline : ℕ) (e : Failure) (w : p.World)
        → is_timeout e ≡ false
        → GivesUpAt f timeout deadline e w
    other-GivesUpAt f timeout deadline (timed_out t) w h = cc
    other-GivesUpAt f timeout deadline _ w h = tt

    module _ (held : IsHeld) where
      -- A round that found nothing: it gives up, or the next round starts closer to the deadline.
      nothing_found :
          (fuel : ℕ) (f : MessageFilter) (timeout deadline : ℕ) (w : p.World)
          → ((w' : p.World)
              → p.clock w ≤ p.clock w'
              → p.clock w' < deadline
              → Ensures
                  (λ e w''. IsDelivered deadline e)
                  (GivesUpAt f timeout deadline)
                  (wait_loop p c fuel f timeout deadline w'))
          → Ensures
              (λ e w'. IsDelivered deadline e)
              (GivesUpAt f timeout deadline)
              ((if leb deadline (p.now w).0
                  then (do d ← diagnose p c f; throw (give_up f timeout none d))
                  else wait_loop p c fuel f timeout deadline)
                (p.now w).1)
      nothing_found fuel f timeout deadline w next =
          let w₁ = (p.now w).1 in
          let read : p.clock w₁ ≡ (p.now w).0 = k.now_reads w in
          elim (Bool-cases (leb deadline (p.now w).0)) [
            | inl late ↦
                let past : deadline ≤ (p.now w).0 = leb→le deadline (p.now w).0 late in
                rw late (
                  bind_rule (Later p (p.clock w₁)) (λ e w'. IsDelivered deadline e)
                    (GivesUpAt f timeout deadline) (diagnose p c f)
                    (λ d. throw (give_up f timeout none d)) w₁
                    (weaken (diagnose p c f w₁) (λ d w₂ h. h) (λ e w₂ h. absurd h)
                      (diagnose-Later f w₁))
                    λ d w₂ later. (omega arith, refl, refl))
            | inr early ↦ rw early (next w₁ (omega (arith, k.now_later w)) (ground arith))
          ]

      wait_loop_ends :
          (fuel : ℕ) (f : MessageFilter) (timeout deadline : ℕ) (w : p.World)
          → deadline - p.clock w < fuel * max_server_wait
          → Ensures
              (λ e w'. IsDelivered deadline e)
              (GivesUpAt f timeout deadline)
              (wait_loop p c fuel f timeout deadline w)
      unfolding wait_loop
      wait_loop_ends zero f timeout deadline w h = absurd (omega arith)
      wait_loop_ends (suc fuel) f timeout deadline w h =
          let start = (p.now w).0 in
          let w₁ = (p.now w).1 in
          let chunk = min (deadline - start) max_server_wait in
          let asked : p.clock w₁ ≡ start = k.now_reads w in
          bind_rule (Answered chunk w₁) (λ e w'. IsDelivered deadline e)
            (GivesUpAt f timeout deadline) (wait_once p c f chunk) _ w₁
            (weaken (wait_once p c f chunk w₁) (λ res w₂ a. a)
              (λ e w₂ failed. other-GivesUpAt f timeout deadline e w₂ failed.0)
              (wait_once_rule f chunk w₁))
            λ res w₂ answered.
              let (params, sent, a) = answered in
              elim (Bool-cases (res.status == 200)) [
                | inl ok ↦ rw ok (
                    weaken (expect_message p res.body w₂)
                      (λ email w₃ h. record {
                        chunk = chunk;
                        params = params;
                        before = w₁;
                        after = w₂;
                        res = res;
                        answers = a;
                        asked = sent;
                        found = (==_iff res.status 200).0 ok;
                        email = h.0;
                        in_time = omega arith;
                        within_limit = omega arith;
                      })
                      (λ e w₃ failed. other-GivesUpAt f timeout deadline e w₃ failed.0)
                      (expect_message_rule p res.body w₂))
                | inr nothing ↦
                    let waited : p.clock w₁ + chunk ≤ p.clock w₂ =
                      held.held chunk params w₁ res w₂ (omega arith) sent a (ground arith) in
                    rw nothing (
                      nothing_found fuel f timeout deadline w₂ λ w₃ later early.
                        wait_loop_ends fuel f timeout deadline w₃ (omega (arith, k.now_later w)))
              ]

  -- `waitFor` always comes to an end, given that the server holds a wait until it finds a message or the
  -- time that its parameter `timeout` asks for is over: with fuel for more rounds of 30 seconds than the timeout has, it returns an email
  -- that came with status 200 in the reply to a wait whose parameter asked for at most 30 seconds and did
  -- not reach past the deadline, or it raises a failure; a timeout error is raised only at the deadline or later, with the
  -- filter and the timeout that were asked for.
  pub wait_for_ends :
      (k : IsClock p) (held : IsHeld) (fuel : ℕ) (o : WaitOptions) (w : p.World)
      → get_or o.timeout c.timeout < fuel * max_server_wait
      → Ensures
          (λ e w'. IsDelivered ((p.now w).0 + get_or o.timeout c.timeout) e)
          (GivesUpAt o.filter
            (get_or o.timeout c.timeout)
            ((p.now w).0 + get_or o.timeout c.timeout))
          (wait_for p c fuel o w)
  unfolding wait_for
  wait_for_ends k held fuel o w h =
      wait_loop_ends k held fuel o.filter (get_or o.timeout c.timeout) _ (p.now w).1
        (omega (arith, k.now_reads w))
