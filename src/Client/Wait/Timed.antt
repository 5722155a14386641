-- ===== src/Client/Wait/Timed.antt =====
-- Waiting never sets the clock back, whether it ends or runs out of fuel.
use mailpeek.Prelude.{
  ℕ, zero, suc, ◌-◌, ◌≤◌, min, ◌≡◌, subst, inl, inr, Option, none, get_or, arith, leb, ◌==◌,
  if◌then◌else◌, Bool-cases,
}
use mailpeek.Client.Types.{MessageFilter}
use mailpeek.Client.Email.{Email}
use mailpeek.Client.Platform.{
  Platform, Response, Body, Diagnostics, Failure, M, Outcome, done, raised, out_of_fuel, ◌>>=◌,
  throw,
}
use mailpeek.Client.Requests.{Config, expect_message}
use mailpeek.Client.Wait.{
  max_server_wait, WaitOptions, give_up, diagnose, wait_once, wait_loop, wait_for,
}
use mailpeek.Client.Ensures.{Ensures}
use mailpeek.Client.Clock.{IsClock, Answers-later, expect_message_rule}
use mailpeek.Client.Wait.Deadline.{Answered, diagnose-Later, wait_once_rule}

module _ (p : Platform) where
  abbrev pub Timed {ℓ} : {A : Type ℓ} → ℕ → Outcome p.World A → Type 0
  Timed t (done a w) = t ≤ p.clock w
  Timed t (raised e w) = t ≤ p.clock w
  Timed t out_of_fuel = Unit

  Ensures-Timed {ℓ} :
      {A : Type ℓ} {Q : A → p.World → Type 0} {R : Failure → p.World → Type 0} (t : ℕ)
      (o : Outcome p.World A)
      → ((a : A) (w : p.World) → Q a w → t ≤ p.clock w)
      → ((e : Failure) (w : p.World) → R e w → t ≤ p.clock w)
      → Ensures Q R o
      → Timed t o
  Ensures-Timed t (done a w) f g h = f a w h
  Ensures-Timed t (raised e w) f g h = g e w h
  Ensures-Timed t out_of_fuel f g h = tt

  bind-Timed {ℓ κ} :
      {A : Type ℓ} {B : Type κ} (t : ℕ) (m : M p.World A) (k : A → M p.World B) (w : p.World)
      → Timed t (m w)
      → ((a : A) (w' : p.World) → t ≤ p.clock w' → Timed t (k a w'))
      → Timed t ((m >>= k) w)
  bind-Timed t m k w h next =
      elim (m w)
          as (λ o.
            Timed t o
            → Timed t (elim o [
              | done a w' ↦ k a w'
              | raised e w' ↦ raised e w'
              | out_of_fuel ↦ out_of_fuel
            ])) [ done a w' ↦ next a w' | raised e w' ↦ λ h. h | out_of_fuel ↦ λ h. h ]
        h

  -- Both of what is known of an outcome.
  pub Ensures-later :
      {A : Type 0} (Q : A → p.World → Type 0) (R : Failure → p.World → Type 0) (t : ℕ)
      (o : Outcome p.World A)
      → Ensures Q R o
      → Timed t o
      → Ensures (λ a w. Q a w × (t ≤ p.clock w)) (λ e w. R e w × (t ≤ p.clock w)) o
  Ensures-later Q R t (done a w) h h' = (h, h')
  Ensures-later Q R t (raised e w) h h' = (h, h')
  Ensures-later Q R t out_of_fuel h h' = h

  module _ (c : Config) (k : IsClock p) where
    Answered-later :
        (chunk : ℕ) (w : p.World) (res : Response) (w' : p.World)
        → Answered p c k chunk w res w'
        → p.clock w ≤ p.clock w'
    Answered-later chunk w res w' (params, sent, a) = Answers-later p k a

    expect_message-Timed :
        (b : Body) (t : ℕ) (w : p.World) → t ≤ p.clock w → Timed t (expect_message p b w)
    expect_message-Timed b t w h =
        Ensures-Timed t (expect_message p b w) (λ e w' r. subst (λ v. t ≤ p.clock v) r.1 h)
          (λ e w' r. subst (λ v. t ≤ p.clock v) r.1 h) (expect_message_rule p b w)

    diagnose-Timed :
        (f : MessageFilter) (e : Option Diagnostics → Failure) (t : ℕ) (w : p.World)
        → t ≤ p.clock w
        → Timed {A = Email} t ((diagnose p c f >>= λ d. throw (e d)) w)
    diagnose-Timed f e t w h =
        bind-Timed t (diagnose p c f) _ w
          (Ensures-Timed t (diagnose p c f w) (λ d w' (later : p.clock w ≤ p.clock w'). omega arith)
            (λ d w' never. absurd never) (diagnose-Later p c k f w))
          λ d w' h'. h'

    no_message :
        (fuel : ℕ) (f : MessageFilter) (timeout deadline t : ℕ) (w : p.World)
        → ((v : p.World) → t ≤ p.clock v → Timed t (wait_loop p c fuel f timeout deadline v))
        → t ≤ p.clock w
        → Timed t (
            (if leb deadline (p.now w).0
                then (do d ← diagnose p c f; throw (give_up f timeout none d))
                else wait_loop p c fuel f timeout deadline)
              (p.now w).1)
    no_message fuel f timeout deadline t w next h =
        let read : p.clock (p.now w).1 ≡ (p.now w).0 = k.now_reads w in
        let later : p.clock w ≤ (p.now w).0 = k.now_later w in
        elim (Bool-cases (leb deadline (p.now w).0)) [
          | inl late ↦
              rw late (diagnose-Timed f (give_up f timeout none) t (p.now w).1 (omega arith))
          | inr early ↦ rw early (next (p.now w).1 (omega arith))
        ]

    wait_loop-Timed :
        (fuel : ℕ) (f : MessageFilter) (timeout deadline t : ℕ) (w : p.World)
        → t ≤ p.clock w
        → Timed t (wait_loop p c fuel f timeout deadline w)
    unfolding wait_loop
    wait_loop-Timed zero f timeout deadline t w h = tt
    wait_loop-Timed (suc fuel) f timeout deadline t w h =
        let w₁ = (p.now w).1 in
        let read : p.clock w₁ ≡ (p.now w).0 = k.now_reads w in
        let later : p.clock w ≤ (p.now w).0 = k.now_later w in
        let chunk = min (deadline - (p.now w).0) max_server_wait in
        bind-Timed t (wait_once p c f chunk) _ w₁
          (Ensures-Timed t (wait_once p c f chunk w₁)
            (λ res w₂ a. let l = Answered-later chunk w₁ res w₂ a in omega arith)
            (λ e w₂ h'. omega (arith, h'.1)) (wait_once_rule p c k f chunk w₁))
          λ res w₂ h₂. elim (Bool-cases (res.status == 200)) [
            | inl ok ↦ rw ok (expect_message-Timed res.body t w₂ h₂)
            | inr other ↦ rw other (
                no_message fuel f timeout deadline t w₂
                  (λ v. wait_loop-Timed fuel f timeout deadline t v) h₂)
          ]

    pub wait_for-Timed :
        (fuel : ℕ) (o : WaitOptions) (t : ℕ) (w : p.World)
        → t ≤ p.clock w
        → Timed t (wait_for p c fuel o w)
    unfolding wait_for
    wait_for-Timed fuel o t w h =
        wait_loop-Timed fuel o.filter (get_or o.timeout c.timeout) _ t (p.now w).1
          (omega (arith, k.now_reads w, k.now_later w))
