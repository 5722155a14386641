-- ===== src/Client/Ends.antt =====
-- packages/client/src/client.ts: the methods that do not wait need no fuel, and the requests that the
-- deletions make.
use mailpeek.Prelude.{
  ℕ, ◌≡◌, refl, sym, subst, ◌≢◌, Option, none, some, List, [], ◌∷◌, arith, Text, codes,
}
use mailpeek.Client.Platform.{
  Platform, Body, summaries, message, plain, deleted, M, Request, delete_method, Outcome, ◌>>=◌,
  pure, both,
}
use mailpeek.Client.Ensures.{Ensures, bind_rule}
use mailpeek.Client.Types.{MessageFilter, Since, moment, text, number, any_message}
use mailpeek.Client.Requests.{
  Config, get, raw, messages, query, ask, since_param, since_params, send, settle, expect_message,
  expect_summaries, expect_plain, expect_deleted, clear, clear_failures,
}
use mailpeek.Client.Inbox.{inbox_clear, confine}

abbrev pub Ends {ℓ} : {W : Type 0} {A : Type ℓ} → M W A → Type 0
Ends {W = W} m = (w : W) → Ensures (λ _ _. Unit {0}) (λ _ _. Unit {0}) (m w)

abbrev pub LeadsTo {ℓ} : {W : Type 0} {A : Type ℓ} → W → Outcome W A → Type 0
LeadsTo w = Ensures (λ _ w'. w' ≡ w) (λ _ w'. w' ≡ w)

pub bind-Ends {ℓ κ} :
    {W : Type 0} {A : Type ℓ} {B : Type κ} (m : M W A) (k : A → M W B)
    → Ends m
    → ((a : A) → Ends (k a))
    → Ends (m >>= k)
bind-Ends m k e next w =
    bind_rule (λ _ _. Unit {0}) (λ _ _. Unit {0}) (λ _ _. Unit {0}) m k w (e w)
      (λ a w' _. next a w')

-- A step that leaves the world as the one before left it.
pub bind-LeadsTo {ℓ κ} :
    {W : Type 0} {A : Type ℓ} {B : Type κ} (m : M W A) (k : A → M W B) (w w' : W)
    → LeadsTo w' (m w)
    → ((a : A) → LeadsTo w' (k a w'))
    → LeadsTo w' ((m >>= k) w)
bind-LeadsTo m k w w' h next =
    bind_rule (λ _ v. v ≡ w') (λ _ v. v ≡ w') (λ _ v. v ≡ w') m k w h
      (λ a v e. subst (λ u. LeadsTo w' (k a u)) (sym e) (next a))

pub both-LeadsTo {ℓ κ} :
    {W : Type 0} {A : Type ℓ} {B : Type κ} (m : M W A) (n : M W B) (w w₁ w₂ : W)
    → LeadsTo w₁ (m w)
    → LeadsTo w₂ (n w₁)
    → LeadsTo w₂ (both m n w)
both-LeadsTo m n w w₁ w₂ h h' = ground arith

module _ (p : Platform) where
  pub send-LeadsTo :
      (r : Request) (allowed : List ℕ) (w : p.World) → LeadsTo (p.fetch r w).1 (send p r allowed w)
  unfolding send settle
  send-LeadsTo r allowed w = ground arith

  pub send-Ends : (r : Request) (allowed : List ℕ) → Ends (send p r allowed)
  unfolding send settle
  send-Ends r allowed w = ground arith

  expect_deleted-LeadsTo : (b : Body) (w : p.World) → LeadsTo w (expect_deleted p b w)
  unfolding expect_deleted
  expect_deleted-LeadsTo (deleted n) w = refl
  expect_deleted-LeadsTo _ w = refl

  since_params-Ends : (s : Option Since) → Ends (since_params p s)
  unfolding since_params since_param
  since_params-Ends none w = tt
  since_params-Ends (some (moment (some t))) w = tt
  since_params-Ends (some (moment none)) w = tt
  since_params-Ends (some (text t)) w = tt
  since_params-Ends (some (number n)) w = tt

  expect_summaries-Ends : (b : Body) → Ends (expect_summaries p b)
  unfolding expect_summaries
  expect_summaries-Ends (summaries l) w = tt
  expect_summaries-Ends _ w = tt

  expect_message-Ends : (b : Body) → Ends (expect_message p b)
  unfolding expect_message
  expect_message-Ends (message m) w = tt
  expect_message-Ends _ w = tt

  expect_plain-Ends : (b : Body) → Ends (expect_plain p b)
  unfolding expect_plain
  expect_plain-Ends (plain t) w = tt
  expect_plain-Ends _ w = tt

  pub messages-Ends : (timeout : ℕ) (f : MessageFilter) → Ends (messages p timeout f)
  unfolding messages query
  messages-Ends timeout f =
      bind-Ends _ _ (bind-Ends _ _ (since_params-Ends f.since) (λ since w. tt))
        (λ params. bind-Ends _ _ (send-Ends _ []) (λ res. expect_summaries-Ends res.body))

  pub get-Ends : (timeout : ℕ) (id : Text) → Ends (get p timeout id)
  unfolding get
  get-Ends timeout id = bind-Ends _ _ (send-Ends _ []) (λ res. expect_message-Ends res.body)

  pub raw-Ends : (timeout : ℕ) (id : Text) → Ends (raw p timeout id)
  unfolding raw
  raw-Ends timeout id = bind-Ends _ _ (send-Ends _ []) (λ res. expect_plain-Ends res.body)

  abbrev pub deletion : Text → ℕ → Text → Request
  deletion path timeout address = ask delete_method path ((codes "address", address) ∷ []) timeout

  delete-LeadsTo :
      (r : Request) (w : p.World)
      → LeadsTo (p.fetch r w).1 ((send p r [] >>= λ res. expect_deleted p res.body) w)
  delete-LeadsTo r w =
      bind-LeadsTo (send p r []) (λ res. expect_deleted p res.body) w (p.fetch r w).1
        (send-LeadsTo r [] w) (λ res. expect_deleted-LeadsTo res.body (p.fetch r w).1)

  pub inbox_clear-LeadsTo :
      (c : Config) (address : Text) (timeout : ℕ) (w : p.World)
      → address ≢ []
      → LeadsTo
          (p.fetch
            (deletion (codes "/smtp/failures") timeout address)
            (p.fetch (deletion (codes "/messages") timeout address) w).1).1
          (inbox_clear p c address timeout w)
  unfolding inbox_clear clear clear_failures query since_params
  inbox_clear-LeadsTo c [] timeout w named = absurd (named refl)
  inbox_clear-LeadsTo c (x ∷ s) timeout w named =
      bind-LeadsTo
        (both (clear p timeout (confine (x ∷ s) any_message))
          (clear_failures p timeout (some (x ∷ s))))
        (λ results. pure results.0) w _
        (both-LeadsTo (clear p timeout (confine (x ∷ s) any_message))
          (clear_failures p timeout (some (x ∷ s))) w _ _
          (delete-LeadsTo (deletion (codes "/messages") timeout (x ∷ s)) w)
          (delete-LeadsTo (deletion (codes "/smtp/failures") timeout (x ∷ s)) _))
        (λ results. refl)
