-- ===== src/Playwright/Report.antt =====
-- packages/playwright/src/index.ts: what the end of a test adds to its report, and that it ends.
use mailpeek.Prelude.{
  ℕ, ◌+◌, ◌*◌, ◌≤◌, ◌≡◌, refl, sym, subst, List, [], ◌∷◌, ◌++◌, map, arith, length, take,
  length-append, Text, codes, is_empty, if-cases,
}
use mailpeek.Client.Platform.{Platform, M, done, raised, out_of_fuel, ◌>>=◌, pure}
use mailpeek.Client.Ensures.{Ensures, bind_rule, weaken}
use mailpeek.Client.Ends.{Ends, messages-Ends, get-Ends, raw-Ends}
use mailpeek.Client.Email.{Email}
use mathlib.Core.List.{append_assoc, append-nil}
use mailpeek.Client.Types.{MessageSummary, any_message}
use mailpeek.Client.Requests.{Config}
use mailpeek.Client.Inbox.{inbox_messages, confine}
use mailpeek.Playwright.{
  Inbox, Body, summary_json, eml, html, Attached, max_attached, row, Reporting, with_report, attach,
  email_name, attach_html, attach_email, attach_each, inbox_link, attach_inbox, attach_emails,
}

-- The list has grown at its end, by at most `n`.
abbrev pub Grows : ℕ → List Attached → List Attached → Type 0
Grows n before after = (new : List Attached) × (after ≡ before ++ new) × (length new ≤ n)

pub Grows-refl : (r : List Attached) → Grows 0 r r
Grows-refl r = ([], sym (append-nil r), omega arith)

Grows-trans : (m n : ℕ) (r s t : List Attached) → Grows m r s → Grows n s t → Grows (m + n) r t
Grows-trans m n r s t (new, e, h) (new', e', h') = (
  new ++ new',
  rw (e', e, append_assoc r new new'),
  subst (λ k. k ≤ m + n) (sym (length-append new new')) (omega arith),
)

pub Grows-weaken : (m n : ℕ) (r s : List Attached) → m ≤ n → Grows m r s → Grows n r s
Grows-weaken m n r s l (new, e, h) = (new, e, omega arith)

module _ (p : Platform) (c : Config) where
  -- Whether it succeeds or fails, the step attaches at most `n` more.
  unfoldable pub Attaches {ℓ} : {A : Type ℓ} → ℕ → M (Reporting p c) A → Type 0
  Attaches n m =
      (s : Reporting p c) → Ensures (λ _ s'. Grows n s.1 s'.1) (λ _ s'. Grows n s.1 s'.1) (m s)

  bind-Attaches :
      {A B : Type 0} (a b : ℕ) (m : M (Reporting p c) A) (k : A → M (Reporting p c) B)
      → Attaches a m
      → ((x : A) → Attaches b (k x))
      → Attaches (a + b) (m >>= k)
  unfolding Attaches
  bind-Attaches a b m k h next s =
      bind_rule (λ _ s'. Grows a s.1 s'.1) (λ _ s'. Grows (a + b) s.1 s'.1)
        (λ _ s'. Grows (a + b) s.1 s'.1) m k s
        (weaken (m s) (λ x s' g. g) (λ e s' g. Grows-weaken a (a + b) s.1 s'.1 (omega arith) g)
          (h s))
        (λ x s' g.
          weaken (k x s') (λ y t g'. Grows-trans a b s.1 s'.1 t.1 g g')
            (λ e t g'. Grows-trans a b s.1 s'.1 t.1 g g') (next x s'))

  weaken-Attaches :
      {A : Type 0} (a b : ℕ) (m : M (Reporting p c) A) → a ≤ b → Attaches a m → Attaches b m
  unfolding Attaches
  weaken-Attaches a b m l h s =
      weaken (m s) (λ x t. Grows-weaken a b s.1 t.1 l) (λ e t. Grows-weaken a b s.1 t.1 l) (h s)

  with_report-Attaches : {A : Type 0} (m : M p.World A) → Ends m → Attaches 0 (with_report p c m)
  unfolding Attaches
  with_report-Attaches {A} m e (w, report) =
      elim (m w)
          as (λ o.
            Ensures (λ _ _. Unit {0}) (λ _ _. Unit {0}) o
            → Ensures {W = Reporting p c} {A = A} (λ _ s'. Grows 0 report s'.1)
                (λ _ s'. Grows 0 report s'.1)
                (elim o [
                  | done a w' ↦ done a (w', report)
                  | raised e w' ↦ raised e (w', report)
                  | out_of_fuel ↦ out_of_fuel
                ])) [
                  | done a w' ↦ λ h. Grows-refl report
                  | raised f w' ↦ λ h. Grows-refl report
                  | out_of_fuel ↦ λ h. h
                ]
        (e w)

  attach-Attaches : (name : Text) (body : Body) → Attaches 1 (attach p c name body)
  unfolding Attaches
  attach-Attaches name body (w, report) = (_, refl, omega arith)

  attach_html-Attaches : (name : Text) (email : Email) → Attaches 1 (attach_html p c name email)
  unfolding Attaches
  attach_html-Attaches name email s =
      if-cases
        (λ (m : M (Reporting p c) (Unit {0})).
          Ensures (λ _ s'. Grows 1 s.1 s'.1) (λ _ s'. Grows 1 s.1 s'.1) (m s))
        (is_empty email.html) (pure tt) (attach p c (name ++ codes ".html") (html email.html))
        (Grows-weaken 0 1 s.1 s.1 (omega arith) (Grows-refl s.1))
        (attach-Attaches (name ++ codes ".html") (html email.html) s)

  attach_email-Attaches : (i : ℕ) (m : MessageSummary) → Attaches 2 (attach_email p c i m)
  unfolding attach_email
  attach_email-Attaches i m =
      bind-Attaches 0 2 _ _ (with_report-Attaches _ (raw-Ends p c.request_timeout m.id)) (λ source.
        bind-Attaches {A = Unit {0}} 1 1 _ _
          (attach-Attaches (email_name p c i m ++ codes ".eml") (eml source))
          (λ _.
            bind-Attaches 0 1 _ _ (with_report-Attaches _ (get-Ends p c.request_timeout m.id))
              (λ email. attach_html-Attaches (email_name p c i m) email)))

  attach_each-Attaches :
      (i : ℕ) (ms : List MessageSummary) → Attaches (2 * length ms) (attach_each p c i ms)
  unfolding attach_each Attaches
  attach_each-Attaches i [] = λ s. Grows-refl s.1
  attach_each-Attaches i (m ∷ ms) =
      weaken-Attaches (2 + 2 * length ms) (2 * length (m ∷ ms)) _ (omega arith) (
        bind-Attaches 2 (2 * length ms) (attach_email p c i m) (λ _. attach_each p c (i + 1) ms)
          (attach_email-Attaches i m) (λ _. attach_each-Attaches (i + 1) ms))

  attach_inbox-Attaches : (i : Inbox) → Attaches 11 (attach_inbox p c i)
  unfolding attach_inbox inbox_messages
  attach_inbox-Attaches i =
      bind-Attaches 0 11 _ _
        (with_report-Attaches _ (messages-Ends p c.request_timeout (confine i.address any_message)))
        (λ messages.
          bind-Attaches {A = Unit {0}} 1 10 _ _
            (attach-Attaches (codes "mailpeek " ++ i.address)
              (summary_json i.address (inbox_link p c i.address) (map row messages)))
            (λ _.
              weaken-Attaches (2 * length (take max_attached messages)) 10 _ (ground arith)
                (attach_each-Attaches 0 (take max_attached messages))))

  pub attach_emails-Attaches :
      (is' : List Inbox) → Attaches (11 * length is') (attach_emails p c is')
  unfolding attach_emails Attaches
  attach_emails-Attaches [] = λ s. Grows-refl s.1
  attach_emails-Attaches (i ∷ is') =
      weaken-Attaches (11 + 11 * length is') (11 * length (i ∷ is')) _ (omega arith) (
        bind-Attaches 11 (11 * length is') (attach_inbox p c i) (λ _. attach_emails p c is')
          (attach_inbox-Attaches i) (λ _. attach_emails-Attaches is'))
