-- ===== src/Web/Controls/Behaviour.antt =====
-- web/src/hooks/useConfirmAction.ts and web/src/lib/tabs.ts: no action without its confirmation, and
-- no empty tab where there is something to show.
use mailpeek.Prelude.{
  ℕ, suc, ◌+◌, ◌*◌, ◌≤◌, ◌≡◌, refl, inl, inr, Bool, true, false, List, [], ◌∷◌, arith, Bool-cases,
  Text, is_empty,
}
use mailpeek.Web.Controls.{
  Confirm, ConfirmEvent, triggered, time_over, confirm_step, confirm_run, unarmed, Tab, html_tab,
  text_tab, headers_tab, raw_tab, attachments_tab, links_tab, effective_tab,
}

abbrev pub triggers : List ConfirmEvent → ℕ
triggers [] = 0
triggers (triggered ∷ es) = suc (triggers es)
triggers (time_over ∷ es) = triggers es

abbrev pub one_if : Bool → ℕ
one_if true = 1
one_if false = 0

confirm_run-bound :
    (c : Confirm) (es : List ConfirmEvent)
    → c.armed ≡ c.has_timer
    → let d = confirm_run c es in
      (d.armed ≡ d.has_timer)
      × (2 * d.runs + one_if d.armed ≤ 2 * c.runs + one_if c.armed + triggers es)
unfolding confirm_step
confirm_run-bound c [] h = (h, omega arith)
confirm_run-bound c (triggered ∷ es) h = elim (Bool-cases c.armed) [
  | inl armed ↦
      let rest =
        confirm_run-bound (record { armed = false; has_timer = false; runs = c.runs + 1 }) es
          refl in
      ground (arith, rest, armed)
  | inr idle ↦
      let rest =
        confirm_run-bound (record { armed = true; has_timer = true; runs = c.runs }) es refl in
      ground (arith, rest, idle)
]
confirm_run-bound c (time_over ∷ es) h = elim (Bool-cases c.has_timer) [
  | inl timer ↦
      let rest = confirm_run-bound (record c { armed = false; has_timer = false }) es refl in
      ground (arith, rest, timer)
  | inr still ↦ let rest = confirm_run-bound c es h in ground (arith, rest, still)
]

-- After any events the action is armed exactly while its timer runs, and it has run at most once for
-- two triggers; one that is armed has used up one more.
pub confirm_run_lem :
    (es : List ConfirmEvent)
    → let c = confirm_run unarmed es in
      (c.armed ≡ c.has_timer) × (2 * c.runs + one_if c.armed ≤ triggers es)
confirm_run_lem es =
    let (armed, bounded) = confirm_run-bound unarmed es refl in (armed, omega (arith, bounded))

-- The tab shown is the HTML only if there is HTML or there is no text, and the text only if there is
-- text or there is no HTML.
pub effective_tab_lem :
    (tab : Tab) (html text : Text)
    → ((effective_tab tab html text ≡ html_tab) → is_empty html ≡ true → is_empty text ≡ true)
      × ((effective_tab tab html text ≡ text_tab) → is_empty text ≡ true → is_empty html ≡ true)
unfolding effective_tab
effective_tab_lem html_tab html text = (λ e h. ground arith, λ e h. ground arith)
effective_tab_lem text_tab html text = (λ e h. ground arith, λ e h. ground arith)
effective_tab_lem headers_tab html text = (λ e h. cc, λ e h. cc)
effective_tab_lem raw_tab html text = (λ e h. cc, λ e h. cc)
effective_tab_lem attachments_tab html text = (λ e h. cc, λ e h. cc)
effective_tab_lem links_tab html text = (λ e h. cc, λ e h. cc)
