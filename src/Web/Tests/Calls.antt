-- ===== src/Web/Tests/Calls.antt =====
-- Runs of the page: the calls of the server and the controls.
use mailpeek.Prelude.{
  ℕ, ◌≡◌, refl, ◌≢◌, ◌↔◌, ◌⊎◌, Bool, true, false, Option, none, some, List, [], ◌∷◌, codes,
}
use mailpeek.Web.Api as Api
use mailpeek.Web.Api.Responses.{HasReturned, IsSuccess, GoesToLogin, responses_iff}
use mailpeek.Web.Controls.{
  ConfirmEvent, triggered, time_over, confirm_step, confirm_run, unarmed, effective_tab,
}

abbrev refused : Api.Response ℕ
refused = record { status = 401; json = none; error = none; plain = [] }

abbrev shown_page : Api.Page
shown_page = record {
  signing_out = false;
  pathname = codes "/";
  search = codes "?q=a";
  assigned = [];
}

calling : Unit {0}
unfolding Api.request Api.call
calling = tt

login_test : (Api.request (λ s. s) refused shown_page).1.assigned ≡ codes "/login?next=/?q=a" ∷ []
unfolding calling
login_test = refl

responses_iff_example :
    (HasReturned (Api.request (λ s. s) refused shown_page).0
      ↔ (IsSuccess 401 × ((a : ℕ) × (◌≡◌ {A = Option ℕ} none (some a)))))
    × (HasReturned (Api.delete_message (λ s. s) refused shown_page).0
        ↔ (IsSuccess 401 ⊎ (◌≡◌ {A = ℕ} 401 404)))
    × ((◌≡◌ {A = ℕ} 401 401) × (◌≡◌ {A = Bool} false false)
        → GoesToLogin (λ s. s) shown_page (Api.request (λ s. s) refused shown_page).1
          × GoesToLogin (λ s. s) shown_page (Api.delete_message (λ s. s) refused shown_page).1)
    × ((◌≢◌ {A = ℕ} 401 401) ⊎ (◌≡◌ {A = Bool} false true)
        → ((Api.request (λ s. s) refused shown_page).1 ≡ shown_page)
          × ((Api.delete_message (λ s. s) refused shown_page).1 ≡ shown_page))
responses_iff_example = responses_iff (λ s. s) refused shown_page

abbrev presses : List ConfirmEvent
presses = triggered ∷ time_over ∷ triggered ∷ triggered ∷ []

confirming : Unit {0}
unfolding confirm_step effective_tab
confirming = tt

confirm_test : confirm_run unarmed presses ≡ record { armed = false; has_timer = false; runs = 1 }
unfolding confirming
confirm_test = refl
