-- ===== src/Web/Api/Responses.antt =====
-- web/src/api.ts: which responses are errors, and which send the page to the login.
use mailpeek.Prelude.{
  ℕ, ◌≤◌, ◌≡◌, ◌≢◌, ◌↔◌, ◌⊎◌, inl, inr, true, false, some, [], ◌∷◌, ◌++◌, arith, ◌==◌, ==_iff,
  Bool-cases, Option-cases, Text, codes,
}
use mailpeek.Web.Api.{Response, Page, Result, returned, is_ok, call, request, delete_message}

abbrev pub HasReturned : {A : Type 0} → Result A → Type 0
HasReturned {A} r = (a : A) × (r ≡ returned a)

abbrev pub IsSuccess : ℕ → Type 0
IsSuccess status = (200 ≤ status) × (status ≤ 299)

-- The page is sent to the login, with the place to come back to, or is left as it is.
abbrev pub GoesToLogin : (Text → Text) → Page → Page → Type 0
GoesToLogin encode s t = t ≡ record s {
  assigned = s.assigned ++ ((codes "/login?next=" ++ encode (s.pathname ++ s.search)) ∷ []);
}

is_ok_iff : (status : ℕ) → (is_ok status ≡ true) ↔ IsSuccess status
is_ok_iff status =
    (λ h. (ground arith, ground arith), λ h. let a = h.0 in let b = h.1 in ground arith)

module _ {A : Type 0} (encode : Text → Text) (res : Response A) (s : Page) where
  call_iff :
      ((res.status ≡ 401) × (s.signing_out ≡ false)
        → GoesToLogin encode s (call encode res.status s))
      × ((res.status ≢ 401) ⊎ (s.signing_out ≡ true) → call encode res.status s ≡ s)
  unfolding call
  call_iff = (
    λ h. (let a = h.0 in let b = h.1 in ground arith),
    λ h. elim h [ inl other ↦ ground arith | inr out ↦ ground arith ],
  )

  request_iff :
      HasReturned (request encode res s).0
      ↔ (IsSuccess res.status × ((a : A) × (res.json ≡ some a)))
  unfolding request
  request_iff = elim (Bool-cases (is_ok res.status)) [
    | inl ok ↦ (
      λ (a, e). (
        (is_ok_iff res.status).0 ok,
        elim (Option-cases res.json) [ inl missing ↦ ground arith | inr found ↦ found ],
      ),
      λ (success, (a, e)). (a, ground arith),
    )
    | inr bad ↦ (
      λ (a, e). ground arith,
      λ (success, found). let ok = (is_ok_iff res.status).1 success in cc,
    )
  ]

  delete_message_iff :
      HasReturned (delete_message encode res s).0 ↔ (IsSuccess res.status ⊎ (res.status ≡ 404))
  unfolding delete_message
  delete_message_iff = elim (Bool-cases (is_ok res.status)) [
    | inl ok ↦ (λ h. inl ((is_ok_iff res.status).0 ok), λ h. (tt, ground arith))
    | inr bad ↦ elim (Bool-cases (res.status == 404)) [
      | inl gone ↦ (λ h. inr ((==_iff res.status 404).0 gone), λ h. (tt, ground arith))
      | inr there ↦ (
        λ (a, e). ground arith,
        λ h. elim h [
          | inl success ↦ let ok = (is_ok_iff res.status).1 success in cc
          | inr gone ↦ ground arith
        ],
      )
    ]
  ]

  -- A request returns exactly if the status is from 200 to 299 and the body is the JSON that is
  -- wanted, and a deletion exactly if it is from 200 to 299 or 404. Both send the page to the login,
  -- with its path and search to come back to, if the status is 401 and the page does not sign out,
  -- and else leave it as it is.
  pub responses_iff :
      (HasReturned (request encode res s).0
        ↔ (IsSuccess res.status × ((a : A) × (res.json ≡ some a))))
      × (HasReturned (delete_message encode res s).0 ↔ (IsSuccess res.status ⊎ (res.status ≡ 404)))
      × ((res.status ≡ 401) × (s.signing_out ≡ false)
          → GoesToLogin encode s (request encode res s).1
            × GoesToLogin encode s (delete_message encode res s).1)
      × ((res.status ≢ 401) ⊎ (s.signing_out ≡ true)
          → ((request encode res s).1 ≡ s) × ((delete_message encode res s).1 ≡ s))
  unfolding request delete_message
  responses_iff = (
    request_iff,
    delete_message_iff,
    λ h. (call_iff.0 h, call_iff.0 h),
    λ h. (call_iff.1 h, call_iff.1 h),
  )
