-- ===== src/Web/Selection/Unread.antt =====
-- web/src/hooks/useArrivals.ts and useInboxState.ts: which messages are unread.
use mailpeek.Prelude.{
  ◌≡◌, sym, ◌≢◌, ◌↔◌, ◌⊎◌, inl, inr, false, not, Option, none, some, List, [], ◌∷◌, ◌++◌, arith,
  if◌then◌else◌, Bool-cases, filter, All, Text, text_eq, text_eq_iff, is_empty, Memᴰ, filter-Memᴰ,
  filter-Memᴰ_inv,
}
use mathlib.Core.List as L
use mailpeek.Web.Live.{
  MailpeekEvent, message_created, message_deleted, messages_cleared, resync, connected,
}
use mailpeek.Web.Selection.{arrive, arrivals}

-- An event that leaves the id among the arrivals, and one that puts it there.
abbrev pub Keeps : Text → MailpeekEvent × Option Text → Type 0
Keeps id (message_deleted, some x) = x ≢ id
Keeps id (messages_cleared, x) = ⊥
Keeps id _ = Unit

abbrev pub IsArrival : Text → MailpeekEvent × Option Text → Type 0
IsArrival id (message_created, some x) = x ≡ id
IsArrival id _ = ⊥

abbrev pub HasArrived : Text → List (MailpeekEvent × Option Text) → Type 0
HasArrived id [] = ⊥
HasArrived id (e ∷ es) = (IsArrival id e × All (Keeps id) es) ⊎ HasArrived id es

mem_last : (x y : Text) (xs : List Text) → Memᴰ x (xs ++ (y ∷ [])) → Memᴰ x xs ⊎ (y ≡ x)
mem_last x y xs m = elim (L.Memᴰ.append_cases xs m) [
  | inl listed ↦ inl listed
  | inr last ↦ elim (L.Memᴰ.cases_cons last) [
    | inl e ↦ inr (sym e)
    | inr never ↦ absurd (L.Memᴰ.not-nil never)
  ]
]

module _ (id : Text) (present : is_empty id ≡ false) (a : List Text) where
  arrive-created :
      (x : Text) → Memᴰ id (if is_empty x then a else a ++ (x ∷ [])) ↔ (Memᴰ id a ⊎ (x ≡ id))
  arrive-created x = elim (Bool-cases (is_empty x)) [
    | inl e ↦ rw e (λ m. inl m, λ h. elim h [ inl m ↦ m | inr same ↦ ground arith ])
    | inr e ↦ rw e (
      λ m. mem_last id x a m,
      λ h. elim h [
        | inl m ↦ L.Memᴰ.append_left (x ∷ []) m
        | inr same ↦ L.Memᴰ.append_right a (Memᴰ.head (sym same))
      ],
    )
  ]

  arrive-deleted :
      (x : Text)
      → Memᴰ id (if is_empty x then a else filter (λ y. not (text_eq y x)) a)
        ↔ (Memᴰ id a × (x ≢ id))
  arrive-deleted x = elim (Bool-cases (is_empty x)) [
    | inl e ↦ rw e (λ m. (m, λ same. ground arith), λ h. h.0)
    | inr e ↦ rw e (
      λ m.
          let (listed, differs) = filter-Memᴰ_inv (λ y. not (text_eq y x)) id a m in
          (listed, λ same. ground (arith, text_eq_iff id x)),
      λ h.
          filter-Memᴰ (λ y. not (text_eq y x)) id a h.0
            (let differs = h.1 in ground (arith, text_eq_iff id x)),
    )
  ]

  arrive_iff :
      (e : MailpeekEvent × Option Text)
      → Memᴰ id (arrive a e.0 e.1) ↔ ((Memᴰ id a × Keeps id e) ⊎ IsArrival id e)
  arrive_iff (message_created, some x) =
      let (to, from) = arrive-created x in
      (
        λ m. elim (to m) [ inl m ↦ inl (m, tt) | inr e ↦ inr e ],
        λ h. elim h [ inl (m, k) ↦ from (inl m) | inr e ↦ from (inr e) ],
      )
  arrive_iff (message_created, none) =
      (λ m. inl (m, tt), λ h. elim h [ inl (m, k) ↦ m | inr never ↦ absurd never ])
  arrive_iff (message_deleted, some x) =
      let (to, from) = arrive-deleted x in
      (λ m. inl (to m), λ h. elim h [ inl k ↦ from k | inr never ↦ absurd never ])
  arrive_iff (message_deleted, none) =
      (λ m. inl (m, tt), λ h. elim h [ inl (m, k) ↦ m | inr never ↦ absurd never ])
  arrive_iff (messages_cleared, o) = (
    λ m. absurd (L.Memᴰ.not-nil m),
    λ h. elim h [ inl (m, never) ↦ absurd never | inr never ↦ absurd never ],
  )
  arrive_iff (resync, o) =
      (λ m. inl (m, tt), λ h. elim h [ inl (m, k) ↦ m | inr never ↦ absurd never ])
  arrive_iff (connected, o) =
      (λ m. inl (m, tt), λ h. elim h [ inl (m, k) ↦ m | inr never ↦ absurd never ])

arrivals_from :
    (id : Text) (es : List (MailpeekEvent × Option Text)) (a : List Text)
    → is_empty id ≡ false
    → Memᴰ id (arrivals a es) ↔ ((Memᴰ id a × All (Keeps id) es) ⊎ HasArrived id es)
arrivals_from id [] a present =
    (λ m. inl (m, tt), λ h. elim h [ inl (m, k) ↦ m | inr never ↦ absurd never ])
arrivals_from id (e ∷ es) a present =
    let (to, from) = arrivals_from id es (arrive a e.0 e.1) present in
    let (step_to, step_from) = arrive_iff id present a e in
    (
      λ m. elim (to m) [
        | inl (now, kept) ↦ elim (step_to now) [
          | inl (had, keeps) ↦ inl (had, (keeps, kept))
          | inr came ↦ inr (inl (came, kept))
        ]
        | inr later ↦ inr (inr later)
      ],
      λ h. elim h [
        | inl (had, (keeps, kept)) ↦ from (inl (step_from (inl (had, keeps)), kept))
        | inr (inl (came, kept)) ↦ from (inl (step_from (inr came), kept))
        | inr (inr later) ↦ from (inr later)
      ],
    )

-- An id that is not empty is among the arrivals after some events exactly if one of them created it
-- and no later one deleted it or cleared the list.
pub arrivals_iff :
    (id : Text) (es : List (MailpeekEvent × Option Text))
    → is_empty id ≡ false
    → Memᴰ id (arrivals [] es) ↔ HasArrived id es
arrivals_iff id es present =
    let (to, from) = arrivals_from id es [] present in
    (
      λ m. elim (to m) [ inl (never, kept) ↦ absurd (L.Memᴰ.not-nil never) | inr h ↦ h ],
      λ h. from (inr h),
    )
