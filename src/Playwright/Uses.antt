-- ===== src/Playwright/Uses.antt =====
-- packages/playwright/src/index.ts: the inboxes that a test used.
use mailpeek.Prelude.{
  Option, Text, ℕ, ◌+◌, ◌<◌, ◌≡◌, refl, sym, ap, subst, ◌∙◌, ◌⊎◌, inl, inr, true, false, List, [],
  ◌∷◌, ◌++◌, arith, ◌==◌, Bool-cases, any, All, Memᴰ, if-cases,
}
use mailpeek.Client.Requests.{Config}
use mailpeek.Client.Inbox.{create_inbox}
use mailpeek.Playwright.{Inbox, Use, inbox_created, worker_inbox_used, add, used_inboxes}

-- The inbox of a use is one of the list.
pub IsAmong : Config → (worker : Inbox) → List Inbox → Use → Type 0
IsAmong c worker is' (inbox_created prefix domain bytes) =
    (i : Inbox) × Memᴰ i is' × (i.address ≡ create_inbox c prefix domain bytes)
IsAmong c worker is' worker_inbox_used = Memᴰ worker is'

-- An inbox is that of a use.
pub data IsUsed (c : Config) (worker : Inbox) (uses : List Use) (i : Inbox) : Type 0 where
  was_created :
      (prefix domain : Option Text) (bytes : List ℕ)
      → Memᴰ (inbox_created prefix domain bytes) uses
      → i.address ≡ create_inbox c prefix domain bytes
      → IsUsed c worker uses i
  was_worker : Memᴰ worker_inbox_used uses → i ≡ worker → IsUsed c worker uses i

append-left : {A : Type 0} {x : A} (xs ys : List A) → Memᴰ x xs → Memᴰ x (xs ++ ys)
append-left [] ys m = elim m [ ]
append-left (y ∷ xs) ys (Memᴰ.head e) = Memᴰ.head e
append-left (y ∷ xs) ys (Memᴰ.tail m) = Memᴰ.tail (append-left xs ys m)

append-last : {A : Type 0} (x : A) (xs : List A) → Memᴰ x (xs ++ (x ∷ []))
append-last x [] = Memᴰ.head refl
append-last x (y ∷ xs) = Memᴰ.tail (append-last x xs)

All-last :
    {A : Type 0} (P : A → Type 0) (x : A) (xs : List A) → All P xs → P x → All P (xs ++ (x ∷ []))
All-last P x [] h p = (p, tt)
All-last P x (y ∷ xs) h p = (h.0, All-last P x xs h.1 p)

All-map :
    {A : Type 0} (P Q : A → Type 0) (xs : List A) → ((x : A) → P x → Q x) → All P xs → All Q xs
All-map P Q [] f h = tt
All-map P Q (x ∷ xs) f h = (f x h.0, All-map P Q xs f h.1)

add-cases :
    (P : List Inbox → Type 0) (is' : List Inbox) (i : Inbox)
    → P is'
    → P (is' ++ (i ∷ []))
    → P (add is' i)
add-cases P is' i old new = if-cases P (any (λ (j : Inbox). j.ref == i.ref) is') is' _ old new

add-keeps : (j : Inbox) (is' : List Inbox) (i : Inbox) → Memᴰ j is' → Memᴰ j (add is' i)
add-keeps j is' i m = add-cases (Memᴰ j) is' i m (append-left is' (i ∷ []) m)

used_inboxes-keeps :
    (c : Config) (worker : Inbox) (next : ℕ) (is' : List Inbox) (us : List Use) (j : Inbox)
    → Memᴰ j is'
    → Memᴰ j (used_inboxes c worker next is' us)
used_inboxes-keeps c worker next is' [] j m = m
used_inboxes-keeps c worker next is' (inbox_created prefix domain bytes ∷ us) j m =
    used_inboxes-keeps c worker (next + 1) _ us j (add-keeps j is' _ m)
used_inboxes-keeps c worker next is' (worker_inbox_used ∷ us) j m =
    used_inboxes-keeps c worker next _ us j (add-keeps j is' worker m)

-- The worker's inbox has the number 0, and each other one a number below the next.
abbrev pub IsNumbered : Inbox → ℕ → Inbox → Type 0
IsNumbered worker next j = (j ≡ worker) ⊎ ((0 < j.ref) × (j.ref < next))

AllNumbered-add :
    (worker : Inbox) (next : ℕ) (is' : List Inbox) (i : Inbox)
    → All (IsNumbered worker next) is'
    → IsNumbered worker next i
    → All (IsNumbered worker next) (add is' i)
AllNumbered-add worker next is' i h n =
    add-cases (All (IsNumbered worker next)) is' i h (All-last (IsNumbered worker next) i is' h n)

fresh :
    (worker : Inbox) (next : ℕ) (is' : List Inbox)
    → worker.ref ≡ 0
    → 0 < next
    → All (IsNumbered worker next) is'
    → any (λ (j : Inbox). j.ref == next) is' ≡ false
fresh worker next [] z l h = refl
fresh worker next (j ∷ is') z l h =
    let rest = fresh worker next is' z l h.1 in
    let differs : (j.ref == next) ≡ false = elim h.0 [
      | inl e ↦ let r : j.ref ≡ 0 = ap (λ (i : Inbox). i.ref) e ∙ z in ground arith
      | inr (a, b) ↦ ground arith
    ] in
    rw (differs, rest) refl

add_worker :
    (worker : Inbox) (next : ℕ) (is' : List Inbox)
    → worker.ref ≡ 0
    → All (IsNumbered worker next) is'
    → Memᴰ worker (add is' worker)
add_worker worker next is' z h = elim (Bool-cases (any (λ (j : Inbox). j.ref == worker.ref) is')) [
  | inl hit ↦ rw hit (there is' h hit)
  | inr miss ↦ rw miss (append-last worker is')
]
  where
    there :
        (js : List Inbox)
        → All (IsNumbered worker next) js
        → any (λ (j : Inbox). j.ref == worker.ref) js ≡ true
        → Memᴰ worker js
    there [] h e = cc
    there (j ∷ js) h e = elim h.0 [
      | inl same ↦ Memᴰ.head (sym same)
      | inr (a, b) ↦
          let other : (j.ref == worker.ref) ≡ false = ground arith in
          Memᴰ.tail (there js h.1 (ground arith))
    ]

pub used_inboxes-IsAmong :
    (c : Config) (worker : Inbox) (next : ℕ) (is' : List Inbox) (us : List Use)
    → worker.ref ≡ 0
    → 0 < next
    → All (IsNumbered worker next) is'
    → All (IsAmong c worker (used_inboxes c worker next is' us)) us
unfolding IsAmong
used_inboxes-IsAmong c worker next is' [] z l h = tt
used_inboxes-IsAmong c worker next is' (inbox_created prefix domain bytes ∷ us) z l h =
    let i : Inbox = record { ref = next; address = create_inbox c prefix domain bytes } in
    let added : add is' i ≡ is' ++ (i ∷ []) = rw (fresh worker next is' z l h) refl in
    (
      (
        i,
        used_inboxes-keeps c worker (next + 1) (add is' i) us i
            (subst (Memᴰ i) (sym added) (append-last i is')),
        refl,
      ),
      used_inboxes-IsAmong c worker (next + 1) (add is' i) us z (omega arith) (
          AllNumbered-add worker (next + 1) is' i
            (All-map (IsNumbered worker next) (IsNumbered worker (next + 1)) is'
              (λ j n. elim n [ inl e ↦ inl e | inr (a, b) ↦ inr (a, omega arith) ]) h)
            (inr (l, omega arith))),
    )
used_inboxes-IsAmong c worker next is' (worker_inbox_used ∷ us) z l h = (
  used_inboxes-keeps c worker next (add is' worker) us worker (add_worker worker next is' z h),
  used_inboxes-IsAmong c worker next (add is' worker) us z l
      (AllNumbered-add worker next is' worker h (inl refl)),
)

All-add : (P : Inbox → Type 0) (is' : List Inbox) (i : Inbox) → All P is' → P i → All P (add is' i)
All-add P is' i h p = add-cases (All P) is' i h (All-last P i is' h p)

pub used_inboxes-IsUsed :
    (c : Config) (worker : Inbox) (uses : List Use) (next : ℕ) (is' : List Inbox) (us : List Use)
    → ((u : Use) → Memᴰ u us → Memᴰ u uses)
    → All (IsUsed c worker uses) is'
    → All (IsUsed c worker uses) (used_inboxes c worker next is' us)
used_inboxes-IsUsed c worker uses next is' [] sub h = h
used_inboxes-IsUsed c worker uses next is' (inbox_created prefix domain bytes ∷ us) sub h =
    used_inboxes-IsUsed c worker uses (next + 1) _ us (λ u m. sub u (Memᴰ.tail m))
      (All-add (IsUsed c worker uses) is'
        (record { ref = next; address = create_inbox c prefix domain bytes }) h
        (was_created prefix domain bytes (sub _ (Memᴰ.head refl)) refl))
used_inboxes-IsUsed c worker uses next is' (worker_inbox_used ∷ us) sub h =
    used_inboxes-IsUsed c worker uses next _ us (λ u m. sub u (Memᴰ.tail m))
      (All-add (IsUsed c worker uses) is' worker h (was_worker (sub _ (Memᴰ.head refl)) refl))
