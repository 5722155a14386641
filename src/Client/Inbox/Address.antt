-- ===== src/Client/Inbox/Address.antt =====
-- packages/client/src/inbox.ts: an inbox asks for its own address, and what its address is made of.
use mailpeek.Prelude.{
  ℕ, zero, suc, ◌%◌, ◌≤◌, ◌<◌, ◌≡◌, refl, ap, ◌⊎◌, inl, inr, Bool, true, false, ◌&&◌, ◌||◌, Option,
  none, some, get_or, List, [], ◌∷◌, ◌++◌, arith, leb, Bool-cases, length, get_elem?, all, All,
  Text, codes, is_empty, Memᴰ, any, text_eq, text_eq_sound, text_eq_refl,
}
use mathlib.Core.List as L
use mailpeek.Client.Types.{Since, moment, text, number, MessageFilter}
use mailpeek.Client.Platform.{Platform, invalid_date}
use mailpeek.Client.Requests.{
  filter_param, Params, set_param, set_params, query, since_params, since_param,
}
use mailpeek.Client.Ensures.{Ensures, bind_rule}
use mailpeek.Client.Inbox.{alphabet, random_id, confine}

-- A lower-case letter or a digit.
abbrev pub IsAlphanumeric : ℕ → Type 0
IsAlphanumeric u = ((97 ≤ u) × (u ≤ 122)) ⊎ ((48 ≤ u) × (u ≤ 57))

all-get :
    (P : ℕ → Type 0) (xs : Text) (i : ℕ) → All P xs → i < length xs → P (get_or (get_elem? xs i) 0)
all-get P [] i h lt = absurd (omega (arith, lt))
all-get P (x ∷ xs) zero h lt = h.0
all-get P (x ∷ xs) (suc i) h lt = all-get P xs i h.1 (omega (arith, lt))

is_alphanumeric : ℕ → Bool
is_alphanumeric u = (leb 97 u && leb u 122) || (leb 48 u && leb u 57)

is_alphanumeric-IsAlphanumeric : (u : ℕ) → is_alphanumeric u ≡ true → IsAlphanumeric u
unfolding is_alphanumeric
is_alphanumeric-IsAlphanumeric u h = elim (Bool-cases (leb 97 u && leb u 122)) [
  | inl letter ↦ inl (ground arith, ground arith)
  | inr other ↦ inr (ground arith, ground arith)
]

all_sound : (P : ℕ → Bool) (xs : Text) → all P xs ≡ true → All (λ u. P u ≡ true) xs
all_sound P [] h = tt
all_sound P (x ∷ xs) h = (ground arith, all_sound P xs (ground arith))

alphabet-all : all is_alphanumeric alphabet ≡ true
unfolding is_alphanumeric
alphabet-all = refl

letter-IsAlphanumeric : (i : ℕ) → i < 36 → IsAlphanumeric (get_or (get_elem? alphabet i) 0)
letter-IsAlphanumeric i lt = is_alphanumeric-IsAlphanumeric (get_or (get_elem? alphabet i) 0) (
    all-get (λ u. is_alphanumeric u ≡ true) alphabet i
      (all_sound is_alphanumeric alphabet alphabet-all) lt)

-- The random part of an address has a unit for each byte, and each is a lower-case letter or a digit.
pub random_id_lem :
    (bytes : List ℕ)
    → (length (random_id bytes) ≡ length bytes) × All IsAlphanumeric (random_id bytes)
unfolding random_id
random_id_lem [] = (refl, tt)
random_id_lem (b ∷ bytes) =
    let (size, fits) = random_id_lem bytes in
    (ap suc size, (letter-IsAlphanumeric (b % 36) (omega arith), fits))

address-listed :
    (address : Text) (before after : Params)
    → is_empty address ≡ false
    → Memᴰ
        (codes "address", address)
        (before ++ (filter_param (codes "address") (some address) ++ after))
address-listed [] before after h = cc
address-listed (c ∷ s) before after h = L.Memᴰ.append_right before (Memᴰ.head refl)

since_params-ends :
    (p : Platform) (since : Option Since) (w : p.World)
    → Ensures (λ s w'. Unit) (λ e w'. e ≡ invalid_date) (since_params p since w)
unfolding since_params since_param
since_params-ends p none w = tt
since_params-ends p (some (moment none)) w = refl
since_params-ends p (some (moment (some t))) w = tt
since_params-ends p (some (text s)) w = tt
since_params-ends p (some (number n)) w = tt

set_param-kept :
    (x : Text × Text) (key value : Text) (params : Params)
    → text_eq key x.0 ≡ false
    → Memᴰ x params
    → Memᴰ x (set_param key value params)
set_param-kept x key value [] other m = absurd (L.Memᴰ.not-nil m)
set_param-kept x key value ((k, v) ∷ params) other (Memᴰ.head same) =
    elim (Bool-cases (text_eq k key)) [
      | inl e ↦
          let same_key = ap (λ (y : Text × Text). y.0) same in
          let keys = text_eq_sound k key e in let equal = text_eq_refl key in cc
      | inr e ↦ rw e (Memᴰ.head same)
    ]
set_param-kept x key value ((k, v) ∷ params) other (Memᴰ.tail m) =
    elim (Bool-cases (text_eq k key)) [
      | inl e ↦ rw e (Memᴰ.tail m)
      | inr e ↦ rw e (Memᴰ.tail (set_param-kept x key value params other m))
    ]

set_params-kept :
    (x : Text × Text) (extra params : Params)
    → any (λ (e : Text × Text). text_eq e.0 x.0) extra ≡ false
    → Memᴰ x params
    → Memᴰ x (set_params extra params)
set_params-kept x [] params others m = m
set_params-kept x ((key, value) ∷ extra) params others m =
    set_params-kept x extra (set_param key value params) (ground arith)
      (set_param-kept x key value params (ground arith) m)

module _ (p : Platform) (address : Text) (present : is_empty address ≡ false) where
  -- For an address that is not empty, the parameters that a confined filter is sent with name it,
  -- whatever else the filter has and whatever parameters of other keys are added; only an invalid
  -- date is thrown.
  pub query-address :
      (f : MessageFilter) (extra : Params)
      → any (λ (e : Text × Text). text_eq e.0 (codes "address")) extra ≡ false
      → (w : p.World)
      → Ensures
          (λ params w'. Memᴰ (codes "address", address) params)
          (λ e w'. e ≡ invalid_date)
          (query p (confine address f) extra w)
  unfolding query
  query-address f extra others w =
      bind_rule {W = p.World} {A = Params} (λ s w'. Unit)
        (λ params w'. Memᴰ (codes "address", address) params) (λ e w'. e ≡ invalid_date)
        (since_params p f.since) _ w (since_params-ends p f.since w)
        (λ s w' h.
          set_params-kept _ extra _ others
            (address-listed address (filter_param (codes "to") f.to) _ present))
