-- ===== src/Prelude/Search.antt =====
-- What the searches of `Lists` and `Strings` find, as propositions with witnesses.
use mathlib.Core.Bool.{Bool, true, false}
use mathlib.Core.List.{List, [], ◌∷◌, ◌++◌, Memᴰ, append_assoc, append-nil}
use mathlib.Core.List as L
use mathlib.Core.Logic.{◌↔◌, inl, inr}
use mathlib.Core.Path.{◌≡◌, refl, sym, ap, subst, ◌∙◌}
use native.Mathlib.Omega.{arith}
use mathlib.Core.Option.{none, some}
use Prim.Native.Nat.{ℕ, zero, suc}
use mailpeek.Prelude.Tests.{Bool-cases, Option-cases}
use mailpeek.Prelude.Lists.{any, find_index, get_elem?, filter}
use mailpeek.Prelude.Strings.{Text, join, starts_with, includes}

module _ {ℓ} {A : Type ℓ} (p : A → Bool) where
  pub any_sound : (xs : List A) → any p xs ≡ true → (x : A) × Memᴰ x xs × (p x ≡ true)
  any_sound [] h = cc
  any_sound (x ∷ xs) h = elim (Bool-cases (p x)) [
    | inl hit ↦ (x, Memᴰ.head refl, hit)
    | inr miss ↦ let (y, m, hit) = any_sound xs (ground arith) in (y, Memᴰ.tail m, hit)
  ]

  pub any_complete : {x : A} {xs : List A} → Memᴰ x xs → p x ≡ true → any p xs ≡ true
  any_complete (Memᴰ.head e) h = ground arith
  any_complete (Memᴰ.tail m) h = ground (arith, any_complete m h)

  pub find_index_sound :
      (xs : List A) (i : ℕ)
      → find_index p xs ≡ some i
      → (x : A) × (get_elem? xs i ≡ some x) × (p x ≡ true)
  find_index_sound [] i h = cc
  find_index_sound (x ∷ xs) zero h = elim (Bool-cases (p x)) [
    | inl hit ↦ (x, refl, hit)
    | inr miss ↦ elim (Option-cases (find_index p xs)) [
      | inl e ↦ ground arith
      | inr (k, e) ↦ ground arith
    ]
  ]
  find_index_sound (x ∷ xs) (suc i) h = elim (Bool-cases (p x)) [
    | inl hit ↦ ground arith
    | inr miss ↦ find_index_sound xs i (ground arith)
  ]

  pub find_index-none :
      (xs : List A) (i : ℕ) (x : A) → find_index p xs ≡ none → get_elem? xs i ≡ some x → p x ≡ false
  find_index-none [] i x h at = cc
  find_index-none (y ∷ xs) zero x h at = ground arith
  find_index-none (y ∷ xs) (suc i) x h at = find_index-none xs i x (ground arith) at

module _ {ℓ} {A : Type ℓ} where
  pub get-Memᴰ : (xs : List A) (i : ℕ) (x : A) → get_elem? xs i ≡ some x → Memᴰ x xs
  get-Memᴰ [] i x h = cc
  get-Memᴰ (y ∷ xs) zero x h = Memᴰ.head (ground arith)
  get-Memᴰ (y ∷ xs) (suc i) x h = Memᴰ.tail (get-Memᴰ xs i x h)

  filter-hit :
      (p : A → Bool) (y : A) (xs : List A) → p y ≡ true → y ∷ filter p xs ≡ filter p (y ∷ xs)
  filter-hit p y xs h = ground arith

  filter-miss : (p : A → Bool) (y : A) (xs : List A) → p y ≡ false → filter p xs ≡ filter p (y ∷ xs)
  filter-miss p y xs h = ground arith

  pub filter-Memᴰ :
      (p : A → Bool) (x : A) (xs : List A) → Memᴰ x xs → p x ≡ true → Memᴰ x (filter p xs)
  filter-Memᴰ p x [] m h = elim m [ ]
  filter-Memᴰ p x (y ∷ xs) (Memᴰ.head e) h =
      let hit : p y ≡ true = cc in subst (Memᴰ x) (filter-hit p y xs hit) (Memᴰ.head e)
  filter-Memᴰ p x (y ∷ xs) (Memᴰ.tail m) h =
      let rest = filter-Memᴰ p x xs m h in
      elim (Bool-cases (p y)) [
        | inl hit ↦ subst (Memᴰ x) (filter-hit p y xs hit) (Memᴰ.tail rest)
        | inr miss ↦ subst (Memᴰ x) (filter-miss p y xs miss) rest
      ]

module _ {ℓ} {A : Type ℓ} where
  pub filter-Memᴰ_inv :
      (p : A → Bool) (x : A) (xs : List A) → Memᴰ x (filter p xs) → Memᴰ x xs × (p x ≡ true)
  filter-Memᴰ_inv p x [] m = elim m [ ]
  filter-Memᴰ_inv p x (y ∷ xs) m = elim (Bool-cases (p y)) [
    | inl hit ↦ elim (L.Memᴰ.cases_cons (subst (Memᴰ x) (sym (filter-hit p y xs hit)) m)) [
      | inl e ↦ (Memᴰ.head e, cc)
      | inr rest ↦ let (listed, h) = filter-Memᴰ_inv p x xs rest in (Memᴰ.tail listed, h)
    ]
    | inr miss ↦
        let (rest, h) = filter-Memᴰ_inv p x xs (subst (Memᴰ x) (sym (filter-miss p y xs miss)) m) in
        (Memᴰ.tail rest, h)
  ]

-- `p` is a part of `s`.
abbrev pub IsPart : Text → Text → Type 0
IsPart s p = (x : Text) × (y : Text) × (s ≡ x ++ (p ++ y))

pub IsPart-trans : (r s t : Text) → IsPart r s → IsPart s t → IsPart r t
IsPart-trans r s t (x, y, e) (x', y', e') = (
  x ++ x',
  y' ++ y,
  e
      ∙ ap (λ m. x ++ (m ++ y)) e'
      ∙ ap (λ m. x ++ m) (append_assoc x' (t ++ y') y ∙ ap (◌++◌ x') (append_assoc t y' y))
      ∙ sym (append_assoc x x' (t ++ (y' ++ y))),
)

pub IsPart-left : (s t p : Text) → IsPart t p → IsPart (s ++ t) p
IsPart-left s t p (x, y, e) = (s ++ x, y, ap (λ u. s ++ u) e ∙ sym (append_assoc s x (p ++ y)))

pub IsPart-right : (s t p : Text) → IsPart s p → IsPart (s ++ t) p
IsPart-right s t p (x, y, e) = (
  x,
  y ++ t,
  ap (λ u. u ++ t) e ∙ append_assoc x (p ++ y) t ∙ ap (λ u. x ++ u) (append_assoc p y t),
)

pub IsPart-refl : (s : Text) → IsPart s s
IsPart-refl s = ([], [], sym (append-nil s))

-- Each text of the list is a part of the joined text.
pub join-IsPart :
    (separator : Text) (x : Text) (xs : List Text) → Memᴰ x xs → IsPart (join separator xs) x
join-IsPart separator x [] m = elim m [ ]
join-IsPart separator x (y ∷ []) (Memᴰ.head e) = subst (IsPart y) (sym e) (IsPart-refl y)
join-IsPart separator x (y ∷ []) (Memᴰ.tail m) = elim m [ ]
join-IsPart separator x (y ∷ (z ∷ zs)) (Memᴰ.head e) =
    subst (IsPart (join separator (y ∷ (z ∷ zs)))) (sym e)
      (IsPart-right y (separator ++ join separator (z ∷ zs)) y (IsPart-refl y))
join-IsPart separator x (y ∷ (z ∷ zs)) (Memᴰ.tail m) =
    IsPart-left y (separator ++ join separator (z ∷ zs)) x
      (IsPart-left separator (join separator (z ∷ zs)) x (join-IsPart separator x (z ∷ zs) m))

starts_with_sound : (s p : Text) → starts_with s p ≡ true → (y : Text) × (s ≡ p ++ y)
starts_with_sound s [] h = (s, refl)
starts_with_sound [] (b ∷ p) h = cc
starts_with_sound (a ∷ s) (b ∷ p) h =
    let (y, e) = starts_with_sound s p (ground arith) in (y, ground arith)

starts_with-append : (p y : Text) → starts_with (p ++ y) p ≡ true
starts_with-append [] y = refl
starts_with-append (a ∷ p) y = ground (arith, starts_with-append p y)

pub includes_sound : (s p : Text) → includes s p ≡ true → IsPart s p
includes_sound [] [] h = ([], [], refl)
includes_sound [] (b ∷ p) h = cc
includes_sound (c ∷ s) p h = elim (Bool-cases (starts_with (c ∷ s) p)) [
  | inl hit ↦ let (y, e) = starts_with_sound (c ∷ s) p hit in ([], y, e)
  | inr miss ↦ let (x, y, e) = includes_sound s p (ground arith) in (c ∷ x, y, ap (◌∷◌ c) e)
]

includes-part : (x p y : Text) → includes (x ++ (p ++ y)) p ≡ true
includes-part [] [] [] = refl
includes-part [] [] (c ∷ y) = refl
includes-part [] (b ∷ p) y = ground (arith, starts_with-append p y)
includes-part (c ∷ x) p y = ground (arith, includes-part x p y)

pub includes_iff : (s p : Text) → (includes s p ≡ true) ↔ IsPart s p
includes_iff s p = (includes_sound s p, λ (x, y, e). ground (arith, includes-part x p y))
