-- ===== src/Client/Setup/Base64.antt =====
-- packages/client/src/client.ts: Base64 as RFC 4648 reads it back.
use mailpeek.Prelude.{
  ℕ, ◌+◌, ◌-◌, ◌*◌, ◌/◌, ◌%◌, ◌<◌, ◌≡◌, refl, ap, ◌∙◌, false, ◌&&◌, Option, none, some, List, [],
  ◌∷◌, ◌++◌, arith, leb, ◌==◌, if◌then◌else◌, All, Text,
}
use mailpeek.Client.Setup.{base64_unit, base64}

-- The six bits of a unit.
pub bits_of : ℕ → Option ℕ
bits_of u =
    if leb b'A' u && leb u b'Z'
    then some (u - b'A')
    else if leb b'a' u && leb u b'z'
    then some (u - 71)
    else if leb b'0' u && leb u b'9'
    then some (u + 4)
    else if u == b'+'
    then some 62
    else if u == b'/'
    then some 63
    else none

bits_of-base64_unit : (k : ℕ) → k < 64 → bits_of (base64_unit k) ≡ some k
unfolding bits_of base64_unit
bits_of-base64_unit k h = ground arith

base64_unit-padding : (k : ℕ) → k < 64 → (base64_unit k == b'=') ≡ false
unfolding base64_unit
base64_unit-padding k h = ground arith

-- The bytes that four units stand for.
abbrev pub group : ℕ → ℕ → ℕ → ℕ → Option (List ℕ)
group p q r s = elim (bits_of p) [
  | none ↦ none
  | some i ↦ elim (bits_of q) [
    | none ↦ none
    | some j ↦
        if r == b'='
        then if s == b'=' then some ((i * 4 + j / 16) ∷ []) else none
        else elim (bits_of r) [
          | none ↦ none
          | some k ↦
              if s == b'='
              then some ((i * 4 + j / 16) ∷ ((j % 16 * 16 + k / 4) ∷ []))
              else elim (bits_of s) [
                | none ↦ none
                | some l ↦
                    some ((i * 4 + j / 16) ∷ ((j % 16 * 16 + k / 4) ∷ ((k % 4 * 64 + l) ∷ [])))
              ]
        ]
  ]
]

abbrev append_bytes : Option (List ℕ) → Option (List ℕ) → Option (List ℕ)
append_bytes (some x) (some y) = some (x ++ y)
append_bytes (some x) none = none
append_bytes none y = none

-- The bytes of a text; `none` if a group is not four units of Base64.
abbrev pub unbase64 : Text → Option (List ℕ)
unbase64 [] = some []
unbase64 (p ∷ []) = none
unbase64 (p ∷ (q ∷ [])) = none
unbase64 (p ∷ (q ∷ (r ∷ []))) = none
unbase64 (p ∷ (q ∷ (r ∷ (s ∷ t)))) = append_bytes (group p q r s) (unbase64 t)

abbrev pub IsByte : ℕ → Type 0
IsByte b = b < 256

group-three :
    (p q r s i j k l a b c : ℕ)
    → (bits_of p ≡ some i) × (bits_of q ≡ some j) × (bits_of r ≡ some k) × (bits_of s ≡ some l)
    → (r == b'=') ≡ false
    → (s == b'=') ≡ false
    → i * 4 + j / 16 ≡ a
    → j % 16 * 16 + k / 4 ≡ b
    → k % 4 * 64 + l ≡ c
    → group p q r s ≡ some (a ∷ (b ∷ (c ∷ [])))
group-three p q r s i j k l a b c (hi, hj, hk, hl) hr hs ea eb ec = ground arith

group-two :
    (p q r i j k a b : ℕ)
    → (bits_of p ≡ some i) × (bits_of q ≡ some j) × (bits_of r ≡ some k)
    → (r == b'=') ≡ false
    → i * 4 + j / 16 ≡ a
    → j % 16 * 16 + k / 4 ≡ b
    → group p q r b'=' ≡ some (a ∷ (b ∷ []))
group-two p q r i j k a b (hi, hj, hk) hr ea eb = ground arith

group-one :
    (p q i j a : ℕ)
    → bits_of p ≡ some i
    → bits_of q ≡ some j
    → i * 4 + j / 16 ≡ a
    → group p q b'=' b'=' ≡ some (a ∷ [])
group-one p q i j a hi hj ea = ground arith

pub base64_lem : (bytes : List ℕ) → All IsByte bytes → unbase64 (base64 bytes) ≡ some bytes
base64_lem [] h = refl
base64_lem (a ∷ []) h =
    ap (λ g. append_bytes g (some []))
      (group-one (base64_unit (a / 4)) (base64_unit (a % 4 * 16)) (a / 4) (a % 4 * 16) a
        (bits_of-base64_unit (a / 4) (omega arith)) (bits_of-base64_unit (a % 4 * 16) (omega arith))
        (omega arith))
base64_lem (a ∷ (b ∷ [])) h =
    ap (λ g. append_bytes g (some []))
      (group-two (base64_unit (a / 4)) (base64_unit (a % 4 * 16 + b / 16))
        (base64_unit (b % 16 * 4)) (a / 4) (a % 4 * 16 + b / 16) (b % 16 * 4) a b
        (
          bits_of-base64_unit (a / 4) (omega arith),
          bits_of-base64_unit (a % 4 * 16 + b / 16) (omega arith),
          bits_of-base64_unit (b % 16 * 4) (omega arith),
        )
        (base64_unit-padding (b % 16 * 4) (omega arith)) (omega arith) (omega arith))
base64_lem (a ∷ (b ∷ (c ∷ bytes))) h =
    ap (λ g. append_bytes g (unbase64 (base64 bytes)))
      (group-three (base64_unit (a / 4)) (base64_unit (a % 4 * 16 + b / 16))
        (base64_unit (b % 16 * 4 + c / 64)) (base64_unit (c % 64)) (a / 4) (a % 4 * 16 + b / 16)
        (b % 16 * 4 + c / 64) (c % 64) a b c
        (
          bits_of-base64_unit (a / 4) (omega arith),
          bits_of-base64_unit (a % 4 * 16 + b / 16) (omega arith),
          bits_of-base64_unit (b % 16 * 4 + c / 64) (omega arith),
          bits_of-base64_unit (c % 64) (omega arith),
        )
        (base64_unit-padding (b % 16 * 4 + c / 64) (omega arith))
        (base64_unit-padding (c % 64) (omega arith)) (omega arith) (omega arith) (omega arith))
    ∙ ap (append_bytes (some (a ∷ (b ∷ (c ∷ []))))) (base64_lem bytes h.1.1.1)
