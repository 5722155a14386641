-- ===== src/Web/Format/Sizes.antt =====
-- web/src/lib/format.ts: the unit that a size is written in.
use mailpeek.Prelude.{
  ℕ, ◌*◌, ◌^◌, ◌≤◌, ◌<◌, ◌≡◌, refl, ap, ◌⊎◌, inl, inr, Bool, true, false, not, ◌&&◌, ◌++◌, arith,
  ltb, leb, if◌then◌else◌, ltb→lt, leb→le, Bool-cases, length, take, length-take, Text, codes,
  is_empty,
}
use mailpeek.Web.Format.{Size, size_of, digits_of, format_bytes, extension, label_text}

-- The unit with its size in bytes.
pub data IsUnit : Text → ℕ → Type 0 where
  kilobytes : IsUnit (codes "KB") (1024 ^ 1)
  megabytes : IsUnit (codes "MB") (1024 ^ 2)
  gigabytes : IsUnit (codes "GB") (1024 ^ 3)

leb-false : (a b : ℕ) → leb a b ≡ false → b < a
leb-false a b h = ground arith

ltb-false : (a b : ℕ) → ltb a b ≡ false → b ≤ a
ltb-false a b h = ground arith

size_of-cases :
    (n : ℕ) (P : Size → Type 0)
    → (n < 1048576 → P (record { divisor = 1024; unit = codes "KB" }))
    → (1048576 ≤ n → n < 1073741824 → P (record { divisor = 1048576; unit = codes "MB" }))
    → (1073741824 ≤ n → P (record { divisor = 1073741824; unit = codes "GB" }))
    → P (size_of n)
unfolding size_of
size_of-cases n P kb mb gb = elim (Bool-cases (leb 1048576 n)) [
  | inr small ↦ rw small (kb (leb-false 1048576 n small))
  | inl large ↦ elim (Bool-cases (leb 1073741824 n)) [
    | inr medium ↦ rw (large, medium) (mb (leb→le 1048576 n large) (leb-false 1073741824 n medium))
    | inl huge ↦ rw (large, huge) (gb (leb→le 1073741824 n huge))
  ]
]

-- A number of digits behind the point: one below ten units, else none.
pub IsPrecise : (n divisor digits : ℕ) → Type 0
IsPrecise n divisor digits =
    ((digits ≡ 1) × (n < 10 * divisor)) ⊎ ((digits ≡ 0) × (10 * divisor ≤ n))

-- The size is one of the units at least, and below 1024 of them unless the unit is the last.
pub record IsWellSized (n : ℕ) (s : Size) : Type 0 where
  pub is_unit : IsUnit s.unit s.divisor
  pub enough : s.divisor ≤ n
  pub not_more : (n < 1024 * s.divisor) ⊎ (s.unit ≡ codes "GB")

size_of-IsWellSized : (n : ℕ) → 1024 ≤ n → IsWellSized n (size_of n)
size_of-IsWellSized n l =
    size_of-cases n (IsWellSized n)
      (λ small. record { is_unit = kilobytes; enough = l; not_more = inl (omega (arith, small)) })
      (λ large medium. record {
        is_unit = megabytes;
        enough = large;
        not_more = inl (omega (arith, medium));
      })
      (λ huge. record { is_unit = gigabytes; enough = huge; not_more = inr refl })

digits_of-IsPrecise : (n : ℕ) (s : Size) → IsPrecise n s.divisor (digits_of n s)
unfolding IsPrecise
digits_of-IsPrecise n s = elim (Bool-cases (ltb n (10 * s.divisor))) [
  | inl below ↦ inl (ap (λ b. if b then 1 else 0) below, ltb→lt n (10 * s.divisor) below)
  | inr above ↦ inr (ap (λ b. if b then 1 else 0) above, ltb-false n (10 * s.divisor) above)
]

-- A size below 1024 is written in bytes; any other with the unit, of KB, MB and GB, that it has one
-- of at least and less than 1024, or with GB, and with a digit behind the point exactly if it is less
-- than ten of the unit.
pub format_bytes_lem :
    (show : ℕ → Text) (format : (digits n divisor : ℕ) → Text) (n : ℕ)
    → ((n < 1024) × (format_bytes show format n ≡ show n ++ codes " B"))
      ⊎ ((s : Size) × (digits : ℕ) × IsWellSized n s
          × IsPrecise n s.divisor digits
          × (format_bytes show format n ≡ format digits n s.divisor ++ (codes " " ++ s.unit)))
unfolding format_bytes
format_bytes_lem show format n = elim (Bool-cases (ltb n 1024)) [
  | inl small ↦ inl (ltb→lt n 1024 small, rw small refl)
  | inr large ↦ inr (
    size_of n,
    digits_of n (size_of n),
    size_of-IsWellSized n (ltb-false n 1024 large),
    digits_of-IsPrecise n (size_of n),
    rw large refl,
  )
]

-- A label has eight units at most before it is put in capitals.
label_text-length :
    (filename content_type fallback : Text) → length (label_text filename content_type fallback) ≤ 8
unfolding label_text
label_text-length filename content_type fallback =
    elim (Bool-cases (not (is_empty (extension filename)) && leb (length (extension filename)) 5)) [
      | inl short ↦
          rw short
            (short_enough (is_empty (extension filename)) (length (extension filename)) short)
      | inr other ↦ rw other (take_at_most _)
    ]
  where
    short_enough : (b : Bool) (n : ℕ) → (not b && leb n 5) ≡ true → n ≤ 8
    short_enough b n h = ground arith

    take_at_most : (t : Text) → length (take 8 t) ≤ 8
    take_at_most t = omega (arith, length-take 8 t)
