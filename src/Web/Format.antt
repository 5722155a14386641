-- ===== src/Web/Format.antt =====
-- web/src/lib/format.ts: sizes, addresses and types of files. `value` is kept as the fraction that it
-- is, `n` and the power of 1024 it is divided by, which is exact up to 2 ^ 53. The times are the
-- platform's.
pub mod Sizes
mod Tests
use mailpeek.Prelude.{
  ℕ, ◌*◌, not, ◌&&◌, Option, none, some, get_or, List, [], ◌∷◌, ◌++◌, map, ltb, leb, ◌==◌,
  if◌then◌else◌, length, take, drop, Text, codes, join, is_empty, starts_with,
}
use mailpeek.Web.Types.{Address}

pub record Size : Type 0 where
  pub divisor : ℕ
  pub unit : Text

-- The loop, over the units behind the present one.
abbrev pub divide : (n divisor : ℕ) → (unit : Text) → (units : List Text) → Size
divide n divisor unit [] = record { divisor = divisor; unit = unit }
divide n divisor unit (next ∷ units) =
    let rest = divide n (divisor * 1024) next units in
    if leb (divisor * 1024) n then rest else record { divisor = divisor; unit = unit }

unfoldable pub size_of : ℕ → Size
size_of n = divide n 1024 (codes "KB") (codes "MB" ∷ (codes "GB" ∷ []))

abbrev pub digits_of : ℕ → Size → ℕ
digits_of n s = if ltb n (10 * s.divisor) then 1 else 0

-- `show` writes a number, and `format` is `Intl.NumberFormat`: the digits and the fraction.
module _ (show : ℕ → Text) (format : (digits n divisor : ℕ) → Text) where
  unfoldable pub format_bytes : ℕ → Text
  format_bytes n =
      if ltb n 1024
      then show n ++ codes " B"
      else format (digits_of n (size_of n)) n (size_of n).divisor ++ (codes " " ++ (size_of n).unit)

-- `a || b`
abbrev pub or_text : Text → Text → Text
or_text [] b = b
or_text (c ∷ a) b = c ∷ a

abbrev pub name_of : Address → Text
name_of a = get_or a.name []

abbrev pub address_label : Address → (unknown : Text) → Text
address_label a unknown = or_text (name_of a) (or_text a.address unknown)

abbrev pub address_full : Address → Text
address_full a =
    if is_empty (name_of a)
    then a.address
    else name_of a ++ (codes " <" ++ (a.address ++ codes ">"))

abbrev pub address_list : List Address → Text
address_list list = join (codes ", ") (map address_full list)

-- What stands behind the last such unit, or behind the first up to the next, if there is one.
abbrev pub after_last : ℕ → Text → Option Text
after_last d [] = none
after_last d (c ∷ s) = elim (after_last d s) [
  | some t ↦ some t
  | none ↦ if c == d then some s else none
]

abbrev pub up_to : ℕ → Text → Text
up_to d [] = []
up_to d (c ∷ s) = let rest = up_to d s in if c == d then [] else c ∷ rest

abbrev pub second_part : ℕ → Text → Option Text
second_part d [] = none
second_part d (c ∷ s) = let rest = second_part d s in if c == d then some (up_to d s) else rest

-- `replace(/^x-/, "")`
abbrev pub without_x : Text → Text
without_x t = if starts_with t (codes "x-") then drop 2 t else t

abbrev pub extension : Text → Text
extension filename = get_or (after_last b'.' filename) []

-- The label before `toUpperCase`.
unfoldable pub label_text : (filename content_type fallback : Text) → Text
label_text filename content_type fallback =
    if not (is_empty (extension filename)) && leb (length (extension filename)) 5
    then extension filename
    else take 8 (without_x (get_or (second_part b'/' content_type) fallback))

abbrev pub file_type_label : (upper : Text → Text) → (filename content_type fallback : Text) → Text
file_type_label upper filename content_type fallback =
    upper (label_text filename content_type fallback)
