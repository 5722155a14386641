-- ===== src/Web/Format/Tests.antt =====
-- web/src/lib/format.ts: runs at concrete inputs.
use mailpeek.Prelude.{ℕ, ◌+◌, ◌/◌, ◌≡◌, refl, some, [], ◌∷◌, Text, codes}
use mailpeek.Web.Format.{size_of, format_bytes, address_full, file_type_label, label_text}

-- The digits, and the whole units.
abbrev shown : (digits n divisor : ℕ) → Text
shown digits n divisor = (48 + digits) ∷ (b':' ∷ ((48 + n / divisor) ∷ []))

format_bytes_test : format_bytes (λ n. n ∷ []) shown 3500000 ≡ codes "1:3 MB"
unfolding format_bytes size_of
format_bytes_test = refl

address_full_test :
    address_full (record { name = some (codes "Ann"); address = codes "a@x" }) ≡ codes "Ann <a@x>"
address_full_test = refl

extension_test :
    file_type_label (λ t. t) (codes "a.tar.gz") (codes "x/y") (codes "file") ≡ codes "gz"
unfolding label_text
extension_test = refl

subtype_test :
    file_type_label (λ t. t) (codes "README") (codes "application/x-shellscript") (codes "file")
    ≡ codes "shellscr"
unfolding label_text
subtype_test = refl
