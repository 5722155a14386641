-- ===== src/Storage.antt =====
-- The browser's `localStorage`, which the page's settings are kept in: what `getItem`, `setItem` and
-- `removeItem` do, and that each throws where storage is refused. It is a parameter of the page.
use mailpeek.Prelude.{
  Bool, false, Option, none, some, Text, text_eq, if◌then◌else◌, ◌≡◌, arith, text_eq_refl,
}

pub record Storage : Type 0 where
  pub is_refused : Bool
  pub items : Text → Option Text

-- `getItem` inside a `try`: `none` if it throws, else what is stored, if anything is.
abbrev pub get_item : Storage → Text → Option (Option Text)
get_item s key = if s.is_refused then none else some (s.items key)

abbrev pub put : (Text → Option Text) → Text → Option Text → Text → Option Text
put items key value k = if text_eq k key then value else items k

-- `setItem` and `removeItem`, whose errors are swallowed.
abbrev pub set_item : Text → Text → Storage → Storage
set_item key value s = if s.is_refused then s else record s { items = put s.items key (some value) }

abbrev pub remove_item : Text → Storage → Storage
remove_item key s = if s.is_refused then s else record s { items = put s.items key none }

pub put_same : (items : Text → Option Text) (key : Text) (v : Option Text) → put items key v key ≡ v
put_same items key v = ground (arith, text_eq_refl key)

pub put_other :
    (items : Text → Option Text) (key k : Text) (v : Option Text)
    → text_eq k key ≡ false
    → put items key v k ≡ items k
put_other items key k v h = ground arith

pub get_item-set_item :
    (key v : Text) (s : Storage)
    → s.is_refused ≡ false
    → get_item (set_item key v s) key ≡ some (some v)
get_item-set_item key v s h = ground (arith, text_eq_refl key)

pub get_item-remove_item :
    (key : Text) (s : Storage) → s.is_refused ≡ false → get_item (remove_item key s) key ≡ some none
get_item-remove_item key s h = ground (arith, text_eq_refl key)

pub get_item-set_item_other :
    (k key v : Text) (s : Storage)
    → text_eq k key ≡ false
    → get_item (set_item key v s) k ≡ get_item s k
get_item-set_item_other k key v s h = ground arith

pub get_item-remove_item_other :
    (k key : Text) (s : Storage)
    → text_eq k key ≡ false
    → get_item (remove_item key s) k ≡ get_item s k
get_item-remove_item_other k key s h = ground arith

pub is_refused-set_item :
    (key v : Text) (s : Storage) → (set_item key v s).is_refused ≡ s.is_refused
is_refused-set_item key v s = ground arith

pub is_refused-remove_item :
    (key : Text) (s : Storage) → (remove_item key s).is_refused ≡ s.is_refused
is_refused-remove_item key s = ground arith
