-- ===== src/Web/Html.antt =====
-- web/src/lib/html.ts: the HTML of a message, made ready for the frame it is shown in.
pub mod References
pub mod Replaced
mod Tests
use mailpeek.Prelude.{
  ℕ, zero, suc, ◌+◌, Bool, not, ◌||◌, Option, none, some, get_or, List, [], ◌∷◌, ◌++◌, ◌==◌,
  if◌then◌else◌, length, take, drop, Text, codes, is_empty, is_space,
}
use mailpeek.Client.Html.{begins}
use mailpeek.Web.Api.{attachment_url}
use mailpeek.Web.Viewer.{lookup}

pub record Attachment : Type 0 where
  pub id : Text
  pub filename : Text
  pub content_type : Text
  pub content_id : Option Text
  pub inline : Bool
  pub size : ℕ

-- `[^"'\s)>]`
abbrev pub is_cid_unit : ℕ → Bool
is_cid_unit c = not (c == b'"' || (c == b'\'' || (is_space c || (c == b')' || c == b'>'))))

-- `[^"'\s)>]*`
abbrev pub cid_run : Text → Text
cid_run [] = []
cid_run (c ∷ s) = let rest = cid_run s in if is_cid_unit c then c ∷ rest else []

abbrev pub non_empty : Text → Option Text
non_empty [] = none
non_empty (c ∷ s) = some (c ∷ s)

-- `/cid:([^"'\s)>]+)/i` at the beginning of the text: its group.
unfoldable pub cid_at : Text → Option Text
cid_at s = if begins (codes "cid:") s then non_empty (cid_run (drop 4 s)) else none

-- `html.replace`, with the match and its group; `skip` units belong to the match before.
abbrev pub replace_cids : (Text → Text → Text) → (skip : ℕ) → Text → Text
replace_cids f skip [] = []
replace_cids f (suc skip) (c ∷ s) = replace_cids f skip s
replace_cids f zero (c ∷ s) = elim (cid_at (c ∷ s)) [
  | none ↦ c ∷ replace_cids f zero s
  | some cid ↦ f (take (length cid + 4) (c ∷ s)) cid ++ replace_cids f (length cid + 3) s
]

-- `encode`, `decode` and `lower` are `encodeURIComponent`, `decodeURIComponent`, which may throw, and
-- `toLowerCase`.
module _ (encode : Text → Text) (decode : Text → Option Text) (lower : Text → Text) where
  abbrev pub url_of : (message_id origin : Text) → Attachment → Text
  url_of message_id origin a = origin ++ attachment_url encode message_id a.id

  -- `a.contentId`, if it is not empty, in small letters.
  abbrev pub key_of : Attachment → Option Text
  key_of a = elim a.content_id [
    | none ↦ none
    | some cid ↦ if is_empty cid then none else some (lower cid)
  ]

  -- `byCid`; a later pair stands before an earlier one of the same key.
  abbrev pub set_key : Option Text → Text → List (Text × Text) → List (Text × Text)
  set_key none url m = m
  set_key (some key) url m = (key, url) ∷ m

  abbrev pub by_cid :
      (message_id origin : Text) → List Attachment → List (Text × Text) → List (Text × Text)
  by_cid message_id origin [] m = m
  by_cid message_id origin (a ∷ rest) m =
      by_cid message_id origin rest (set_key (key_of a) (url_of message_id origin a) m)

  abbrev pub cid_key : Text → Text
  cid_key cid = lower (get_or (decode cid) cid)

  unfoldable pub replacement : List (Text × Text) → (match cid : Text) → Text
  replacement m match cid = get_or (lookup m (cid_key cid)) match

  unfoldable pub prepare_html : (message_id origin : Text) → List Attachment → (html : Text) → Text
  prepare_html message_id origin attachments html =
      codes "<base target=\"_blank\">"
      ++ replace_cids (replacement (by_cid message_id origin attachments [])) 0 html
