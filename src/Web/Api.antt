-- ===== src/Web/Api.antt =====
-- web/src/api.ts: what a call of the API does with its response, and the URLs. The page is told by
-- whether it signs out, its path and its search part, and the locations it was sent to; `encode` is
-- `encodeURIComponent`.
pub mod Calls
pub mod Responses
use mailpeek.Prelude.{
  ℕ, leb, ◌==◌, Bool, true, not, ◌&&◌, ◌||◌, Option, none, some, List, [], ◌∷◌, ◌++◌, any,
  if◌then◌else◌, Text, codes, text_eq,
}

-- A response with what `res.json()` gives, if it is JSON of the kind that is wanted, the error in it,
-- and what `res.text()` gives.
pub record Response (A : Type 0) : Type 0 where
  pub status : ℕ
  pub json : Option A
  pub error : Option Text
  pub plain : Text

pub record Page : Type 0 where
  pub signing_out : Bool
  pub pathname : Text
  pub search : Text
  pub assigned : List Text

-- A call returns, or throws an `ApiError` with its status and its message, or what `res.json()`
-- throws. With no message the error has one of its own, made of the status.
pub data Result (A : Type 0) : Type 0 where
  returned : A → Result A
  api_error : (status : ℕ) → (message : Option Text) → Result A
  bad_json : Result A

abbrev pub is_ok : ℕ → Bool
is_ok status = leb 200 status && leb status 299

abbrev pub base : Text
base = codes "/api/v1"

-- `assign` sends the page elsewhere.
abbrev pub assign : Text → Page → Page
assign url s = record s { assigned = s.assigned ++ (url ∷ []) }

module _ (encode : Text → Text) where
  abbrev pub login_url : Page → Text
  login_url s = codes "/login?next=" ++ encode (s.pathname ++ s.search)

  unfoldable pub call : ℕ → Page → Page
  call status s = if status == 401 && not s.signing_out then assign (login_url s) s else s

  unfoldable pub request : {A : Type 0} → Response A → Page → Result A × Page
  request res s = (
    if is_ok res.status
        then (elim res.json [ none ↦ bad_json | some a ↦ returned a ])
        else api_error res.status res.error,
    call res.status s,
  )

  unfoldable pub get_raw : {A : Type 0} → Response A → Page → Result Text × Page
  get_raw res s = (
    if is_ok res.status then returned res.plain else api_error res.status none,
    call res.status s,
  )

  unfoldable pub delete_message : {A : Type 0} → Response A → Page → Result (Unit {0}) × Page
  delete_message res s = (
    if is_ok res.status || res.status == 404 then returned tt else api_error res.status none,
    call res.status s,
  )

  -- `signOut` before and after its request.
  unfoldable pub sign_out : Page → Page
  sign_out s = assign (codes "/login") (record s { signing_out = true })

  abbrev pub message_url : Text → Text
  message_url id = base ++ (codes "/messages/" ++ encode id)

  abbrev pub raw_url : Text → (download : Bool) → Text
  raw_url id download =
      message_url id ++ (codes "/raw" ++ (if download then codes "?download=1" else []))

  abbrev pub attachment_url : (message_id attachment_id : Text) → Text
  attachment_url message_id attachment_id =
      message_url message_id ++ (codes "/attachments/" ++ encode attachment_id)

  abbrev pub attachment_preview_url : (message_id attachment_id : Text) → Text
  attachment_preview_url message_id attachment_id =
      attachment_url message_id attachment_id ++ codes "?inline=1"

abbrev pub previewable_types : List Text
previewable_types =
    codes "image/png"
    ∷ codes "image/jpeg"
    ∷ codes "image/gif"
    ∷ codes "image/webp"
    ∷ codes "image/avif"
    ∷ codes "image/bmp"
    ∷ []

abbrev pub can_preview : (lower : Text → Text) → (content_type : Text) → Bool
can_preview lower content_type = any (text_eq (lower content_type)) previewable_types
