-- ===== src/Client/Setup/Header.antt =====
-- packages/client/src/client.ts: the credentials and the address that the constructor keeps.
use mailpeek.Prelude.{
  ◌≢◌, ℕ, zero, suc, ◌≡◌, Bool, false, Option, none, some, List, [], ◌∷◌, ◌++◌, ◌==◌, if◌then◌else◌,
  Text, codes, text_eq,
}
use mailpeek.Client.Setup.{Credentials, Url, Encodings, login}
use mailpeek.Client.Setup.Base64.{unbase64}

-- The bytes of a header of the scheme Basic (RFC 7617).
abbrev pub basic_bytes : Text → Option (List ℕ)
basic_bytes (a ∷ (b ∷ (c ∷ (d ∷ (e ∷ (f ∷ s)))))) =
    if text_eq (a ∷ b ∷ c ∷ d ∷ e ∷ f ∷ []) (codes "Basic ") then unbase64 s else none
basic_bytes _ = none

-- The text with as many slashes behind it.
abbrev pub slashed : Text → ℕ → Text
slashed s zero = s
slashed s (suc n) = slashed s n ++ codes "/"

abbrev pub ends_slash : Text → Bool
ends_slash [] = false
ends_slash (c ∷ []) = c == b'/'
ends_slash (c ∷ (d ∷ s)) = ends_slash (d ∷ s)

module _ (x : Encodings) where
  -- A header that carries the credentials, or none.
  pub Carries : Option Credentials → Option Text → Type 0
  Carries none h = h ≡ none
  Carries (some c) none = ⊥
  Carries (some c) (some h) = basic_bytes h ≡ some (x.utf8 (login x c))

  -- The credentials to use: those of the options, or else, decoded, those of the URL if it has a user.
  pub data IsLogin : Option Credentials → Url → Option Credentials → Type 0 where
    of_options : (c : Credentials) (url : Url) → IsLogin (some c) url (some c)
    of_url :
        (url : Url) (u v : Text)
        → url.username ≢ []
        → x.decode_uri url.username ≡ some u
        → x.decode_uri url.password ≡ some v
        → IsLogin none url (some (record { username = u; password = v }))
    anonymous : (url : Url) → url.username ≡ [] → IsLogin none url none
