-- ===== src/Web/ServerInfo.antt =====
-- web/src/hooks/useServerInfo.ts: what the page knows of the server. `show` writes a number.
pub mod First
use mailpeek.Prelude.{
  ℕ, ◌==◌, Bool, true, false, Option, none, some, List, [], ◌∷◌, ◌++◌, if◌then◌else◌, Text, codes,
  is_empty,
}

pub record Info : Type 0 where
  pub version : Text
  pub smtp_port : ℕ
  pub http_port : ℕ
  pub max_messages : ℕ
  pub max_message_size : ℕ
  pub smtp_auth : Bool
  pub ui_auth : Bool

-- What the hook keeps of it.
pub record Kept : Type 0 where
  pub port : ℕ
  pub smtp_auth : Bool
  pub ui_auth : Bool

pub record Known : Type 0 where
  pub kept : Kept
  pub is_cancelled : Bool
  pub is_settled : Bool

-- The request ends with the information or in an error; or the component goes.
pub data Event : Type 0 where
  ended : Option Info → Event
  unmounted : Event

abbrev pub assumed : Kept
assumed = record { port = 1026; smtp_auth = false; ui_auth = false }

abbrev pub mounted : Known
mounted = record { kept = assumed; is_cancelled = false; is_settled = false }

abbrev pub kept_of : Info → Kept
kept_of i = record { port = i.smtp_port; smtp_auth = i.smtp_auth; ui_auth = i.ui_auth }

abbrev pub keep : Option Info → Known → Known
keep none k = k
keep (some i) k = if k.is_cancelled then k else record k { kept = kept_of i }

unfoldable pub step : Known → Event → Known
step k (ended o) = if k.is_settled then k else keep o (record k { is_settled = true })
step k unmounted = record k { is_cancelled = true }

abbrev pub run : Known → List Event → Known
run k [] = k
run k (e ∷ es) = run (step k e) es

abbrev pub smtp_address : (show : ℕ → Text) → (hostname : Text) → Known → Text
smtp_address show hostname k =
    (if is_empty hostname then codes "localhost" else hostname) ++ (codes ":" ++ show k.kept.port)
