-- ===== src/Client/Platform.antt =====
-- What the client calls and does not implement: the clock, `fetch`, and the program's own view of a
-- reply. A method of the client reads and changes the world of a platform, may raise a failure, and
-- runs out of fuel where a loop of it is given too little.
use mailpeek.Prelude.{ℕ, Bool, Option, List, Text}
use mailpeek.Client.Types.{MessageSummary, MessageData, MessageFilter, FailureOptions, SmtpFailure}
use mailpeek.Client.Diagnose.{Reason}

pub data Method : Type 0 where
  get_method post_method delete_method : Method

-- A request to the path below `/api/v1`, with the pairs that `URLSearchParams` holds.
pub record Request : Type 0 where
  pub method : Method
  pub path : Text
  pub params : List (Text × Text)
  pub payload : Option FailureOptions
  pub timeout : ℕ

-- The body of a reply, as `res.json()` and `res.text()` give it to the method that asked.
pub data Body : Type 0 where
  message : MessageData → Body
  summaries : List MessageSummary → Body
  deleted : ℕ → Body
  evicted : ℕ → Body
  failure : SmtpFailure → Body
  failures : List SmtpFailure → Body
  health : Text → Body
  plain : Text → Body
  content : List ℕ → Body
  error_text : Text → Body
  not_json : Body

pub record Response : Type 0 where
  pub status : ℕ
  pub body : Body

-- `fetch` resolves with a response or rejects; then the two signals tell why.
pub data Reply : Type 0 where
  response : Response → Reply
  rejected : (user_aborted timer_aborted : Bool) → Text → Reply

pub record Diagnostics : Type 0 where
  pub recent : List (MessageSummary × List Reason)
  pub total : ℕ
  pub evicted_count : ℕ
  pub inspect_url : Text

pub record TimeoutError : Type 0 where
  pub filter_given : MessageFilter
  pub timeout_given : ℕ
  pub diagnostics : Option Diagnostics
  pub progress : Option (ℕ × ℕ)

pub data Failure : Type 0 where
  aborted : Failure
  no_answer : Request → Failure
  unreachable : Text → Failure
  login_required : Failure
  http_failure : Request → (status : ℕ) → Option Text → Failure
  bad_body : Failure
  invalid_date : Failure
  timed_out : TimeoutError → Failure

pub record Platform : Type 1 where
  pub World : Type 0
  pub clock : World → ℕ
  pub now : World → ℕ × World
  pub fetch : Request → World → Reply × World
  pub signal_aborted : World → Bool
  -- `String.prototype.toLowerCase`, `Date.parse`, `Date.prototype.toISOString`, `encodeURIComponent`
  -- and the printing of a number.
  pub lower : Text → Text
  pub parse_date : Text → Option ℕ
  pub iso : ℕ → Text
  pub encode : Text → Text
  pub show_number : ℕ → Text

pub data Outcome {ℓ κ} (W : Type ℓ) (A : Type κ) : Type (ℓ ⊔ κ) where
  done : A → W → Outcome W A
  raised : Failure → W → Outcome W A
  out_of_fuel : Outcome W A

abbrev pub M {κ} : Type 0 → Type κ → Type κ
M W A = W → Outcome W A

infixl 5 ◌>>=◌ ◌>>◌
abbrev pub ◌>>=◌ {ℓ κ} : {W : Type 0} {A : Type ℓ} {B : Type κ} → M W A → (A → M W B) → M W B
◌>>=◌ m k w = elim (m w) [
  | done a w' ↦ k a w'
  | raised e w' ↦ raised e w'
  | out_of_fuel ↦ out_of_fuel
]

abbrev pub ◌>>◌ {ℓ κ} : {W : Type 0} {A : Type ℓ} {B : Type κ} → M W A → M W B → M W B
m >> k = m >>= λ _. k

abbrev pub pure {ℓ} : {W : Type 0} {A : Type ℓ} → A → M W A
pure a w = done a w

abbrev pub throw {ℓ} : {W : Type 0} {A : Type ℓ} → Failure → M W A
throw e w = raised e w

-- `try { m } catch (e) { handler(e) }`
abbrev pub catch {ℓ} : {W : Type 0} {A : Type ℓ} → M W A → (Failure → M W A) → M W A
catch m handler w = elim (m w) [
  | done a w' ↦ done a w'
  | raised e w' ↦ handler e w'
  | out_of_fuel ↦ out_of_fuel
]

-- `Promise.all([m, n])`, the one after the other: both run, and the first failure of the two is raised.
abbrev pub both {ℓ κ} : {W : Type 0} {A : Type ℓ} {B : Type κ} → M W A → M W B → M W (A × B)
both m n w = elim (m w) [
  | done a w' ↦ elim (n w') [
    | done b w'' ↦ done (a, b) w''
    | raised e w'' ↦ raised e w''
    | out_of_fuel ↦ out_of_fuel
  ]
  | raised e w' ↦ elim (n w') [
    | done b w'' ↦ raised e w''
    | raised e' w'' ↦ raised e w''
    | out_of_fuel ↦ out_of_fuel
  ]
  | out_of_fuel ↦ out_of_fuel
]
