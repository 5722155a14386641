-- ===== src/Client/Wait/Rounds.antt =====
-- `waitForEmails` ends, with the emails it was asked for or at its deadline.
use mailpeek.Prelude.{ℕ, ◌≤◌, ◌<◌, ◌≡◌, ◌⊎◌, false, some, List, length}
use mailpeek.Client.Types.{MessageFilter}
use mailpeek.Client.Email.{Email}
use mailpeek.Client.Platform.{Platform, Failure, timed_out, ◌>>=◌, ◌>>◌}
use mailpeek.Client.Requests.{Config}
use mailpeek.Client.Wait.{is_timeout}
use mailpeek.Client.Ensures.{Ensures}

module _ (p : Platform) (c : Config) where
  -- A timeout is raised no earlier than the deadline, and tells how many messages were listed.
  abbrev pub FallsShort : MessageFilter → (count timeout deadline : ℕ) → Failure → p.World → Type 0
  FallsShort f count timeout deadline (timed_out t) w =
      (deadline ≤ p.clock w)
      × (t.filter_given ≡ f)
      × (t.timeout_given ≡ timeout)
      × (listed : ℕ) × (t.progress ≡ some (listed, count))
      × (listed < count)
  FallsShort f count timeout deadline e w = Unit

  abbrev pub IsBatch : (count : ℕ) → List Email → p.World → Type 0
  IsBatch count es w = (length es ≡ count) ⊎ (count ≡ 0)

  abbrev pub IsNoTimeout : Failure → p.World → Type 0
  IsNoTimeout e w = is_timeout e ≡ false
