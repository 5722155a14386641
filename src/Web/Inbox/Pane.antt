-- ===== src/Web/Inbox/Pane.antt =====
-- web/src/hooks/useInboxState.ts: what the pane shows.
use mailpeek.Prelude.{◌⊎◌, Memᴰ, ◌≡◌, true, none, some, [], any, Text}
use mailpeek.Web.Types.{Problem}
use mailpeek.Web.Selection.{has_id}
use mailpeek.Web.Viewer.{Viewer, got, failed, view}
use mailpeek.Web.Inbox.{Page, PaneContent, empty_inbox, message, error, nothing, messages, selected}

module _ {A : Type 0} where
  -- Where a message of the id comes from: the cache or the last reply, each for this id.
  abbrev pub IsFrom : Viewer A → Text → A → Type 0
  IsFrom v id a = Memᴰ (id, a) v.cache ⊎ (v.state ≡ got id a)

  -- What each content of the pane says of the page.
  pub Shows : PaneContent → Page A → Type 0
  Shows empty_inbox p = (messages p ≡ []) × (p.store.state.loaded ≡ true) × (p.store.query ≡ [])
  Shows message p =
      (id : Text) × (a : A) × (selected p ≡ some id)
      × (any (has_id id) (messages p) ≡ true)
      × IsFrom p.viewer id a
      × ((view p.viewer).message ≡ some a)
  Shows error p =
      (id : Text) × (problem : Problem) × (selected p ≡ some id)
      × (p.viewer.state ≡ failed id problem)
      × ((view p.viewer).error ≡ some problem)
      × ((view p.viewer).message ≡ none)
  Shows nothing p = ((view p.viewer).message ≡ none) × ((view p.viewer).error ≡ none)
