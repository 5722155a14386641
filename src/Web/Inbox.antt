-- ===== src/Web/Inbox.antt =====
-- web/src/hooks/useInboxState.ts: the hooks of the page over one another. A step is what happens to one
-- hook (a call of the page, a timer, a reply, an event of the server) and the render that follows, which
-- hands the ids on: the selection is brought in line with the messages, and the open message with the
-- selection. The pruning of the message cache is a step of its own, which React takes when the messages
-- change. The sound is left out.
pub mod Coherent
pub mod Pane
mod Tests
use mailpeek.Prelude.{
  ℕ, Bool, true, false, not, ◌&&◌, Option, none, some, List, [], ◌∷◌, map, if◌then◌else◌, Text,
  is_empty,
}
use mailpeek.Web.Types.{MessageSummary}
use mailpeek.Web.Live.{MailpeekEvent}
use mailpeek.Web.Messages.{Store, refresh}
use mailpeek.Web.Messages as MessagesHook
use mailpeek.Web.Selection.{
  Selection, selected_id, same_id, select, render, arrive, unread_ids, remove,
}
use mailpeek.Web.Viewer.{Viewer, view, change_id, finish}
use mailpeek.Web.Viewer as ViewerHook

pub data ListContent : Type 0 where
  listed no_results placeholder : ListContent

pub data PaneContent : Type 0 where
  empty_inbox message error nothing : PaneContent

abbrev pub list_content : (has_messages loaded : Bool) → (search : Text) → ListContent
list_content has_messages loaded search =
    if has_messages
    then listed
    else if loaded && not (is_empty search)
    then no_results
    else placeholder

abbrev pub pane_content : (is_empty_inbox has_message has_error : Bool) → PaneContent
pane_content is_empty_inbox has_message has_error =
    if is_empty_inbox
    then empty_inbox
    else if has_message
    then message
    else if has_error
    then error
    else nothing

pub record Page (A : Type 0) : Type 0 where
  pub store : Store
  pub selection : Selection
  pub arrived : List Text
  pub viewer : Viewer A

-- `removed` and `cleared` come when the request has ended, whether it succeeded or not.
pub data Event (A : Type 0) : Type 0 where
  server_event : MailpeekEvent → Option Text → Event A
  list_event : MessagesHook.Event → Event A
  chosen : Option Text → Event A
  removal : Text → Event A
  removed : Event A
  cleared : Event A
  answered : (request : ℕ) → ViewerHook.Reply A → Event A
  pruning : Event A

abbrev pub has_some {ℓ} : {A : Type ℓ} → Option A → Bool
has_some none = false
has_some (some a) = true

abbrev pub is_none_listed : List MessageSummary → Bool
is_none_listed [] = true
is_none_listed (m ∷ ms) = false

module _ {A : Type 0} where
  abbrev pub messages : Page A → List MessageSummary
  messages p = p.store.state.messages

  abbrev pub selected : Page A → Option Text
  selected p = selected_id (messages p) p.selection.chosen

  unfoldable pub handle : Event A → Page A → Page A
  handle (server_event type id) p = record p {
    store = refresh p.store;
    arrived = arrive p.arrived type id;
  }
  handle (list_event e) p = record p { store = MessagesHook.step p.store e }
  handle (chosen id) p = record p { selection = select id p.selection }
  handle (removal id) p = record p { selection = remove (messages p) id p.selection }
  handle removed p = record p { store = refresh p.store }
  handle cleared p = record p { store = refresh p.store }
  handle (answered i reply) p = record p { viewer = finish i reply p.viewer }
  handle pruning p = record p {
    viewer =
        ViewerHook.step p.viewer
          (ViewerHook.pruned (map (λ (m : MessageSummary). m.id) (messages p)));
  }

  -- `useMessage(selectedId)`, whose effect runs if the id is another one.
  abbrev pub follow : Option Text → Viewer A → Viewer A
  follow id v = if same_id id v.id then v else change_id id v

  abbrev pub choose : Page A → Page A
  choose p = record p { selection = render (messages p) p.store.state.loaded p.selection }

  unfoldable pub commit : Page A → Page A
  commit p = record (choose p) { viewer = follow (selected (choose p)) p.viewer }

  abbrev pub run : Page A → List (Event A) → Page A
  run p [] = p
  run p (e ∷ es) = run (commit (handle e p)) es

  abbrev pub opened : (query : Text) → Page A
  opened query = record {
    store = MessagesHook.step (MessagesHook.initial query) (MessagesHook.query_changed query);
    selection = record { chosen = none; seen = [] };
    arrived = [];
    viewer = ViewerHook.initial;
  }

  -- What the hook returns for the page to show.
  abbrev pub unread : Page A → List Text
  unread p = unread_ids p.arrived p.selection.seen (selected p)

  abbrev pub is_empty_inbox : Page A → Bool
  is_empty_inbox p = p.store.state.loaded && is_none_listed (messages p) && is_empty p.store.query

  abbrev pub list_shown : Page A → ListContent
  list_shown p = list_content (not (is_none_listed (messages p))) p.store.state.loaded p.store.query

  unfoldable pub pane_shown : Page A → PaneContent
  pane_shown p =
      let shown = view p.viewer in
      pane_content (is_empty_inbox p) (has_some shown.message) (has_some shown.error)
