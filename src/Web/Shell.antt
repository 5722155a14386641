-- ===== src/Web/Shell.antt =====
-- web/src/hooks/useLayoutState.ts and useKeyboardShortcuts.ts, over the page of Web.Inbox: which of its
-- parts are shown, and the keys. The storage of the two toggles is in Web.Settings, the width in
-- Web.Layout. `e.key` is never the name of a property that every object has.
pub mod Moves
pub mod Walk
mod Tests
use mailpeek.Prelude.{
  Bool, true, false, not, ◌&&◌, ◌||◌, Option, none, some, List, [], ◌∷◌, map, if◌then◌else◌, Text,
  codes, text_eq,
}
use mailpeek.Web.Types.{MessageSummary}
use mailpeek.Web.Selection.{Delta, down, up, move, non_empty}
use mailpeek.Web.Controls.{Tab, html_tab}
use mailpeek.Web.Inbox as InboxState
use mailpeek.Web.Inbox.{
  Page, chosen, removal, messages, selected, handle, commit, is_empty_inbox, is_none_listed,
}

-- `ignored` tells whether the target of the key stands in one of `ignoredTargets`.
pub record Press : Type 0 where
  pub key : Text
  pub meta_key : Bool
  pub ctrl_key : Bool
  pub alt_key : Bool
  pub ignored : Bool

pub data Action : Type 0 where
  moves : Delta → Action
  focus_search toggle_list removes : Action

pub record Shell (A : Type 0) : Type 0 where
  pub page : Page A
  pub tab : Tab
  pub show_detail : Bool
  pub list_hidden : Bool
  pub details_collapsed : Bool
  pub search_focused : Bool

pub data Event (A : Type 0) : Type 0 where
  inbox_event : InboxState.Event A → Event A
  pressed : Press → Event A
  opened : Text → Event A
  went_back : Event A
  tab_chosen : Tab → Event A
  list_toggled : Event A
  details_toggled : Event A
  search_left : Event A

abbrev pub action_of : Text → Option Action
action_of key =
    if text_eq key (codes "j") || text_eq key (codes "ArrowDown")
    then some (moves down)
    else if text_eq key (codes "k") || text_eq key (codes "ArrowUp")
    then some (moves up)
    else if text_eq key (codes "/")
    then some focus_search
    else if text_eq key (codes "[")
    then some toggle_list
    else if text_eq key (codes "Delete")
    then some removes
    else none

-- The action that `onKey` takes.
abbrev pub pressed_action : Press → Option Action
pressed_action p =
    if p.meta_key || p.ctrl_key || p.alt_key || p.ignored then none else action_of p.key

abbrev pub ids_of : List MessageSummary → List Text
ids_of ms = map (λ (m : MessageSummary). m.id) ms

module _ {A : Type 0} where
  abbrev pub has_messages : Shell A → Bool
  has_messages s = not (is_none_listed (messages s.page))

  unfoldable pub follow : InboxState.Event A → Shell A → Shell A
  follow e s = record s { page = commit (handle e s.page) }

  unfoldable pub open_message : Text → Shell A → Shell A
  open_message id s = record (follow (chosen (some id)) s) { show_detail = true }

  -- `if (id) open(id)` and `selectedId && remove(selectedId)`
  abbrev pub open_some : Option Text → Shell A → Shell A
  open_some none s = s
  open_some (some id) s = open_message id s

  abbrev pub remove_some : Option Text → Shell A → Shell A
  remove_some none s = s
  remove_some (some id) s = follow (removal id) s

  unfoldable pub act : Option Action → Shell A → Shell A
  act none s = s
  act (some (moves delta)) s = open_some (move (ids_of (messages s.page)) (selected s.page) delta) s
  act (some focus_search) s = record s { search_focused = true }
  act (some toggle_list) s = record s { list_hidden = not s.list_hidden }
  act (some removes) s = remove_some (non_empty (selected s.page)) s

  unfoldable pub step : Shell A → Event A → Shell A
  step s (inbox_event e) = follow e s
  step s (pressed p) = act (pressed_action p) s
  step s (opened id) = open_message id s
  step s went_back = record s { show_detail = false }
  step s (tab_chosen tab) = record s { tab = tab }
  step s list_toggled = act (some toggle_list) s
  step s details_toggled = record s { details_collapsed = not s.details_collapsed }
  step s search_left = record s { search_focused = false }

  abbrev pub run : Shell A → List (Event A) → Shell A
  run s [] = s
  run s (e ∷ es) = run (step s e) es

  abbrev pub started : (query : Text) → (list_hidden details_collapsed : Bool) → Shell A
  started query list_hidden details_collapsed = record {
    page = InboxState.opened query;
    tab = html_tab;
    show_detail = false;
    list_hidden = list_hidden;
    details_collapsed = details_collapsed;
    search_focused = false;
  }

  abbrev pub list_hidden_on_phone : Shell A → Bool
  list_hidden_on_phone s = (s.show_detail && has_messages s) || is_empty_inbox s.page

  abbrev pub pane_hidden_on_phone : Shell A → Bool
  pane_hidden_on_phone s = not s.show_detail && has_messages s

  abbrev pub show_resize_handle : Shell A → Bool
  show_resize_handle s = not s.list_hidden && not (is_empty_inbox s.page)
