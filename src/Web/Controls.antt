-- ===== src/Web/Controls.antt =====
-- web/src/hooks/useConfirmAction.ts and web/src/lib/tabs.ts: an action that is confirmed by a second
-- trigger, and the tab that a message is shown in.
pub mod Behaviour
use mailpeek.I18n.Keys.{
  MessageKey, tab_html, tab_text, tab_headers, tab_raw, tab_attachments, tab_links,
}
use mailpeek.Prelude.{
  ℕ, ◌+◌, Bool, true, false, Option, none, some, List, [], ◌∷◌, if◌then◌else◌, Text, is_empty,
}

-- `runs` counts the calls of `action`.
pub record Confirm : Type 0 where
  pub armed : Bool
  pub has_timer : Bool
  pub runs : ℕ

pub data ConfirmEvent : Type 0 where
  triggered time_over : ConfirmEvent

unfoldable pub confirm_step : Confirm → ConfirmEvent → Confirm
confirm_step c triggered =
    if c.armed
    then record { armed = false; has_timer = false; runs = c.runs + 1 }
    else record { armed = true; has_timer = true; runs = c.runs }
confirm_step c time_over = if c.has_timer then record c { armed = false; has_timer = false } else c

abbrev pub confirm_run : Confirm → List ConfirmEvent → Confirm
confirm_run c [] = c
confirm_run c (e ∷ es) = confirm_run (confirm_step c e) es

abbrev pub unarmed : Confirm
unarmed = record { armed = false; has_timer = false; runs = 0 }

pub data Tab : Type 0 where
  html_tab text_tab headers_tab raw_tab attachments_tab links_tab : Tab

unfoldable pub effective_tab : Tab → (html text : Text) → Tab
effective_tab html_tab html text =
    if is_empty html then (if is_empty text then html_tab else text_tab) else html_tab
effective_tab text_tab html text =
    if is_empty text then (if is_empty html then text_tab else html_tab) else text_tab
effective_tab headers_tab html text = headers_tab
effective_tab raw_tab html text = raw_tab
effective_tab attachments_tab html text = attachments_tab
effective_tab links_tab html text = links_tab

pub record TabInfo : Type 0 where
  pub id : Tab
  pub label : MessageKey
  pub count : Option ℕ

-- The tabs of a message with so many attachments and links.
abbrev pub message_tabs : (attachments links : ℕ) → List TabInfo
message_tabs attachments links =
    record { id = html_tab; label = tab_html; count = none }
    ∷ record { id = text_tab; label = tab_text; count = none }
    ∷ record { id = headers_tab; label = tab_headers; count = none }
    ∷ record { id = raw_tab; label = tab_raw; count = none }
    ∷ record { id = attachments_tab; label = tab_attachments; count = some attachments }
    ∷ record { id = links_tab; label = tab_links; count = some links }
    ∷ []
