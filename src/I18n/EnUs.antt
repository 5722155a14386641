-- ===== src/I18n/EnUs.antt =====
-- web/src/i18n/locales/en-US.ts: the texts in English, which stand for American and British English.
use mailpeek.Prelude.{Text, codes}
use mailpeek.I18n.Keys.{
  MessageKey, app_inbox, app_empty_list, app_load_error, app_message_error, error_network,
  error_unauthorized, error_not_found, error_server, error_http, error_unknown, status_live,
  status_connecting, status_offline, status_title, smtp_copy, smtp_login_required,
  smtp_login_required_title, header_search, header_search_label, header_clear_search, header_clear,
  header_confirm_clear, header_clear_inbox, header_sound, header_sound_on, header_sound_off,
  header_list, header_show_list, header_hide_list, header_sign_out, header_language, header_theme,
  header_theme_to_light, header_theme_to_dark, header_badge, address_unknown, attachment_file,
  language_auto, list_new, list_no_subject, list_to, list_none, list_loading_more, list_attachments,
  empty_title, empty_configure, empty_configure_sidebar, empty_login, empty_footer,
  empty_no_results, view_email, view_back, view_download, view_delete, view_details,
  view_show_details, view_hide_details, view_from, view_to, view_cc, view_reply_to, view_received,
  view_tabs, tab_html, tab_text, tab_headers, tab_raw, tab_attachments, tab_links, html_none,
  html_preview, html_frame, html_fullscreen, html_fullscreen_title, html_close, html_close_title,
  width_desktop, width_tablet, width_mobile, text_none, raw_loading, raw_error, copy_copy,
  copy_copied, attachments_none, attachments_download, attachments_open, attachments_preview,
  attachments_inline, links_none, links_no_text, links_copy, links_open_title, links_open,
  resize_label, resize_title,
}

unfoldable pub en_us : MessageKey → Text
en_us app_inbox = codes "Inbox"
en_us app_empty_list = codes "Your incoming emails will appear here."
en_us app_load_error = codes "Could not load emails: {error}"
en_us app_message_error = codes "Could not load email: {error}"
en_us error_network = codes "Mailpeek can't be reached. Is it still running?"
en_us error_unauthorized = codes "your session has ended. Sign in again."
en_us error_not_found = codes "it no longer exists (it may have been deleted)."
en_us error_server = codes "the server failed (HTTP {status})."
en_us error_http = codes "the request was refused (HTTP {status})."
en_us error_unknown = codes "unexpected error."
en_us status_live = codes "Live"
en_us status_connecting = codes "Reconnecting"
en_us status_offline = codes "Offline"
en_us status_title = codes "Realtime updates"
en_us smtp_copy = codes "Copy SMTP address"
en_us smtp_login_required = codes "SMTP login required"
en_us smtp_login_required_title = codes "SMTP login required (set with MAILPEEK_SMTP_AUTH)"
en_us header_search = codes "Search emails..."
en_us header_search_label = codes "Search emails"
en_us header_clear_search = codes "Clear search"
en_us header_clear = codes "Clear"
en_us header_confirm_clear = codes "Confirm clear"
en_us header_clear_inbox = codes "Clear inbox"
en_us header_sound = codes "New email sound"
en_us header_sound_on = codes "Sound on for new email (click to mute)"
en_us header_sound_off = codes "Sound off for new email"
en_us header_list = codes "Email list"
en_us header_show_list = codes "Show the email list ( [ )"
en_us header_hide_list = codes "Hide the email list ( [ )"
en_us header_sign_out = codes "Sign out"
en_us header_language = codes "Language"
en_us header_theme = codes "Dark theme"
en_us header_theme_to_light = codes "Switch to the light theme"
en_us header_theme_to_dark = codes "Switch to the dark theme"
en_us header_badge = codes "Local workspace"
en_us address_unknown = codes "(unknown)"
en_us attachment_file = codes "File"
en_us language_auto = codes "Automatic"
en_us list_new = codes "New"
en_us list_no_subject = codes "(no subject)"
en_us list_to = codes "To: {list}"
en_us list_none = codes "(none)"
en_us list_loading_more = codes "Loading more…"
en_us list_attachments = codes "Attachments: {count}"
en_us empty_title = codes "No emails yet"
en_us empty_configure = codes "Configure your application to send emails to:"
en_us empty_configure_sidebar =
    codes "Configure your application to send emails to the SMTP address at the bottom of the list."
en_us empty_login = codes "Login required: use the username and password set with {env}."
en_us empty_footer = codes "Captured locally. Updated instantly."
en_us empty_no_results = codes "No emails match “{query}”"
en_us view_email = codes "Email"
en_us view_back = codes "Back to inbox"
en_us view_download = codes "Download .eml"
en_us view_delete = codes "Delete email"
en_us view_details = codes "Email details"
en_us view_show_details = codes "Show details (From, To, date)"
en_us view_hide_details = codes "Hide details for a larger preview"
en_us view_from = codes "From"
en_us view_to = codes "To"
en_us view_cc = codes "Cc"
en_us view_reply_to = codes "Reply-To"
en_us view_received = codes "Received"
en_us view_tabs = codes "Views"
en_us tab_html = codes "HTML"
en_us tab_text = codes "Text"
en_us tab_headers = codes "Headers"
en_us tab_raw = codes "Raw"
en_us tab_attachments = codes "Attachments"
en_us tab_links = codes "Links"
en_us html_none = codes "This email has no HTML part."
en_us html_preview = codes "Preview"
en_us html_frame = codes "HTML preview"
en_us html_fullscreen = codes "Full screen preview"
en_us html_fullscreen_title = codes "Full screen (Esc to close)"
en_us html_close = codes "Close full screen"
en_us html_close_title = codes "Close (Esc)"
en_us width_desktop = codes "Desktop width"
en_us width_tablet = codes "Tablet width (768px)"
en_us width_mobile = codes "Mobile width (375px)"
en_us text_none = codes "This email has no plain text part."
en_us raw_loading = codes "Loading…"
en_us raw_error = codes "Could not load raw source: {error}"
en_us copy_copy = codes "Copy"
en_us copy_copied = codes "Copied"
en_us attachments_none = codes "No attachments."
en_us attachments_download = codes "Download"
en_us attachments_open = codes "Open"
en_us attachments_preview = codes "Preview of {name}"
en_us attachments_inline = codes "inline"
en_us links_none = codes "No links found."
en_us links_no_text = codes "(no text)"
en_us links_copy = codes "Copy URL"
en_us links_open_title = codes "Open in new tab"
en_us links_open = codes "Open {target}"
en_us resize_label = codes "Resize email list"
en_us resize_title = codes "Drag to resize · double-click to reset"
