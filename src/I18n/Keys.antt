-- ===== src/I18n/Keys.antt =====
-- web/src/i18n/locales/en-US.ts: `MessageKey`, the keys of the English dictionary. A dot or a capital of
-- the source is `_` here: `app.emptyList` is `app_empty_list`.
pub data MessageKey : Type 0 where
  app_inbox app_empty_list app_load_error app_message_error error_network error_unauthorized
        error_not_found error_server error_http error_unknown status_live status_connecting
        status_offline status_title smtp_copy smtp_login_required smtp_login_required_title
        header_search header_search_label header_clear_search header_clear header_confirm_clear
        header_clear_inbox header_sound header_sound_on header_sound_off header_list
        header_show_list header_hide_list header_sign_out header_language header_theme
        header_theme_to_light header_theme_to_dark header_badge address_unknown attachment_file
        language_auto list_new list_no_subject list_to list_none list_loading_more list_attachments
        empty_title empty_configure empty_configure_sidebar empty_login empty_footer
        empty_no_results view_email view_back view_download view_delete view_details
        view_show_details view_hide_details view_from view_to view_cc view_reply_to view_received
        view_tabs tab_html tab_text tab_headers tab_raw tab_attachments tab_links html_none
        html_preview html_frame html_fullscreen html_fullscreen_title html_close html_close_title
        width_desktop width_tablet width_mobile text_none raw_loading raw_error copy_copy
        copy_copied attachments_none attachments_download attachments_open attachments_preview
        attachments_inline links_none links_no_text links_copy links_open_title links_open
        resize_label resize_title :
      MessageKey
