-- ===== src/I18n/PtBr.antt =====
-- web/src/i18n/locales/pt-BR.ts: the texts in Brazilian Portuguese.
use mailpeek.Prelude.{Text, codes}
use mailpeek.I18n.Keys.{
  MessageKey, app_inbox, app_empty_list, app_load_error, app_message_error, error_network,
  error_unauthorized, error_not_found, error_server, error_http, error_unknown, status_live,
  status_connecting, status_offline, status_title, smtp_copy, smtp_login_required,
  smtp_login_required_title, header_search, header_search_label, header_clear_search, header_clear,
  header_confirm_clear, header_clear_inbox, header_sound, header_sound_on, header_sound_off,
  header_list, header_show_list, header_hide_list, header_sign_out, header_language, header_theme,
  header_theme_to_light, header_theme_to_dark, header_badge, address_unknown, attachment_file,
  language_auto, list_new, list_no_subject, list_to, list_none, list_loading_more, list_attachments,
  empty_title, empty_configure, empty_configure_sidebar, empty_login, empty_footer,
  empty_no_results, view_email, view_back, view_download, view_delete, view_details,
  view_show_details, view_hide_details, view_from, view_to, view_cc, view_reply_to, view_received,
  view_tabs, tab_html, tab_text, tab_headers, tab_raw, tab_attachments, tab_links, html_none,
  html_preview, html_frame, html_fullscreen, html_fullscreen_title, html_close, html_close_title,
  width_desktop, width_tablet, width_mobile, text_none, raw_loading, raw_error, copy_copy,
  copy_copied, attachments_none, attachments_download, attachments_open, attachments_preview,
  attachments_inline, links_none, links_no_text, links_copy, links_open_title, links_open,
  resize_label, resize_title,
}

unfoldable pub pt_br : MessageKey → Text
pt_br app_inbox = codes "Caixa de entrada"
pt_br app_empty_list = codes "Os e-mails recebidos vão aparecer aqui."
pt_br app_load_error = codes "Não foi possível carregar os e-mails: {error}"
pt_br app_message_error = codes "Não foi possível carregar o e-mail: {error}"
pt_br error_network = codes "não foi possível conectar ao Mailpeek. Ele ainda está rodando?"
pt_br error_unauthorized = codes "sua sessão terminou. Entre novamente."
pt_br error_not_found = codes "ele não existe mais (pode ter sido excluído)."
pt_br error_server = codes "o servidor falhou (HTTP {status})."
pt_br error_http = codes "a requisição foi recusada (HTTP {status})."
pt_br error_unknown = codes "erro inesperado."
pt_br status_live = codes "Ao vivo"
pt_br status_connecting = codes "Reconectando"
pt_br status_offline = codes "Offline"
pt_br status_title = codes "Atualizações em tempo real"
pt_br smtp_copy = codes "Copiar endereço SMTP"
pt_br smtp_login_required = codes "Login SMTP obrigatório"
pt_br smtp_login_required_title = codes "Login SMTP obrigatório (definido com MAILPEEK_SMTP_AUTH)"
pt_br header_search = codes "Buscar e-mails..."
pt_br header_search_label = codes "Buscar e-mails"
pt_br header_clear_search = codes "Limpar busca"
pt_br header_clear = codes "Limpar"
pt_br header_confirm_clear = codes "Confirmar limpeza"
pt_br header_clear_inbox = codes "Limpar caixa de entrada"
pt_br header_sound = codes "Som de novo e-mail"
pt_br header_sound_on = codes "Som ativado para novos e-mails (clique para silenciar)"
pt_br header_sound_off = codes "Som desativado para novos e-mails"
pt_br header_list = codes "Lista de e-mails"
pt_br header_show_list = codes "Mostrar a lista de e-mails ( [ )"
pt_br header_hide_list = codes "Ocultar a lista de e-mails ( [ )"
pt_br header_sign_out = codes "Sair"
pt_br header_language = codes "Idioma"
pt_br header_theme = codes "Tema escuro"
pt_br header_theme_to_light = codes "Mudar para o tema claro"
pt_br header_theme_to_dark = codes "Mudar para o tema escuro"
pt_br header_badge = codes "Ambiente local"
pt_br address_unknown = codes "(desconhecido)"
pt_br attachment_file = codes "Arquivo"
pt_br language_auto = codes "Automático"
pt_br list_new = codes "Novo"
pt_br list_no_subject = codes "(sem assunto)"
pt_br list_to = codes "Para: {list}"
pt_br list_none = codes "(nenhum)"
pt_br list_loading_more = codes "Carregando mais…"
pt_br list_attachments = codes "Anexos: {count}"
pt_br empty_title = codes "Nenhum e-mail ainda"
pt_br empty_configure = codes "Configure sua aplicação para enviar e-mails para:"
pt_br empty_configure_sidebar =
    codes "Configure sua aplicação para enviar e-mails para o endereço SMTP no rodapé da lista."
pt_br empty_login = codes "Login obrigatório: use o usuário e a senha definidos em {env}."
pt_br empty_footer = codes "Capturados localmente. Atualizados na hora."
pt_br empty_no_results = codes "Nenhum e-mail corresponde a “{query}”"
pt_br view_email = codes "E-mail"
pt_br view_back = codes "Voltar para a caixa de entrada"
pt_br view_download = codes "Baixar .eml"
pt_br view_delete = codes "Excluir e-mail"
pt_br view_details = codes "Detalhes do e-mail"
pt_br view_show_details = codes "Mostrar detalhes (De, Para, data)"
pt_br view_hide_details = codes "Ocultar detalhes para ampliar a visualização"
pt_br view_from = codes "De"
pt_br view_to = codes "Para"
pt_br view_cc = codes "Cc"
pt_br view_reply_to = codes "Responder a"
pt_br view_received = codes "Recebido"
pt_br view_tabs = codes "Visualizações"
pt_br tab_html = codes "HTML"
pt_br tab_text = codes "Texto"
pt_br tab_headers = codes "Cabeçalhos"
pt_br tab_raw = codes "Código-fonte"
pt_br tab_attachments = codes "Anexos"
pt_br tab_links = codes "Links"
pt_br html_none = codes "Este e-mail não tem parte HTML."
pt_br html_preview = codes "Pré-visualização"
pt_br html_frame = codes "Pré-visualização do HTML"
pt_br html_fullscreen = codes "Visualização em tela cheia"
pt_br html_fullscreen_title = codes "Tela cheia (Esc para fechar)"
pt_br html_close = codes "Fechar tela cheia"
pt_br html_close_title = codes "Fechar (Esc)"
pt_br width_desktop = codes "Largura de desktop"
pt_br width_tablet = codes "Largura de tablet (768px)"
pt_br width_mobile = codes "Largura de celular (375px)"
pt_br text_none = codes "Este e-mail não tem parte em texto simples."
pt_br raw_loading = codes "Carregando…"
pt_br raw_error = codes "Não foi possível carregar o código-fonte: {error}"
pt_br copy_copy = codes "Copiar"
pt_br copy_copied = codes "Copiado"
pt_br attachments_none = codes "Sem anexos."
pt_br attachments_download = codes "Baixar"
pt_br attachments_open = codes "Abrir"
pt_br attachments_preview = codes "Prévia de {name}"
pt_br attachments_inline = codes "incorporado"
pt_br links_none = codes "Nenhum link encontrado."
pt_br links_no_text = codes "(sem texto)"
pt_br links_copy = codes "Copiar URL"
pt_br links_open_title = codes "Abrir em nova aba"
pt_br links_open = codes "Abrir {target}"
pt_br resize_label = codes "Redimensionar a lista de e-mails"
pt_br resize_title = codes "Arraste para redimensionar · clique duas vezes para restaurar"
