-- ===== src/I18n/PtPt.antt =====
-- web/src/i18n/locales/pt-PT.ts: the texts in European Portuguese; a text that is not given is that
-- of Brazilian Portuguese.
use mailpeek.Prelude.{Text, codes}
use mailpeek.I18n.PtBr.{pt_br}
use mailpeek.I18n.Keys.{
  MessageKey, app_empty_list, status_live, status_connecting, smtp_login_required,
  smtp_login_required_title, header_search, error_network, error_unauthorized, error_not_found,
  error_http, attachment_file, header_search_label, header_clear_search, header_sound_on,
  header_sign_out, empty_title, empty_configure, empty_configure_sidebar, empty_login, empty_footer,
  view_back, view_download, view_delete, view_hide_details, view_reply_to, view_tabs, tab_links,
  html_fullscreen, html_fullscreen_title, html_close, width_desktop, width_mobile, raw_loading,
  attachments_preview, list_loading_more, attachments_download, links_none, links_open_title,
  resize_title,
}

unfoldable pub pt_pt : MessageKey → Text
pt_pt app_empty_list = codes "Os e-mails recebidos aparecem aqui."
pt_pt status_live = codes "Em direto"
pt_pt status_connecting = codes "A religar"
pt_pt smtp_login_required = codes "Autenticação SMTP obrigatória"
pt_pt smtp_login_required_title =
    codes "Autenticação SMTP obrigatória (definida com MAILPEEK_SMTP_AUTH)"
pt_pt header_search = codes "Pesquisar e-mails..."
pt_pt error_network = codes "não foi possível ligar ao Mailpeek. Ainda está em execução?"
pt_pt error_unauthorized = codes "a sua sessão terminou. Inicie sessão novamente."
pt_pt error_not_found = codes "já não existe (pode ter sido eliminado)."
pt_pt error_http = codes "o pedido foi recusado (HTTP {status})."
pt_pt attachment_file = codes "Ficheiro"
pt_pt header_search_label = codes "Pesquisar e-mails"
pt_pt header_clear_search = codes "Limpar pesquisa"
pt_pt header_sound_on = codes "Som ativo para novos e-mails (clique para silenciar)"
pt_pt header_sign_out = codes "Terminar sessão"
pt_pt empty_title = codes "Ainda não há e-mails"
pt_pt empty_configure = codes "Configure a sua aplicação para enviar e-mails para:"
pt_pt empty_configure_sidebar =
    codes "Configure a sua aplicação para enviar e-mails para o endereço SMTP no fundo da lista."
pt_pt empty_login =
    codes "Autenticação obrigatória: use o utilizador e a palavra-passe definidos em {env}."
pt_pt empty_footer = codes "Capturados localmente. Atualizados de imediato."
pt_pt view_back = codes "Voltar à caixa de entrada"
pt_pt view_download = codes "Transferir .eml"
pt_pt view_delete = codes "Eliminar e-mail"
pt_pt view_hide_details = codes "Ocultar detalhes para aumentar a pré-visualização"
pt_pt view_reply_to = codes "Responder para"
pt_pt view_tabs = codes "Vistas"
pt_pt tab_links = codes "Ligações"
pt_pt html_fullscreen = codes "Pré-visualização em ecrã inteiro"
pt_pt html_fullscreen_title = codes "Ecrã inteiro (Esc para fechar)"
pt_pt html_close = codes "Fechar ecrã inteiro"
pt_pt width_desktop = codes "Largura de computador"
pt_pt width_mobile = codes "Largura de telemóvel (375px)"
pt_pt raw_loading = codes "A carregar…"
pt_pt attachments_preview = codes "Pré-visualização de {name}"
pt_pt list_loading_more = codes "A carregar mais…"
pt_pt attachments_download = codes "Transferir"
pt_pt links_none = codes "Nenhuma ligação encontrada."
pt_pt links_open_title = codes "Abrir num novo separador"
pt_pt resize_title = codes "Arraste para redimensionar · duplo clique para repor"
pt_pt k = pt_br k
