-- ===== src/I18n/EsEs.antt =====
-- web/src/i18n/locales/es-ES.ts: the texts in Spanish.
use mailpeek.Prelude.{Text, codes}
use mailpeek.I18n.Keys.{
  MessageKey, app_inbox, app_empty_list, app_load_error, app_message_error, error_network,
  error_unauthorized, error_not_found, error_server, error_http, error_unknown, status_live,
  status_connecting, status_offline, status_title, smtp_copy, smtp_login_required,
  smtp_login_required_title, header_search, header_search_label, header_clear_search, header_clear,
  header_confirm_clear, header_clear_inbox, header_sound, header_sound_on, header_sound_off,
  header_list, header_show_list, header_hide_list, header_sign_out, header_language, header_theme,
  header_theme_to_light, header_theme_to_dark, header_badge, address_unknown, attachment_file,
  language_auto, list_new, list_no_subject, list_to, list_none, list_loading_more, list_attachments,
  empty_title, empty_configure, empty_configure_sidebar, empty_login, empty_footer,
  empty_no_results, view_email, view_back, view_download, view_delete, view_details,
  view_show_details, view_hide_details, view_from, view_to, view_cc, view_reply_to, view_received,
  view_tabs, tab_html, tab_text, tab_headers, tab_raw, tab_attachments, tab_links, html_none,
  html_preview, html_frame, html_fullscreen, html_fullscreen_title, html_close, html_close_title,
  width_desktop, width_tablet, width_mobile, text_none, raw_loading, raw_error, copy_copy,
  copy_copied, attachments_none, attachments_download, attachments_open, attachments_preview,
  attachments_inline, links_none, links_no_text, links_copy, links_open_title, links_open,
  resize_label, resize_title,
}

unfoldable pub es_es : MessageKey → Text
es_es app_inbox = codes "Bandeja de entrada"
es_es app_empty_list = codes "Los correos recibidos aparecerán aquí."
es_es app_load_error = codes "No se pudieron cargar los correos: {error}"
es_es app_message_error = codes "No se pudo cargar el correo: {error}"
es_es error_network = codes "no se puede conectar con Mailpeek. ¿Sigue en marcha?"
es_es error_unauthorized = codes "tu sesión ha terminado. Vuelve a iniciar sesión."
es_es error_not_found = codes "ya no existe (puede que se haya eliminado)."
es_es error_server = codes "el servidor ha fallado (HTTP {status})."
es_es error_http = codes "se ha rechazado la solicitud (HTTP {status})."
es_es error_unknown = codes "error inesperado."
es_es status_live = codes "En directo"
es_es status_connecting = codes "Reconectando"
es_es status_offline = codes "Sin conexión"
es_es status_title = codes "Actualizaciones en tiempo real"
es_es smtp_copy = codes "Copiar dirección SMTP"
es_es smtp_login_required = codes "Inicio de sesión SMTP obligatorio"
es_es smtp_login_required_title =
    codes "Inicio de sesión SMTP obligatorio (configurado con MAILPEEK_SMTP_AUTH)"
es_es header_search = codes "Buscar correos..."
es_es header_search_label = codes "Buscar correos"
es_es header_clear_search = codes "Borrar búsqueda"
es_es header_clear = codes "Vaciar"
es_es header_confirm_clear = codes "Confirmar vaciado"
es_es header_clear_inbox = codes "Vaciar la bandeja de entrada"
es_es header_sound = codes "Sonido de correo nuevo"
es_es header_sound_on = codes "Sonido activado para correos nuevos (clic para silenciar)"
es_es header_sound_off = codes "Sonido desactivado para correos nuevos"
es_es header_list = codes "Lista de correos"
es_es header_show_list = codes "Mostrar la lista de correos ( [ )"
es_es header_hide_list = codes "Ocultar la lista de correos ( [ )"
es_es header_sign_out = codes "Cerrar sesión"
es_es header_language = codes "Idioma"
es_es header_theme = codes "Tema oscuro"
es_es header_theme_to_light = codes "Cambiar al tema claro"
es_es header_theme_to_dark = codes "Cambiar al tema oscuro"
es_es header_badge = codes "Entorno local"
es_es address_unknown = codes "(desconocido)"
es_es attachment_file = codes "Archivo"
es_es language_auto = codes "Automático"
es_es list_new = codes "Nuevo"
es_es list_no_subject = codes "(sin asunto)"
es_es list_to = codes "Para: {list}"
es_es list_none = codes "(ninguno)"
es_es list_loading_more = codes "Cargando más…"
es_es list_attachments = codes "Adjuntos: {count}"
es_es empty_title = codes "Todavía no hay correos"
es_es empty_configure = codes "Configura tu aplicación para enviar correos a:"
es_es empty_configure_sidebar =
    codes
      "Configura tu aplicación para enviar correos a la dirección SMTP que aparece al pie de la lista."
es_es empty_login =
    codes "Inicio de sesión obligatorio: usa el usuario y la contraseña definidos en {env}."
es_es empty_footer = codes "Capturados en local. Actualizados al instante."
es_es empty_no_results = codes "Ningún correo coincide con «{query}»"
es_es view_email = codes "Correo"
es_es view_back = codes "Volver a la bandeja de entrada"
es_es view_download = codes "Descargar .eml"
es_es view_delete = codes "Eliminar correo"
es_es view_details = codes "Detalles del correo"
es_es view_show_details = codes "Mostrar detalles (De, Para, fecha)"
es_es view_hide_details = codes "Ocultar detalles para ampliar la vista previa"
es_es view_from = codes "De"
es_es view_to = codes "Para"
es_es view_cc = codes "CC"
es_es view_reply_to = codes "Responder a"
es_es view_received = codes "Recibido"
es_es view_tabs = codes "Vistas"
es_es tab_html = codes "HTML"
es_es tab_text = codes "Texto"
es_es tab_headers = codes "Cabeceras"
es_es tab_raw = codes "Código fuente"
es_es tab_attachments = codes "Adjuntos"
es_es tab_links = codes "Enlaces"
es_es html_none = codes "Este correo no tiene parte HTML."
es_es html_preview = codes "Vista previa"
es_es html_frame = codes "Vista previa HTML"
es_es html_fullscreen = codes "Vista previa a pantalla completa"
es_es html_fullscreen_title = codes "Pantalla completa (Esc para cerrar)"
es_es html_close = codes "Salir de pantalla completa"
es_es html_close_title = codes "Cerrar (Esc)"
es_es width_desktop = codes "Ancho de escritorio"
es_es width_tablet = codes "Ancho de tableta (768px)"
es_es width_mobile = codes "Ancho de móvil (375px)"
es_es text_none = codes "Este correo no tiene parte de texto sin formato."
es_es raw_loading = codes "Cargando…"
es_es raw_error = codes "No se pudo cargar el código fuente: {error}"
es_es copy_copy = codes "Copiar"
es_es copy_copied = codes "Copiado"
es_es attachments_none = codes "Sin adjuntos."
es_es attachments_download = codes "Descargar"
es_es attachments_open = codes "Abrir"
es_es attachments_preview = codes "Vista previa de {name}"
es_es attachments_inline = codes "incrustado"
es_es links_none = codes "No se encontraron enlaces."
es_es links_no_text = codes "(sin texto)"
es_es links_copy = codes "Copiar URL"
es_es links_open_title = codes "Abrir en una pestaña nueva"
es_es links_open = codes "Abrir {target}"
es_es resize_label = codes "Cambiar el tamaño de la lista de correos"
es_es resize_title = codes "Arrastra para cambiar el tamaño · doble clic para restablecer"
