-- ===== src/I18n/FrFr.antt =====
-- web/src/i18n/locales/fr-FR.ts: the texts in French.
use mailpeek.Prelude.{Text, codes}
use mailpeek.I18n.Keys.{
  MessageKey, app_inbox, app_empty_list, app_load_error, app_message_error, error_network,
  error_unauthorized, error_not_found, error_server, error_http, error_unknown, status_live,
  status_connecting, status_offline, status_title, smtp_copy, smtp_login_required,
  smtp_login_required_title, header_search, header_search_label, header_clear_search, header_clear,
  header_confirm_clear, header_clear_inbox, header_sound, header_sound_on, header_sound_off,
  header_list, header_show_list, header_hide_list, header_sign_out, header_language, header_theme,
  header_theme_to_light, header_theme_to_dark, header_badge, address_unknown, attachment_file,
  language_auto, list_new, list_no_subject, list_to, list_none, list_loading_more, list_attachments,
  empty_title, empty_configure, empty_configure_sidebar, empty_login, empty_footer,
  empty_no_results, view_email, view_back, view_download, view_delete, view_details,
  view_show_details, view_hide_details, view_from, view_to, view_cc, view_reply_to, view_received,
  view_tabs, tab_html, tab_text, tab_headers, tab_raw, tab_attachments, tab_links, html_none,
  html_preview, html_frame, html_fullscreen, html_fullscreen_title, html_close, html_close_title,
  width_desktop, width_tablet, width_mobile, text_none, raw_loading, raw_error, copy_copy,
  copy_copied, attachments_none, attachments_download, attachments_open, attachments_preview,
  attachments_inline, links_none, links_no_text, links_copy, links_open_title, links_open,
  resize_label, resize_title,
}

unfoldable pub fr_fr : MessageKey → Text
fr_fr app_inbox = codes "Boîte de réception"
fr_fr app_empty_list = codes "Les e-mails reçus apparaîtront ici."
fr_fr app_load_error = codes "Impossible de charger les e-mails : {error}"
fr_fr app_message_error = codes "Impossible de charger l’e-mail : {error}"
fr_fr error_network = codes "impossible de joindre Mailpeek. Est-il toujours lancé ?"
fr_fr error_unauthorized = codes "votre session a expiré. Reconnectez-vous."
fr_fr error_not_found = codes "il n'existe plus (il a peut-être été supprimé)."
fr_fr error_server = codes "le serveur a échoué (HTTP {status})."
fr_fr error_http = codes "la requête a été refusée (HTTP {status})."
fr_fr error_unknown = codes "erreur inattendue."
fr_fr status_live = codes "En direct"
fr_fr status_connecting = codes "Reconnexion"
fr_fr status_offline = codes "Hors ligne"
fr_fr status_title = codes "Mises à jour en temps réel"
fr_fr smtp_copy = codes "Copier l’adresse SMTP"
fr_fr smtp_login_required = codes "Connexion SMTP requise"
fr_fr smtp_login_required_title = codes "Connexion SMTP requise (définie par MAILPEEK_SMTP_AUTH)"
fr_fr header_search = codes "Rechercher des e-mails..."
fr_fr header_search_label = codes "Rechercher des e-mails"
fr_fr header_clear_search = codes "Effacer la recherche"
fr_fr header_clear = codes "Vider"
fr_fr header_confirm_clear = codes "Confirmer"
fr_fr header_clear_inbox = codes "Vider la boîte de réception"
fr_fr header_sound = codes "Son des nouveaux e-mails"
fr_fr header_sound_on = codes "Son activé pour les nouveaux e-mails (cliquer pour couper)"
fr_fr header_sound_off = codes "Son désactivé pour les nouveaux e-mails"
fr_fr header_list = codes "Liste des e-mails"
fr_fr header_show_list = codes "Afficher la liste des e-mails ( [ )"
fr_fr header_hide_list = codes "Masquer la liste des e-mails ( [ )"
fr_fr header_sign_out = codes "Se déconnecter"
fr_fr header_language = codes "Langue"
fr_fr header_theme = codes "Thème sombre"
fr_fr header_theme_to_light = codes "Passer au thème clair"
fr_fr header_theme_to_dark = codes "Passer au thème sombre"
fr_fr header_badge = codes "Espace local"
fr_fr address_unknown = codes "(inconnu)"
fr_fr attachment_file = codes "Fichier"
fr_fr language_auto = codes "Automatique"
fr_fr list_new = codes "Nouveau"
fr_fr list_no_subject = codes "(sans objet)"
fr_fr list_to = codes "À : {list}"
fr_fr list_none = codes "(aucun)"
fr_fr list_loading_more = codes "Chargement…"
fr_fr list_attachments = codes "Pièces jointes : {count}"
fr_fr empty_title = codes "Aucun e-mail pour l’instant"
fr_fr empty_configure = codes "Configurez votre application pour envoyer les e-mails à :"
fr_fr empty_configure_sidebar =
    codes
      "Configurez votre application pour envoyer les e-mails à l’adresse SMTP affichée en bas de la liste."
fr_fr empty_login =
    codes "Connexion requise : utilisez l’identifiant et le mot de passe définis par {env}."
fr_fr empty_footer = codes "Capturés en local. Mis à jour instantanément."
fr_fr empty_no_results = codes "Aucun e-mail ne correspond à « {query} »"
fr_fr view_email = codes "E-mail"
fr_fr view_back = codes "Retour à la boîte de réception"
fr_fr view_download = codes "Télécharger le .eml"
fr_fr view_delete = codes "Supprimer l’e-mail"
fr_fr view_details = codes "Détails de l’e-mail"
fr_fr view_show_details = codes "Afficher les détails (De, À, date)"
fr_fr view_hide_details = codes "Masquer les détails pour agrandir l’aperçu"
fr_fr view_from = codes "De"
fr_fr view_to = codes "À"
fr_fr view_cc = codes "Cc"
fr_fr view_reply_to = codes "Répondre à"
fr_fr view_received = codes "Reçu"
fr_fr view_tabs = codes "Vues"
fr_fr tab_html = codes "HTML"
fr_fr tab_text = codes "Texte"
fr_fr tab_headers = codes "En-têtes"
fr_fr tab_raw = codes "Source"
fr_fr tab_attachments = codes "Pièces jointes"
fr_fr tab_links = codes "Liens"
fr_fr html_none = codes "Cet e-mail n’a pas de partie HTML."
fr_fr html_preview = codes "Aperçu"
fr_fr html_frame = codes "Aperçu HTML"
fr_fr html_fullscreen = codes "Aperçu en plein écran"
fr_fr html_fullscreen_title = codes "Plein écran (Échap pour fermer)"
fr_fr html_close = codes "Quitter le plein écran"
fr_fr html_close_title = codes "Fermer (Échap)"
fr_fr width_desktop = codes "Largeur ordinateur"
fr_fr width_tablet = codes "Largeur tablette (768px)"
fr_fr width_mobile = codes "Largeur mobile (375px)"
fr_fr text_none = codes "Cet e-mail n’a pas de partie texte brut."
fr_fr raw_loading = codes "Chargement…"
fr_fr raw_error = codes "Impossible de charger la source : {error}"
fr_fr copy_copy = codes "Copier"
fr_fr copy_copied = codes "Copié"
fr_fr attachments_none = codes "Aucune pièce jointe."
fr_fr attachments_download = codes "Télécharger"
fr_fr attachments_open = codes "Ouvrir"
fr_fr attachments_preview = codes "Aperçu de {name}"
fr_fr attachments_inline = codes "intégrée"
fr_fr links_none = codes "Aucun lien trouvé."
fr_fr links_no_text = codes "(sans texte)"
fr_fr links_copy = codes "Copier l’URL"
fr_fr links_open_title = codes "Ouvrir dans un nouvel onglet"
fr_fr links_open = codes "Ouvrir {target}"
fr_fr resize_label = codes "Redimensionner la liste des e-mails"
fr_fr resize_title = codes "Glisser pour redimensionner · double-clic pour réinitialiser"
