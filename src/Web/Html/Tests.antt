-- ===== src/Web/Html/Tests.antt =====
-- A picture that is attached, with a decoder that knows no escapes.
use mailpeek.Prelude.{map, ◌≡◌, refl, true, Option, some, [], ◌∷◌, ◌++◌, Text, codes, is_space}
use mailpeek.Client.Html.{fold}
use mailpeek.Web.Html.{Attachment, cid_at, replacement, prepare_html}
use mailpeek.Web.Html.Replaced.{IsReplaced, shown, prepare_html-IsReplaced}

abbrev same : Text → Text
same t = t

abbrev small : Text → Text
small t = map fold t

abbrev no_escapes : Text → Option Text
no_escapes t = some t

abbrev logo : Attachment
logo = record {
  id = codes "a1";
  filename = codes "logo.png";
  content_type = codes "image/png";
  content_id = some (codes "LOGO");
  inline = true;
  size = 10;
}

abbrev html : Text
html = codes "<img src='CID:logo'>cid:other cid: >"

html_test :
    prepare_html same no_escapes small (codes "m") (codes "http://x") (logo ∷ []) html
    ≡ codes
        "<base target=\"_blank\"><img src='http://x/api/v1/messages/m/attachments/a1'>cid:other cid: >"
unfolding prepare_html replacement cid_at is_space
html_test = refl

prepare_html-IsReplaced_example :
    (out : Text) × (prepare_html same no_escapes small
        (codes "m")
        (codes "http://x")
        (logo ∷ [])
        html
      ≡ codes "<base target=\"_blank\">" ++ out)
    × IsReplaced (shown same no_escapes small (codes "m") (codes "http://x") (logo ∷ [])) html out
prepare_html-IsReplaced_example =
    prepare_html-IsReplaced same no_escapes small (codes "m") (codes "http://x") (logo ∷ []) html
