-- ===== src/Client/Html/Tests.antt =====
-- Texts of HTML.
use mailpeek.Prelude.{◌≡◌, refl, none, [], arith, Text, codes, is_space, trim_start, trim_end, trim}
use mailpeek.Client.Email.{Email, collapse}
use mailpeek.Client.Code.{
  keyword_at, behind_keywords, is_word, greatest, digits, code_token, search_from, first_code,
  guess_code,
}
use mailpeek.Client.Code.Found.{IsFound}
use mailpeek.Client.Html.Found.{find_code-IsFound, find_code_complete}
use mailpeek.Client.Html.Escaped.{escape, html_to_text-escape}
use mailpeek.Client.Html.{
  found, no_code, searched_text, find_code, replace_all, hidden, new_line, tag, exactly, decode,
  html_to_text,
}

conversion : Unit {0}
unfolding html_to_text decode replace_all hidden new_line tag exactly is_space
conversion = tt

html_test :
    html_to_text (
      codes
        "<HEAD><style>p {}</style></Head><p class=\"a\">Code:&nbsp;<b>12</b>&lt;3</p><br />4</h1>")
    ≡ codes "  Code:  12 <3\n\n4\n"
unfolding conversion
html_test = refl

-- What stands for `&lt;` is decoded twice.
twice_test : html_to_text (codes "&amp;lt;") ≡ codes "<"
unfolding conversion
twice_test = refl

abbrev email_with : (text html : Text) → Email
email_with text html = record {
  id = codes "1";
  message_id = none;
  from = record { name = none; address = [] };
  to = [];
  cc = [];
  reply_to = [];
  subject = [];
  text = text;
  html = html;
  headers = [];
  attachments = [];
  links = [];
  envelope = record { from = []; to = [] };
  size = 0;
  date = none;
  created_at = none;
}

finding : Unit {0}
unfolding find_code searched_text html_to_text decode replace_all hidden new_line tag exactly
    is_space trim trim_start trim_end guess_code first_code search_from code_token digits greatest
    behind_keywords keyword_at is_word collapse
finding = tt

find_code_test :
    find_code (email_with (codes " ") (codes "<p>Your code: <b>1234</b></p>")) none
    ≡ found (codes "1234")
unfolding finding
find_code_test = refl

no_code_test : find_code (email_with (codes "Hi  there") []) none ≡ no_code (codes "Hi there")
unfolding finding
no_code_test = refl

find_code-IsFound_example :
    IsFound (searched_text (email_with (codes "PIN 0042") [])) (codes "0042")
unfolding finding
find_code-IsFound_example = find_code-IsFound (email_with (codes "PIN 0042") []) (codes "0042") refl

find_code_complete_example :
    (code : Text) × (find_code (email_with (codes "Use 123456.") []) none ≡ found code)
unfolding finding
find_code_complete_example =
    find_code_complete (email_with (codes "Use 123456.") []) (codes "Use ") (codes "123456")
      (codes ".") refl refl refl (omega arith) (omega arith) refl

html_to_text-escape_example : html_to_text (escape (codes "a < b 'c'")) ≡ codes "a < b 'c'"
html_to_text-escape_example = html_to_text-escape (codes "a < b 'c'") refl
