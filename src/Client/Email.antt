-- ===== src/Client/Email.antt =====
-- packages/client/src/email.ts: the received email. The lower-case mapping and `Date.parse` are
-- parameters, and a regular expression is the test that it makes of a text from the start on.
pub mod Links
use mailpeek.Prelude.{
  ℕ, ltb, Bool, true, false, Option, none, some, get_or, List, [], ◌∷◌, if◌then◌else◌, Text,
  text_eq, is_empty, is_space, trim, includes, find, any, length,
}
use mailpeek.Client.Types.{Address, Envelope, Attachment, Link, MessageData}

-- `new Date(text)`: `none` is an invalid date.
pub record Email : Type 0 where
  pub id : Text
  pub message_id : Option Text
  pub from : Address
  pub to : List Address
  pub cc : List Address
  pub reply_to : List Address
  pub subject : Text
  pub text : Text
  pub html : Text
  pub headers : List (Text × List Text)
  pub attachments : List Attachment
  pub links : List Link
  pub envelope : Envelope
  pub size : ℕ
  pub date : Option (Option ℕ)
  pub created_at : Option ℕ

-- `if (value)` keeps a field only if it is not empty.
abbrev non_empty : Option Text → Option Text
non_empty none = none
non_empty (some s) = if is_empty s then none else some s

abbrev no_envelope : Envelope
no_envelope = record { from = []; to = [] }

abbrev dated : (Text → Option ℕ) → Option Text → Option (Option ℕ)
dated parse_date none = none
dated parse_date (some s) = some (parse_date s)

-- The constructor.
unfoldable pub new_email : (Text → Option ℕ) → MessageData → Email
new_email parse_date m = record {
  id = m.id;
  message_id = non_empty m.message_id;
  from = m.from;
  to = get_or m.to [];
  cc = get_or m.cc [];
  reply_to = get_or m.reply_to [];
  subject = m.subject;
  text = get_or m.text [];
  html = get_or m.html [];
  headers = get_or m.headers [];
  attachments = get_or m.attachments [];
  links = get_or m.links [];
  envelope = get_or m.envelope no_envelope;
  size = m.size;
  date = dated parse_date (non_empty m.date);
  created_at = parse_date m.created_at;
}

-- `s.replace(/\s+/g, " ")`: each run of blanks becomes one space; `blank` tells whether one is open.
abbrev collapse_from : Bool → Text → Text
collapse_from blank [] = []
collapse_from blank (c ∷ s) =
    let rest = collapse_from (is_space c) s in
    if is_space c then (if blank then rest else 32 ∷ rest) else c ∷ rest

unfoldable pub collapse : Text → Text
collapse s = collapse_from false s

pub data LinkMatcher : Type 0 where
  by_text : Text → LinkMatcher
  by_pattern : (Text → Bool) → LinkMatcher
  by_predicate : (Link → Bool) → LinkMatcher

-- `a ?? b`
abbrev pub or_link : Option Link → Option Link → Option Link
or_link (some l) o = some l
or_link none o = o

module _ (lower : Text → Text) where
  unfoldable pub normalize : Text → Text
  normalize s = lower (trim (collapse s))

  abbrev pub is_exact : Text → Link → Bool
  is_exact needle l = text_eq (normalize l.text) needle

  abbrev pub is_part : Text → Link → Bool
  is_part needle l = includes (normalize l.text) needle

  abbrev pub is_in_href : Text → Link → Bool
  is_in_href needle l = includes (lower l.href) needle

  unfoldable pub match_links : List Link → LinkMatcher → Option Link
  match_links links (by_predicate p) = find p links
  match_links links (by_pattern p) = find (λ l. if p l.text then true else p l.href) links
  match_links links (by_text s) =
      let needle = normalize s in
      or_link (find (is_exact needle) links)
        (or_link (find (is_part needle) links) (find (is_in_href needle) links))

  -- `findLink`, where `none` is the error that it throws, and `hasLink`.
  unfoldable pub find_link : Email → LinkMatcher → Option Link
  find_link e matcher = match_links e.links matcher

  unfoldable pub has_link : Email → LinkMatcher → Bool
  has_link e matcher = elim (match_links e.links matcher) [ none ↦ false | some l ↦ true ]

  -- `getHeaders` over the entries of the object, and `getHeader`.
  abbrev headers_named : Text → List (Text × List Text) → List Text
  headers_named wanted [] = []
  headers_named wanted ((key, values) ∷ hs) =
      let rest = headers_named wanted hs in if text_eq (lower key) wanted then values else rest

  unfoldable pub get_headers : Email → Text → List Text
  get_headers e name = headers_named (lower name) e.headers

  abbrev first_value : List Text → Option Text
  first_value [] = none
  first_value (v ∷ vs) = some v

  unfoldable pub get_header : Email → Text → Option Text
  get_header e name = first_value (get_headers e name)

  -- `hasAttachment` with no matcher, with a text, and with a regular expression.
  unfoldable pub has_any_attachment : Email → Bool
  has_any_attachment e = ltb 0 (length e.attachments)

  unfoldable pub has_attachment : Email → Text → Bool
  has_attachment e name =
      any (λ (a : Attachment). text_eq (lower a.filename) (lower name)) e.attachments

  unfoldable pub has_attachment_like : Email → (Text → Bool) → Bool
  has_attachment_like e pattern = any (λ (a : Attachment). pattern a.filename) e.attachments
