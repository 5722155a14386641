-- ===== src/Highlight.antt =====
-- web/src/lib/mimeHighlight.ts: the source of an email, split into lines of coloured tokens.
-- Each regular expression is a function that reads one match at the start of a text; none of
-- them can match in two ways, so there is no backtracking to model.
pub mod Scan
pub mod Regex
pub mod Tokens
pub mod Matches
pub mod Encoded
pub mod Lossless
pub mod Words
pub mod Positions
mod Tests
