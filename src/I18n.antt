-- ===== src/I18n.antt =====
-- web/src/i18n: the languages of the page.
pub mod Keys
pub mod EnUs
pub mod EsEs
pub mod FrFr
pub mod PtBr
pub mod PtPt
pub mod Translate
pub mod Placeholders
pub mod Locales
mod Tests
