-- ===== src/Web.antt =====
-- web/src: the mailbox page.
pub mod Types
pub mod Problems
pub mod Messages
pub mod Live
pub mod Selection
pub mod Layout
pub mod Controls
pub mod Settings
pub mod Api
pub mod Viewer
pub mod Inbox
pub mod Sound
pub mod Clipboard
pub mod Favicon
pub mod Format
pub mod Html
pub mod Preview
pub mod Search
pub mod ServerInfo
pub mod Shell
pub mod Source
mod Tests
