-- ===== src/Client.antt =====
-- packages/client: the TypeScript client of the Mailpeek server.
pub mod Types
pub mod Diagnose
pub mod Email
pub mod Platform
pub mod Requests
pub mod Ensures
pub mod Ends
pub mod Code
pub mod Message
pub mod Failures
pub mod Setup
pub mod Html
pub mod Wait
pub mod Inbox
pub mod Clock
mod Tests
