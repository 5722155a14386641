-- ===== src/Client/Tests/Rounds.antt =====
-- `waitForEmails` on a server that lists two messages, each request of which takes a millisecond.
use mailpeek.Client.Ensures.{Ensures}
