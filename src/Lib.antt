-- ===== src/Lib.antt =====
-- Mailpeek catches the email of an application under test. Its server holds messages in memory and
-- serves them over HTTP; packages/client is the client that tests use, packages/playwright its
-- fixture for Playwright, and web/src is the page that shows the mailbox. These files model the
-- TypeScript of all three.
--
-- The parts, and the files that model them:
-- - Prelude: names of the libraries passed on, Boolean tests on the numbers, lists measured by them,
--   and JavaScript's strings as lists of UTF-16 units (`trim`, `includes`, `===`).
-- - Client.Types, Client.Email: packages/client/src/types.ts, and the constructor, links, headers
--   and attachments of email.ts.
-- - Client.Diagnose: packages/client/src/diagnose.ts. `explain_mismatch` is the concatenation of one
--   list of reasons for each `if` of `explainMismatch`. Client.Diagnose.Criteria states when a message
--   fails a criterion without the code.
-- - Client.Platform, Client.Requests, Client.Wait: packages/client/src/client.ts. A method is a
--   function from the world of a platform to an outcome: a value, a failure thrown, or out of fuel.
--   The platform (`Date.now`, `fetch`, the signal of the caller, `toLowerCase`, `Date.parse`,
--   `toISOString`, `encodeURIComponent`, printing a number) is a parameter. Client.Ensures has the
--   rules of a partial and total correctness logic for outcomes, and Client.Clock what is assumed of
--   a clock.
-- - Client.Inbox: packages/client/src/inbox.ts, with the random bytes of an address given.
-- - Client.Code, Client.Html: the codes and the HTML of packages/client/src/email.ts. Each regular
--   expression is written out as a test of the text at a place, and its repetitions as a search from
--   the greatest number down.
-- - Client.Setup: the constructor of the client, with Base64 written out.
-- - Client.Message, Client.Failures: the texts of the errors that the client throws.
-- - Client.Ends: the methods that make one request need no fuel, and what the deletions ask.
-- - Playwright: packages/playwright/src/index.ts and server.ts. The report of a test is a list of
--   attachments beside the world of the client, and what a test does with the fixture is a list of
--   the uses that matter at its end.
-- - Highlight: web/src/lib/mimeHighlight.ts, its four regular expressions written as scanners.
-- - Storage: the browser's storage, which the page is given.
-- - I18n: web/src/i18n, with a dictionary as a function from keys to texts.
-- - Web.Problems: web/src/lib/errors.ts with the texts of I18n.
-- - Web.Settings: web/src/hooks/useStoredToggle.ts, useTheme.ts, web/src/lib/theme.ts and the choice of
--   I18nProvider.tsx, over the storage.
-- - Web.Types: the data of web/src/api.ts and web/src/lib/errors.ts.
-- - Web.Messages: web/src/hooks/useMessages.ts. The refs of the hook are fields of a store, and its
--   calls, its timer and the ends of its requests are events that take a store to the next.
-- - Web.Live: web/src/lib/liveEvents.ts, with the calls of the browser and the page as events.
-- - Web.Selection: web/src/hooks/useSelection.ts, useArrivals.ts, the move of the selection of
--   useKeyboardShortcuts.ts, and the parts of useInboxState.ts that join them.
-- - Web.Api: the calls and URLs of web/src/api.ts.
-- - Web.Viewer: web/src/hooks/useMessage.ts, with the requests in flight.
-- - Web.Inbox: web/src/hooks/useInboxState.ts, which joins the hooks above.
-- - Web.Shell: web/src/hooks/useLayoutState.ts and useKeyboardShortcuts.ts over Web.Inbox.
-- - Web.Layout: web/src/hooks/useSidebarWidth.ts, useResizeHandle.ts and useListboxMenu.ts.
-- - Web.Controls: web/src/hooks/useConfirmAction.ts, and web/src/lib/tabs.ts.
-- - Web.Source: web/src/hooks/useRawSource.ts, with the requests in flight.
-- - Web.Favicon: web/src/hooks/useFaviconBadge.ts, with the drawings that are not over.
-- - Web.ServerInfo: web/src/hooks/useServerInfo.ts.
-- - Web.Clipboard: web/src/hooks/useCopyToClipboard.ts.
-- - Web.Format: web/src/lib/format.ts, without the times.
-- - Web.Html: web/src/lib/html.ts, its regular expression written as a scanner.
-- - Web.Preview: web/src/hooks/usePreview.ts and useFullscreenDialog.ts.
-- - Web.Search: web/src/hooks/useSearchQuery.ts, with `useDebounced` of useMessages.ts.
-- - Web.Sound: web/src/lib/sound.ts, without the notes of the chime.
-- The modules Tests hold runs at concrete inputs and each theorem at one.
--
-- How the parts meet: `wait_loop` sends the requests of Requests, and at the deadline hands the
-- messages it gets to `explain_mismatch`; a message of the connection of Web.Live is one that
-- `arrive` of Web.Selection takes, and makes the page call `refresh` of Web.Messages; the messages of
-- Web.Messages are those that `selected_id` chooses from. Web.Inbox composes Web.Messages,
-- Web.Selection and Web.Viewer, with the events of Web.Live, as the page does, and Web.Shell puts the
-- keys and the layout over it. Web.Search gives the query that Web.Messages loads; Web.Source, Web.Html
-- and Web.Preview show the message that Web.Viewer has, and Web.Favicon the number of `unread_ids`.
--
-- Bounds and fuel: times are milliseconds and natural numbers. `wait_loop` takes a unit of fuel for
-- each request; more rounds of 30 seconds than the timeout has are enough on a server that holds a
-- request as long as it is asked to. `waitForEmails` takes fuel for its own rounds beside: a unit for
-- each millisecond of the timeout and one more are enough where a request takes a millisecond.
-- The scanners of Highlight recur on the text.
--
-- Not modelled: requests of one `Promise.all` are made one after the other; the markup of the page,
-- its style, its pictures and the notes of its chime; the times that the platform formats; the focus of
-- elements; most clean-ups of a component that goes;
-- a listener of the connection that closes it while it hears that it is live; places of the pointer
-- left of the window or between two pixels. The server is Go, and seen through its replies.
pub mod Client
pub mod Highlight
pub mod I18n
pub mod Playwright
pub mod Prelude
pub mod Storage
pub mod Web
