-- ===== src/Web/Inbox/Tests.antt =====
-- A page at work, and its theorems at one run of it.
use mailpeek.Web.Selection.{has_id}
use mailpeek.Prelude.{◌⊎◌, false, any, ◌≡◌, refl, none, some, List, [], ◌∷◌, ◌++◌, Text, codes}
use mailpeek.Web.Types.{MessageSummary}
use mailpeek.Web.Live.{message_created}
use mailpeek.Web.Messages as MessagesHook
use mailpeek.Web.Messages.{load, refresh, fire_timer, load_more, change_query}
use mailpeek.Web.Viewer as ViewerHook
use mailpeek.Web.Viewer.{view, change_id}
use mailpeek.Web.Inbox.{
  Event, server_event, list_event, removal, answered, message, messages, chosen, selected, handle,
  commit, run, opened, unread, pane_shown,
}
use mailpeek.Web.Inbox.Coherent.{IsCoherent, run-opened-IsCoherent}

abbrev summary : Text → MessageSummary
summary id = record {
  id = id;
  from = record { name = none; address = codes "a@x" };
  to = [];
  cc = [];
  subject = [];
  attachments = 0;
  size = 0;
  created_at = [];
}

-- Two messages are listed, the first one is opened, and then another arrives.
abbrev visit : List (Event Text)
visit =
    list_event (
      MessagesHook.replied 0 (
        MessagesHook.page
          (record {
            messages = summary (codes "a") ∷ (summary (codes "b") ∷ []);
            next_cursor = none;
          })
          2))
    ∷ (answered 0 (ViewerHook.answered (codes "hi"))
        ∷ (server_event message_created (some (codes "c")) ∷ []))

working : Unit {0}
unfolding handle commit pane_shown view MessagesHook.step MessagesHook.finish load refresh
    fire_timer load_more change_query change_id ViewerHook.finish ViewerHook.step
working = tt

pane_test : pane_shown (run (opened []) visit) ≡ message
unfolding working
pane_test = refl

unread_test : unread (run (opened []) visit) ≡ codes "c" ∷ []
unfolding working
unread_test = refl

removal_test : selected (run (opened []) (visit ++ (removal (codes "a") ∷ []))) ≡ some (codes "b")
unfolding working
removal_test = refl

run-opened-IsCoherent_example :
    let p = run (opened []) visit in
    IsCoherent p
    × ((any (has_id (codes "b")) (messages p) ≡ false)
        ⊎ ((selected (commit (handle (chosen (some (codes "b"))) p)) ≡ some (codes "b"))
            × ((commit (handle (chosen (some (codes "b"))) p)).viewer.id ≡ some (codes "b"))))
run-opened-IsCoherent_example = run-opened-IsCoherent [] visit (codes "b")
