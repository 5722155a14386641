-- ===== src/Web/Shell/Tests.antt =====
-- The keys, at a list of two messages.
use mailpeek.Prelude.{
  ℕ, zero, suc, ◌≡◌, refl, true, false, none, some, [], ◌∷◌, arith, get_elem?, Text, codes,
  is_empty,
}
use mailpeek.Web.Types.{MessageSummary}
use mailpeek.Web.Selection.{down, up}
use mailpeek.Web.Messages as MessagesHook
use mailpeek.Web.Messages.{load, change_query}
use mailpeek.Web.Viewer as ViewerHook
use mailpeek.Web.Viewer.{change_id}
use mailpeek.Web.Inbox.{selected, handle, commit, list_event}
use mailpeek.Web.Shell.{
  Press, Shell, inbox_event, pressed, follow, open_message, act, step, run, started,
  list_hidden_on_phone, pane_hidden_on_phone,
}
use mailpeek.Web.Shell.Moves.{IsIdList}
use mailpeek.Web.Shell.Walk.{AllMove, key_j, key_arrow_up, no_keys, next_key, IsAt, run-IsAt}

abbrev summary : Text → MessageSummary
summary id = record {
  id = id;
  from = record { name = none; address = codes "a@x" };
  to = [];
  cc = [];
  subject = [];
  attachments = 0;
  size = 0;
  created_at = [];
}

abbrev key : Text → Press
key k = record { key = k; meta_key = false; ctrl_key = false; alt_key = false; ignored = false }

-- The list of two messages has come.
abbrev at_work : Shell Text
at_work = run (started [] false false) (
    inbox_event (
      list_event (
        MessagesHook.replied 0 (
          MessagesHook.page
            (record {
              messages = summary (codes "a") ∷ (summary (codes "b") ∷ []);
              next_cursor = none;
            })
            2)))
    ∷ [])

working : Unit {0}
unfolding step act follow open_message handle commit MessagesHook.step MessagesHook.finish load
    change_query change_id ViewerHook.step
working = tt

keys_test :
    selected (run at_work (pressed (key (codes "j")) ∷ (pressed (key (codes "j")) ∷ []))).page
    ≡ some (codes "b")
unfolding working
keys_test = refl

two_ids : IsIdList (codes "a" ∷ (codes "b" ∷ []))
two_ids = record { distinct = distinct; filled = filled }
  where
    distinct :
        (i j : ℕ) (id : Text)
        → get_elem? (codes "a" ∷ (codes "b" ∷ [])) i ≡ some id
        → get_elem? (codes "a" ∷ (codes "b" ∷ [])) j ≡ some id
        → i ≡ j
    distinct zero zero id a b = refl
    distinct zero (suc zero) id a b = ground arith
    distinct (suc zero) zero id a b = ground arith
    distinct (suc zero) (suc zero) id a b = refl
    distinct (suc (suc i)) j id a b = cc
    distinct zero (suc (suc j)) id a b = cc
    distinct (suc zero) (suc (suc j)) id a b = cc

    filled :
        (i : ℕ) (id : Text)
        → get_elem? (codes "a" ∷ (codes "b" ∷ [])) i ≡ some id
        → is_empty id ≡ false
    filled zero id a = ground arith
    filled (suc zero) id a = ground arith
    filled (suc (suc i)) id a = cc

two_keys : AllMove (key (codes "j") ∷ (key (codes "ArrowUp") ∷ [])) (down ∷ (up ∷ []))
two_keys = next_key key_j (next_key key_arrow_up no_keys)

at_work-IsAt : IsAt (codes "a" ∷ (codes "b" ∷ [])) 0 at_work
unfolding working
at_work-IsAt = record { listed = refl; place = refl; open_there = refl }

run-IsAt_example :
    let t = run at_work (pressed (key (codes "j")) ∷ (pressed (key (codes "ArrowUp")) ∷ [])) in
    IsAt (codes "a" ∷ (codes "b" ∷ [])) 0 t
    × (list_hidden_on_phone t ≡ true)
    × (pane_hidden_on_phone t ≡ false)
run-IsAt_example =
    run-IsAt (codes "a" ∷ (codes "b" ∷ [])) 0 down (up ∷ []) (key (codes "j"))
      (key (codes "ArrowUp") ∷ []) at_work two_keys two_ids (omega arith) at_work-IsAt
