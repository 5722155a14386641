-- ===== src/Web/Shell/Walk.antt =====
-- web/src/hooks/useKeyboardShortcuts.ts: the keys that move the selection.
use mailpeek.Prelude.{
  false, codes, ℕ, ◌<◌, ◌≡◌, refl, sym, ap, subst, ◌∙◌, true, false, some, List, [], ◌∷◌, map,
  arith, length, get_elem?, any, Text, text_eq_refl,
}
use mailpeek.Web.Types.{MessageSummary}
use mailpeek.Web.Selection.{Delta, down, up, move, has_id}
use mailpeek.Web.Inbox.Coherent.{follow-id}
use mailpeek.Web.Inbox.{Page, is_none_listed, chosen, messages, selected, handle, commit}
use mailpeek.Web.Shell.{
  Press, moves, Shell, pressed, pressed_action, ids_of, follow, open_message, open_some, act, step,
  run, list_hidden_on_phone, pane_hidden_on_phone,
}
use mailpeek.Web.Shell.Moves.{walk, IsIdList, get-within, walk_bound, move-at, listed-at}

-- At place `i` of the list: the message there is selected and open.
pub record IsAt {A : Type 0} (ids : List Text) (i : ℕ) (s : Shell A) : Type 0 where
  pub listed : ids_of (messages s.page) ≡ ids
  pub place : selected s.page ≡ get_elem? ids i
  pub open_there : s.page.viewer.id ≡ get_elem? ids i

module _ {A : Type 0} where
  chosen-selected :
      (id : Text) (p : Page A)
      → any (has_id id) (messages p) ≡ true
      → selected (commit (handle (chosen (some id)) p)) ≡ some id
  unfolding commit handle
  chosen-selected id p h = let e = text_eq_refl id in ground arith

  chosen-viewer :
      (id : Text) (p : Page A)
      → any (has_id id) (messages p) ≡ true
      → (commit (handle (chosen (some id)) p)).viewer.id ≡ some id
  unfolding commit
  chosen-viewer id p h =
      follow-id (selected (commit (handle (chosen (some id)) p)))
        (handle (chosen (some id)) p).viewer
      ∙ chosen-selected id p h

  open_message-IsAt :
      (id : Text) (ids : List Text) (i : ℕ) (s : Shell A)
      → ids_of (messages s.page) ≡ ids
      → get_elem? ids i ≡ some id
      → IsAt ids i (open_message id s)
  unfolding open_message follow commit handle
  open_message-IsAt id ids i s listed at =
      let hit = listed-at (messages s.page) i id (ap (λ l. get_elem? l i) listed ∙ at) in
      record {
        listed = listed;
        place = chosen-selected id s.page hit ∙ sym at;
        open_there = chosen-viewer id s.page hit ∙ sym at;
      }

  open_message-show_detail : (id : Text) (s : Shell A) → (open_message id s).show_detail ≡ true
  unfolding open_message
  open_message-show_detail id s = refl

  move-opens :
      (ids : List Text) (i : ℕ) (d : Delta) (s : Shell A)
      → IsIdList ids
      → i < length ids
      → IsAt ids i s
      → IsAt ids (walk (length ids) i (d ∷ [])) (act (some (moves d)) s)
        × ((act (some (moves d)) s).show_detail ≡ true)
  unfolding act
  move-opens ids i d s h l at =
      let (id, there) = get-within ids i l in
      let (next, at_next, opens) = move-at ids i id d h l there in
      let same : move (ids_of (messages s.page)) (selected s.page) d ≡ some next =
        ap (λ l. move l (selected s.page) d) at.listed
        ∙ ap (λ o. move ids o d) (at.place ∙ there)
        ∙ opens in
      subst
        (λ o.
          IsAt ids (walk (length ids) i (d ∷ [])) (open_some o s)
          × ((open_some o s).show_detail ≡ true))
        (sym same)
        (open_message-IsAt next ids _ s at.listed at_next, open_message-show_detail next s)

  step-IsAt :
      (ids : List Text) (i : ℕ) (d : Delta) (k : Press) (s : Shell A)
      → pressed_action k ≡ some (moves d)
      → IsIdList ids
      → i < length ids
      → IsAt ids i s
      → IsAt ids (walk (length ids) i (d ∷ [])) (step s (pressed k))
        × ((step s (pressed k)).show_detail ≡ true)
  unfolding step
  step-IsAt ids i d k s e h l at =
      subst
        (λ o. IsAt ids (walk (length ids) i (d ∷ [])) (act o s) × ((act o s).show_detail ≡ true))
        (sym e) (move-opens ids i d s h l at)

walk_first :
    (n i : ℕ) (d : Delta) (ds : List Delta) → walk n (walk n i (d ∷ [])) ds ≡ walk n i (d ∷ ds)
walk_first n i down ds = refl
walk_first n i up ds = refl

-- A key that is pressed alone, outside of a field, a dialog and a list.
abbrev pub bare : Text → Press
bare key = record {
  key = key;
  meta_key = false;
  ctrl_key = false;
  alt_key = false;
  ignored = false;
}

pub data IsMoveKey : Press → Delta → Type 0 where
  key_j : IsMoveKey (bare (codes "j")) down
  key_arrow_down : IsMoveKey (bare (codes "ArrowDown")) down
  key_k : IsMoveKey (bare (codes "k")) up
  key_arrow_up : IsMoveKey (bare (codes "ArrowUp")) up

IsMoveKey-moves : (k : Press) (d : Delta) → IsMoveKey k d → pressed_action k ≡ some (moves d)
IsMoveKey-moves k d key_j = refl
IsMoveKey-moves k d key_arrow_down = refl
IsMoveKey-moves k d key_k = refl
IsMoveKey-moves k d key_arrow_up = refl

-- Each key is one that moves the selection, by the move beside it.
pub data AllMove : List Press → List Delta → Type 0 where
  no_keys : AllMove [] []
  next_key :
      {k : Press} {d : Delta} {ks : List Press} {ds : List Delta}
      → IsMoveKey k d
      → AllMove ks ds
      → AllMove (k ∷ ks) (d ∷ ds)

run_from-IsAt :
    {A : Type 0} (ids : List Text) (i : ℕ) (ds : List Delta) (ks : List Press) (s : Shell A)
    → AllMove ks ds
    → IsIdList ids
    → i < length ids
    → IsAt ids i s
    → s.show_detail ≡ true
    → IsAt ids (walk (length ids) i ds) (run s (map pressed ks))
      × ((run s (map pressed ks)).show_detail ≡ true)
run_from-IsAt ids i [] [] s m h l at shown = (at, shown)
run_from-IsAt ids i [] (k ∷ ks) s m h l at shown = elim m [ ]
run_from-IsAt ids i (d ∷ ds) [] s m h l at shown = elim m [ ]
run_from-IsAt ids i (d ∷ ds) (k ∷ ks) s (next_key e m) h l at shown =
    let (there, detail) = step-IsAt ids i d k s (IsMoveKey-moves k d e) h l at in
    let (last, shown_last) =
      run_from-IsAt ids (walk (length ids) i (d ∷ [])) ds ks (step s (pressed k)) m h
        (walk_bound (length ids) i d l) there detail in
    (
      subst (λ j. IsAt ids j (run s (map pressed (k ∷ ks)))) (walk_first (length ids) i d ds) last,
      shown_last,
    )

is_none_listed-within :
    (ms : List MessageSummary) (ids : List Text) (i : ℕ)
    → ids_of ms ≡ ids
    → i < length ids
    → is_none_listed ms ≡ false
is_none_listed-within [] [] i e l = absurd (omega (arith, l))
is_none_listed-within [] (id ∷ ids) i e l = cc
is_none_listed-within (m ∷ ms) ids i e l = refl

IsAt-phone :
    {A : Type 0} (ids : List Text) (i j : ℕ) (s : Shell A)
    → i < length ids
    → IsAt ids j s
    → s.show_detail ≡ true
    → (list_hidden_on_phone s ≡ true) × (pane_hidden_on_phone s ≡ false)
IsAt-phone ids i j s l at shown =
    let some_listed = is_none_listed-within (messages s.page) ids i at.listed l in
    (ground arith, ground arith)

-- Where the ids of the list differ and none is empty, and a message is selected and open: each press
-- of "j" or the arrow down selects and opens the next message, each press of "k" or the arrow up the
-- one before, and at an end of the list the one there stays; and after the first of them a phone
-- shows the pane, and not the list.
pub run-IsAt :
    {A : Type 0} (ids : List Text) (i : ℕ) (d : Delta) (ds : List Delta) (k : Press)
    (ks : List Press) (s : Shell A)
    → AllMove (k ∷ ks) (d ∷ ds)
    → IsIdList ids
    → i < length ids
    → IsAt ids i s
    → let t = run s (map pressed (k ∷ ks)) in
      IsAt ids (walk (length ids) i (d ∷ ds)) t
      × (list_hidden_on_phone t ≡ true)
      × (pane_hidden_on_phone t ≡ false)
run-IsAt ids i d ds k ks s (next_key e m) h l at =
    let (there, detail) = step-IsAt ids i d k s (IsMoveKey-moves k d e) h l at in
    let (last, shown) =
      run_from-IsAt ids (walk (length ids) i (d ∷ [])) ds ks (step s (pressed k)) m h
        (walk_bound (length ids) i d l) there detail in
    let phone = IsAt-phone ids i _ (run s (map pressed (k ∷ ks))) l last shown in
    (
      subst (λ j. IsAt ids j (run s (map pressed (k ∷ ks)))) (walk_first (length ids) i d ds) last,
      phone.0,
      phone.1,
    )
